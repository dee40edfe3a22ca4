-- ===== src/Core/Truncate/Cut.antt =====
-- What `safe_truncate_receipts` keeps.
use mathlib.Core.List.{Perm}
use timeline_aggregation_pro.Base.{
  ℕ, zero, suc, ◌≤◌, ◌<◌, ◌-◌, ◌≡◌, refl, ltb, leb, ◌==◌, not, false, some, List, [], ◌++◌, arith,
  length, get_elem?, take, drop, retain, All-map, if◌then◌else◌, ◌⊎◌, inl, inr, Bool-cases, leb→le,
  leb→lt, le→leb, le→ltb, take-append-drop, length-append, length-perm, length-retain-le,
  retain-perm, ap, ◌∙◌, sym, append-nil, subst,
}
use timeline_aggregation_pro.Core.Receipt.{ReceiptWithState, timestamp}
use timeline_aggregation_pro.Core.Truncate.{
  IsSorted, IsSort, truncate_sorted, safe_truncate_receipts,
}
use timeline_aggregation_pro.Core.Truncate.Sorted.{
  retain-append, retain-All, retain-none, retain-congr, get_elem?-of_lt, take-le, drop-ge,
  neighbours-le, length-take_of_lt,
}

module _ {T : Type 0} where
  -- The receipts before a timestamp, and those up to it.
  abbrev pub before : ℕ → List (ReceiptWithState T) → List (ReceiptWithState T)
  before cut = retain (λ r. ltb (timestamp r) cut)

  abbrev pub up_to : ℕ → List (ReceiptWithState T) → List (ReceiptWithState T)
  up_to cut = retain (λ r. leb (timestamp r) cut)

  -- What a truncation to a limit keeps: all receipts, if the limit allows; otherwise exactly the
  -- receipts before some timestamp, as many as the limit allows, while the receipts up to and
  -- including that timestamp would be too many.
  abbrev pub IsTruncation : List (ReceiptWithState T) → ℕ → List (ReceiptWithState T) → Type 0
  IsTruncation receipts limit kept =
      (kept ≡ receipts) × (length receipts ≤ limit)
      ⊎ ((cut : ℕ) × Perm kept (before cut receipts)
          × (length kept ≤ limit)
          × (limit < length (up_to cut receipts)))

  module _ (xs : List (ReceiptWithState T)) (n : ℕ) {r : ReceiptWithState T} (s : IsSorted xs)
      (e : get_elem? xs n ≡ some r) where
    -- Nothing from the index on is earlier than the member there.
    before-take : before (timestamp r) xs ≡ before (timestamp r) (take n xs)
    before-take =
        ap (before (timestamp r)) (sym (take-append-drop n xs))
        ∙ retain-append _ (take n xs) (drop n xs)
        ∙ ap (λ l. before (timestamp r) (take n xs) ++ l)
            (retain-none _ (drop n xs) (
              All-map (λ x. timestamp r ≤ timestamp x) _ (λ x h. le→ltb _ _ h) (drop n xs)
                (drop-ge xs n s e)))
        ∙ append-nil _

    up_to-take : up_to (timestamp r) (take (suc n) xs) ≡ take (suc n) xs
    up_to-take = retain-All _ _ (
        All-map (λ x. timestamp x ≤ timestamp r) _ (λ x h. le→leb _ _ h) (take (suc n) xs)
          (take-le xs n s e))

    lt-length-up_to : n < length xs → n < length (up_to (timestamp r) xs)
    lt-length-up_to h =
        let whole = ap length (
          ap (up_to (timestamp r)) (sym (take-append-drop (suc n) xs))
          ∙ retain-append _ (take (suc n) xs) (drop (suc n) xs)) in
        omega (
          arith,
          whole,
          length-append (up_to (timestamp r) (take (suc n) xs))
              (up_to (timestamp r) (drop (suc n) xs)),
          ap length up_to-take,
          length-take_of_lt xs (suc n) h,
        )

  -- The list that the code returns after its two reads.
  abbrev truncated_of :
      List (ReceiptWithState T)
      → ℕ
      → (last after_last : ReceiptWithState T) → List (ReceiptWithState T)
  truncated_of xs limit last after_last =
      if timestamp last == timestamp after_last
      then retain (λ r. not (timestamp r == timestamp last)) (take limit xs)
      else take limit xs

  -- It holds the receipts before the first one that does not fit.
  truncated_of-eq-before :
      (xs : List (ReceiptWithState T)) (k : ℕ) {l r : ReceiptWithState T}
      → IsSorted xs
      → get_elem? xs k ≡ some l
      → get_elem? xs (suc k) ≡ some r
      → truncated_of xs (suc k) l r ≡ before (timestamp r) xs
  truncated_of-eq-before xs k {l} {r} s el er = elim (Bool-cases (timestamp l == timestamp r)) [
    | inl same ↦
        rw (same, before-take xs (suc k) s er)
          (retain-congr _ _ (take (suc k) xs) (
            All-map (λ x. timestamp x ≤ timestamp l) _ (λ x h. ground arith) (take (suc k) xs)
              (take-le xs k s el)))
    | inr differ ↦
        let below = neighbours-le xs k s el er in
        rw (differ, before-take xs (suc k) s er)
          (sym (
            retain-All _ (take (suc k) xs) (
              All-map (λ x. timestamp x ≤ timestamp l) _ (λ x h. ground arith) (take (suc k) xs)
                (take-le xs k s el))))
  ]

  module _ (sort : List (ReceiptWithState T) → List (ReceiptWithState T)) where
    truncate_sorted_lem :
        (xs : List (ReceiptWithState T)) (k : ℕ)
        → IsSorted xs
        → suc k < length xs
        → (r : ReceiptWithState T) × (get_elem? xs (suc k) ≡ some r)
          × (truncate_sorted sort xs (suc k) ≡ some (before (timestamp r) xs))
    unfolding truncate_sorted
    truncate_sorted_lem xs k s h =
        let (r, er) = get_elem?-of_lt xs (suc k) h in
        let (l, el) = get_elem?-of_lt xs k (omega arith) in
        let pred : suc k - 1 ≡ k = omega arith in
        (r, er, rw (pred, el, truncate_sorted, er, truncated_of-eq-before xs k s el er))

  module _ (sort : List (ReceiptWithState T) → List (ReceiptWithState T)) (is_sort : IsSort sort)
      (rs : List (ReceiptWithState T)) where
    -- The receipts before the first one that does not fit are a truncation.
    before-IsTruncation :
        (limit : ℕ) {r : ReceiptWithState T}
        → get_elem? (sort rs) limit ≡ some r
        → limit < length rs
        → IsTruncation rs limit (before (timestamp r) (sort rs))
    before-IsTruncation limit {r} e h =
        let xs = sort rs in
        let p = is_sort.perm rs in
        let s = is_sort.sorted rs in
        let long : limit < length xs = omega (arith, length-perm p) in
        inr (
          timestamp r,
          retain-perm _ p,
          omega (
            arith,
            ap length (before-take xs limit s e),
            length-retain-le (λ x. ltb (timestamp x) (timestamp r)) (take limit xs),
            length-take_of_lt xs limit (omega arith),
          ),
          omega (
            arith,
            lt-length-up_to xs limit s e long,
            length-perm (retain-perm (λ x. leb (timestamp x) (timestamp r)) p),
          ),
        )

    -- For every limit, `safe_truncate_receipts` returns, with no read out of bounds; if the limit
    -- allows, it returns its input; otherwise it returns exactly the receipts before some
    -- timestamp, at most as many as the limit, where all receipts up to and including that
    -- timestamp are more than the limit. So no receipt of a returned timestamp is left behind.
    pub safe_truncate_receipts-IsTruncation :
        (limit : ℕ)
        → (kept : List (ReceiptWithState T)) × (safe_truncate_receipts sort rs limit ≡ some kept)
          × IsTruncation rs limit kept
    unfolding safe_truncate_receipts
    safe_truncate_receipts-IsTruncation limit = elim (Bool-cases (leb (length rs) limit)) [
      | inl fits ↦ (rs, rw fits, inl (refl, leb→le _ _ fits))
      | inr over ↦ too_long limit over (leb→lt _ _ over)
    ]
      where
        too_long :
            (n : ℕ)
            → leb (length rs) n ≡ false
            → n < length rs
            → (kept : List (ReceiptWithState T)) × (safe_truncate_receipts sort rs n ≡ some kept)
              × IsTruncation rs n kept
        too_long zero over h =
            let (r, e) =
              get_elem?-of_lt (sort rs) 0 (omega (arith, length-perm (is_sort.perm rs))) in
            let nothing = before-take (sort rs) 0 (is_sort.sorted rs) e in
            ([], rw over, subst (IsTruncation rs 0) nothing (before-IsTruncation 0 e h))
        too_long (suc k) over h =
            let (r, e, kept) =
              truncate_sorted_lem sort (sort rs) k (is_sort.sorted rs)
                (omega (arith, length-perm (is_sort.perm rs))) in
            (
              before (timestamp r) (sort rs),
              rw over (ground (arith, kept)),
              before-IsTruncation (suc k) e h,
            )
