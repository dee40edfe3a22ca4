-- ===== src/Core/Memory/Retrieve.antt =====
-- What the in-memory context retrieves and removes.
use mathlib.Core.List.{Perm}
use mathlib.Core.List.Perm
use timeline_aggregation_pro.Base.{
  ℕ, ◌≡◌, refl, not, Bool, Option, none, some, ok, List, [], ◌∷◌, map, arith, ltb, length, retain,
  retain-perm, Bool-cases, ltb→le, inl, inr, HashMap,
}
use timeline_aggregation_pro.Core.Receipt.{timestamp}
use timeline_aggregation_pro.Core.Action.{done}
use timeline_aggregation_pro.Core.Adapters.{Range, in_range}
use timeline_aggregation_pro.Core.Truncate.Cut.{IsTruncation, safe_truncate_receipts-IsTruncation}
use timeline_aggregation_pro.Core.Memory.{
  Stored, InMemoryContext, Unordered, UnorderedLaws, receipts_in_range, limited,
  retrieve_receipts_in_timestamp_range, remove_receipts_in_timestamp_range,
}

-- The receipts in storage, and those of a range.
abbrev pub stored : InMemoryContext → List Stored
stored s = map (λ (e : ℕ × Stored). e.1) s.receipt_storage

abbrev pub within : Range → List Stored → List Stored
within range = retain (λ r. in_range range (timestamp r))

-- A retrieval with a limit: everything, if there is none; otherwise a truncation to it.
abbrev pub IsLimited : List Stored → Option ℕ → List Stored → Type 0
IsLimited receipts none found = found ≡ receipts
IsLimited receipts (some limit) found = IsTruncation receipts limit found

-- Filtering the entries of the storage is filtering its receipts.
pub map-retain :
    (p : Stored → Bool) (m : HashMap Stored)
    → map (λ (e : ℕ × Stored). e.1) (retain (λ (e : ℕ × Stored). p e.1) m)
      ≡ retain p (map (λ (e : ℕ × Stored). e.1) m)
map-retain p [] = refl
map-retain p ((k, r) ∷ m) = ground (arith, map-retain p m)

module _ (u : Unordered) (laws : UnorderedLaws u) where
  pub receipts_in_range-perm :
      (range : Range) (s : InMemoryContext)
      → Perm (receipts_in_range u range s.receipt_storage) (within range (stored s))
  unfolding receipts_in_range
  receipts_in_range-perm range s =
      rw (map-retain (λ r. in_range range (timestamp r)) (u.iterate s.receipt_storage)) (
        retain-perm (λ r. in_range range (timestamp r))
          (Perm.map (λ (e : ℕ × Stored). e.1) (laws.iterate_perm s.receipt_storage)))

  limited-IsLimited :
      (limit : Option ℕ) (rs : List Stored)
      → (found : List Stored) × (limited u limit rs ≡ some found) × IsLimited rs limit found
  limited-IsLimited none rs = (rs, refl, refl)
  limited-IsLimited (some n) rs = elim (Bool-cases (ltb n (length rs))) [
    | inl over ↦
        let (kept, e, t) = safe_truncate_receipts-IsTruncation u.sort laws.is_sort rs n in
        (kept, rw over e, t)
    | inr fits ↦ (rs, rw fits, inl (refl, ltb→le _ _ fits))
  ]

  -- Retrieving a range never fails and never panics and changes nothing. It finds the stored
  -- receipts of the range, in some order; with a limit that they exceed it finds exactly those
  -- before some timestamp, at most as many as the limit, while with those of that timestamp they
  -- would be more.
  pub retrieve_receipts_in_timestamp_range_lem :
      (range : Range) (limit : Option ℕ) (s : InMemoryContext)
      → (candidates found : List Stored) × Perm candidates (within range (stored s))
        × IsLimited candidates limit found
        × (retrieve_receipts_in_timestamp_range u range limit s ≡ (done (ok found), s))
  unfolding retrieve_receipts_in_timestamp_range
  retrieve_receipts_in_timestamp_range_lem range limit s =
      let candidates = receipts_in_range u range s.receipt_storage in
      let (found, e, t) = limited-IsLimited limit candidates in
      (candidates, found, receipts_in_range-perm range s, t, rw e)

-- Removing a range never fails, leaves exactly the receipts outside the range in storage, in
-- their order, and changes nothing else.
pub remove_receipts_in_timestamp_range_lem :
    (range : Range) (s : InMemoryContext)
    → (s' : InMemoryContext) × (remove_receipts_in_timestamp_range range s ≡ (done (ok tt), s'))
      × (stored s' ≡ retain (λ r. not (in_range range (timestamp r))) (stored s))
      × (s' ≡ record s { receipt_storage = s'.receipt_storage })
unfolding remove_receipts_in_timestamp_range
remove_receipts_in_timestamp_range_lem range s = (
  (remove_receipts_in_timestamp_range range s).1,
  refl,
  map-retain (λ r. not (in_range range (timestamp r))) s.receipt_storage,
  refl,
)
