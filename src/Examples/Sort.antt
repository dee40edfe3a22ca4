-- ===== src/Examples/Sort.antt =====
-- An insertion sort by timestamp.
use mathlib.Core.List.{Perm}
use mathlib.Core.List.Perm
use timeline_aggregation_pro.Base.{
  ℕ, ◌≤◌, leb, leb→le, leb→lt, if◌then◌else◌, Bool-cases, inl, inr, List, [], ◌∷◌, arith, All,
  All-map,
}
use timeline_aggregation_pro.Core.Receipt.{ReceiptWithState, timestamp}
use timeline_aggregation_pro.Core.Truncate.{IsSorted, IsSort}

module _ {T : Type 0} where
  place : ReceiptWithState T → List (ReceiptWithState T) → List (ReceiptWithState T)
  place r [] = r ∷ []
  place r (x ∷ xs) =
      let rest = place r xs in if leb (timestamp r) (timestamp x) then r ∷ x ∷ xs else x ∷ rest

  place-perm :
      (r : ReceiptWithState T) (xs : List (ReceiptWithState T)) → Perm (place r xs) (r ∷ xs)
  unfolding place
  place-perm r [] = Perm.rfl
  place-perm r (x ∷ xs) = elim (Bool-cases (leb (timestamp r) (timestamp x))) [
    | inl h ↦ rw h Perm.rfl
    | inr h ↦ rw h (Perm.trans (Perm.cons x (place-perm r xs)) (Perm.swap r x xs))
  ]

  place-All :
      (t : ℕ) (r : ReceiptWithState T) (xs : List (ReceiptWithState T))
      → t ≤ timestamp r
      → All (λ x. t ≤ timestamp x) xs
      → All (λ x. t ≤ timestamp x) (place r xs)
  unfolding place
  place-All t r [] h k = (h, tt)
  place-All t r (x ∷ xs) h k = elim (Bool-cases (leb (timestamp r) (timestamp x))) [
    | inl e ↦ rw e (h, (k.0, k.1))
    | inr e ↦ rw e (k.0, place-All t r xs h k.1)
  ]

  place-IsSorted :
      (r : ReceiptWithState T) (xs : List (ReceiptWithState T))
      → IsSorted xs
      → IsSorted (place r xs)
  unfolding place
  place-IsSorted r [] s = (tt, tt)
  place-IsSorted r (x ∷ xs) s = elim (Bool-cases (leb (timestamp r) (timestamp x))) [
    | inl e ↦
        let le = leb→le _ _ e in rw e (((le, All-map _ _ (λ y h. omega (arith, h, le)) xs s.0), s))
    | inr e ↦
        let lt = leb→lt _ _ e in
        rw e (place-All (timestamp x) r xs (omega (arith, lt)) s.0, place-IsSorted r xs s.1)
  ]

  unfoldable pub sort : List (ReceiptWithState T) → List (ReceiptWithState T)
  unfolding place
  sort [] = []
  sort (r ∷ rs) = place r (sort rs)

  sort-perm : (rs : List (ReceiptWithState T)) → Perm (sort rs) rs
  unfolding sort
  sort-perm [] = Perm.rfl
  sort-perm (r ∷ rs) = Perm.trans (place-perm r (sort rs)) (Perm.cons r (sort-perm rs))

  sort-IsSorted : (rs : List (ReceiptWithState T)) → IsSorted (sort rs)
  unfolding sort
  sort-IsSorted [] = tt
  sort-IsSorted (r ∷ rs) = place-IsSorted r (sort rs) (sort-IsSorted rs)

  pub sort-IsSort : IsSort sort
  sort-IsSort = record { perm = sort-perm; sorted = sort-IsSorted }
