-- ===== src/Core/Memory/Prefix.antt =====
-- With or without a limit, a retrieval finds the first part of its range.
use mathlib.Core.List.{Perm}
use mathlib.Core.List.Perm
use timeline_aggregation_pro.Base.{
  ℕ, ◌≤◌, ◌≡◌, refl, ◌&&◌, Bool, Option, none, some, ok, List, [], ◌∷◌, arith, ltb, retain,
  retain-perm, Bool-cases, ltb→lt, ltb→le, inl, inr,
}
use timeline_aggregation_pro.Core.Action.{done}
use timeline_aggregation_pro.Core.Adapters.{half_open}
use timeline_aggregation_pro.Core.Truncate.Cut.{before}
use timeline_aggregation_pro.Core.Memory.{
  Stored, InMemoryContext, Unordered, UnorderedLaws, retrieve_receipts_in_timestamp_range,
}
use timeline_aggregation_pro.Core.Memory.Retrieve.{
  stored, within, IsLimited, retrieve_receipts_in_timestamp_range_lem,
}

-- Two filters, one after the other.
pub retain-retain {ℓ} :
    {A : Type ℓ} (p q r : A → Bool)
    → ((x : A) → (p x && q x) ≡ r x)
    → (xs : List A) → retain p (retain q xs) ≡ retain r xs
retain-retain p q r h [] = refl
retain-retain p q r h (x ∷ xs) = ground (arith, h x, retain-retain p q r h xs)

-- The receipts of a range before a cut.
before-within :
    (cut min max : ℕ) (rs : List Stored)
    → (bound : ℕ) × (bound ≤ max)
      × (before cut (within (half_open min max) rs) ≡ within (half_open min bound) rs)
before-within cut min max rs = elim (Bool-cases (ltb cut max)) [
  | inl early ↦ (
    cut,
    omega (arith, ltb→lt cut max early),
    retain-retain _ _ _ (λ r. ground (arith, ltb→lt cut max early)) rs,
  )
  | inr late ↦ (max, omega arith, retain-retain _ _ _ (λ r. ground (arith, ltb→le cut max late)) rs)
]

IsLimited-within :
    (min max : ℕ) (rs candidates : List Stored) (limit : Option ℕ) (found : List Stored)
    → Perm candidates (within (half_open min max) rs)
    → IsLimited candidates limit found
    → (bound : ℕ) × (bound ≤ max) × Perm found (within (half_open min bound) rs)
IsLimited-within min max rs candidates none found p h = (max, omega arith, rw h p)
IsLimited-within min max rs candidates (some limit) found p (inl h) = (max, omega arith, rw h.0 p)
IsLimited-within min max rs candidates (some limit) found p (inr (cut, perm, _, _)) =
    let (bound, le, e) = before-within cut min max rs in
    (bound, le, rw e at (Perm.trans perm (retain-perm _ p)))

-- A retrieval of a range finds, in some order, all stored receipts from the start of the range to
-- a bound that is the end of the range or before it.
pub retrieve_receipts_in_timestamp_range-prefix :
    (u : Unordered) (laws : UnorderedLaws u) (min max : ℕ) (limit : Option ℕ) (s : InMemoryContext)
    → (bound : ℕ) × (found : List Stored) × (bound ≤ max)
      × Perm found (within (half_open min bound) (stored s))
      × (retrieve_receipts_in_timestamp_range u (half_open min max) limit s ≡ (done (ok found), s))
retrieve_receipts_in_timestamp_range-prefix u laws min max limit s =
    let (candidates, found, p, t, e) =
      retrieve_receipts_in_timestamp_range_lem u laws (half_open min max) limit s in
    let (bound, le, q) = IsLimited-within min max (stored s) candidates limit found p t in
    (bound, found, le, q, e)
