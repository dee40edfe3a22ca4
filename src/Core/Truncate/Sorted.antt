-- ===== src/Core/Truncate/Sorted.antt =====
-- A list in ascending order of timestamps, cut at an index.
use timeline_aggregation_pro.Base.{
  ℕ, zero, suc, ◌≤◌, ◌<◌, ◌≡◌, refl, Bool, true, false, some, List, [], ◌∷◌, ◌++◌, arith, length,
  get_elem?, take, drop, retain, All, subst,
}
use timeline_aggregation_pro.Core.Receipt.{ReceiptWithState, timestamp}
use timeline_aggregation_pro.Core.Truncate.{IsSorted}

pub retain-append {ℓ} :
    {A : Type ℓ} (p : A → Bool) (xs ys : List A) → retain p (xs ++ ys) ≡ retain p xs ++ retain p ys
retain-append p [] ys = refl
retain-append p (x ∷ xs) ys = ground (arith, retain-append p xs ys)

pub retain-All {ℓ} :
    {A : Type ℓ} (p : A → Bool) (xs : List A) → All (λ x. p x ≡ true) xs → retain p xs ≡ xs
retain-All p [] h = refl
retain-All p (x ∷ xs) h = ground (arith, retain-All p xs h.1)

pub retain-none {ℓ} :
    {A : Type ℓ} (p : A → Bool) (xs : List A) → All (λ x. p x ≡ false) xs → retain p xs ≡ []
retain-none p [] h = refl
retain-none p (x ∷ xs) h = ground (arith, retain-none p xs h.1)

-- Two tests that agree on every member keep the same members.
pub retain-congr {ℓ} :
    {A : Type ℓ} (p q : A → Bool) (xs : List A)
    → All (λ x. p x ≡ q x) xs
    → retain p xs ≡ retain q xs
retain-congr p q [] h = refl
retain-congr p q (x ∷ xs) h = ground (arith, retain-congr p q xs h.1)

pub get_elem?-of_lt {ℓ} :
    {A : Type ℓ} (xs : List A) (n : ℕ) → n < length xs → (x : A) × (get_elem? xs n ≡ some x)
get_elem?-of_lt [] n h = elim h [ ]
get_elem?-of_lt (x ∷ xs) zero h = (x, refl)
get_elem?-of_lt (x ∷ xs) (suc n) h = get_elem?-of_lt xs n (omega arith)

pub length-take_of_lt {ℓ} :
    {A : Type ℓ} (xs : List A) (n : ℕ) → n ≤ length xs → length (take n xs) ≡ n
length-take_of_lt xs zero h = refl
length-take_of_lt [] (suc n) h = absurd (omega arith)
length-take_of_lt (x ∷ xs) (suc n) h = omega (arith, length-take_of_lt xs n (omega arith))

module _ {T : Type 0} where
  timestamp_le_member :
      (a : ℕ) (xs : List (ReceiptWithState T)) (n : ℕ) {r : ReceiptWithState T}
      → All (λ x. a ≤ timestamp x) xs
      → get_elem? xs n ≡ some r
      → a ≤ timestamp r
  timestamp_le_member a [] n h e = cc
  timestamp_le_member a (x ∷ xs) zero h e = ground arith
  timestamp_le_member a (x ∷ xs) (suc n) h e = timestamp_le_member a xs n h.1 e

  -- In ascending order, the members up to an index are not later than the member there.
  pub take-le :
      (xs : List (ReceiptWithState T)) (n : ℕ) {r : ReceiptWithState T}
      → IsSorted xs
      → get_elem? xs n ≡ some r
      → All (λ x. timestamp x ≤ timestamp r) (take (suc n) xs)
  take-le [] n s e = cc
  take-le (x ∷ xs) zero s e = ground arith
  take-le (x ∷ xs) (suc n) s e = (timestamp_le_member (timestamp x) xs n s.0 e, take-le xs n s.1 e)

  -- The members from an index on are not earlier than the member there.
  pub drop-ge :
      (xs : List (ReceiptWithState T)) (n : ℕ) {r : ReceiptWithState T}
      → IsSorted xs
      → get_elem? xs n ≡ some r
      → All (λ x. timestamp r ≤ timestamp x) (drop n xs)
  drop-ge [] n s e = cc
  drop-ge (x ∷ xs) zero {r} s e =
      let same : x ≡ r = cc in
      subst (λ y. All (λ z. timestamp y ≤ timestamp z) (x ∷ xs)) same (omega arith, s.0)
  drop-ge (x ∷ xs) (suc n) s e = drop-ge xs n s.1 e

  -- Neighbours ascend.
  pub neighbours-le :
      (xs : List (ReceiptWithState T)) (n : ℕ) {l r : ReceiptWithState T}
      → IsSorted xs
      → get_elem? xs n ≡ some l
      → get_elem? xs (suc n) ≡ some r
      → timestamp l ≤ timestamp r
  neighbours-le [] n s e f = cc
  neighbours-le (x ∷ xs) zero {l} {r} s e f =
      let same : x ≡ l = cc in
      subst (λ y. timestamp y ≤ timestamp r) same (timestamp_le_member (timestamp x) xs 0 s.0 f)
  neighbours-le (x ∷ xs) (suc n) s e f = neighbours-le xs n s.1 e f
