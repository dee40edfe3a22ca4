-- ===== src/Base/Sublists.antt =====
-- A list with some members left out, and what it keeps of the whole list.
use Prim.Native.Nat.{ℕ}
use mathlib.Core.Path.{◌≡◌, refl}
use mathlib.Core.Bool.{false}
use mathlib.Core.List.{List, [], ◌∷◌, map}
use native.Mathlib.Omega.{arith}
use timeline_aggregation_pro.Base.Lists.{All}
use timeline_aggregation_pro.Base.Sets.{contains, Distinct}

pub data Part {ℓ} {A : Type ℓ} : List A → List A → Type ℓ where
  stop : Part [] []
  skip : (x : A) {xs ys : List A} → Part xs ys → Part xs (x ∷ ys)
  keep : (x : A) {xs ys : List A} → Part xs ys → Part (x ∷ xs) (x ∷ ys)

module _ {ℓ} {A : Type ℓ} where
  -- The inner part comes last, since it changes in the recursion on the outer one.
  pub Part-trans : {ys zs : List A} → Part ys zs → {xs : List A} → Part xs ys → Part xs zs
  Part-trans (Part.skip z q) p = Part.skip z (Part-trans q p)
  Part-trans Part.stop p = p
  Part-trans (Part.keep z q) (Part.skip y p) = Part.skip z (Part-trans q p)
  Part-trans (Part.keep z q) (Part.keep y p) = Part.keep z (Part-trans q p)

  pub All-Part {κ} : (P : A → Type κ) {xs ys : List A} → Part xs ys → All P ys → All P xs
  All-Part P Part.stop h = tt
  All-Part P (Part.skip x p) h = All-Part P p h.1
  All-Part P (Part.keep x p) h = (h.0, All-Part P p h.1)

  contains-Part :
      (f : A → ℕ) (n : ℕ) {xs ys : List A}
      → Part xs ys
      → contains (map f ys) n ≡ false
      → contains (map f xs) n ≡ false
  contains-Part f n Part.stop h = refl
  contains-Part f n (Part.skip x p) h = ground (arith, contains-Part f n p)
  contains-Part f n (Part.keep x p) h = ground (arith, contains-Part f n p)

  pub Distinct-Part :
      (f : A → ℕ) {xs ys : List A} → Part xs ys → Distinct (map f ys) → Distinct (map f xs)
  Distinct-Part f Part.stop h = tt
  Distinct-Part f (Part.skip x p) h = Distinct-Part f p h.1
  Distinct-Part f (Part.keep x p) h = (contains-Part f (f x) p h.0, Distinct-Part f p h.1)
