-- ===== src/Base/Perms.antt =====
-- What a permutation keeps: sums, lengths, predicates on all members, filtering.
use Prim.Native.Nat.{ℕ}
use mathlib.Core.Path.{◌≡◌, refl, ◌∙◌, subst}
use mathlib.Core.Logic.{∥∥₁_elim}
use mathlib.Core.Bool.{Bool, true, false}
use mathlib.Core.List.{List, [], ◌∷◌, Perm, Permᴰ, Perm-prop}
use mathlib.Core.List.Perm
use mathlib.Core.HLevel.{×_prop, Unit-prop}
use native.Mathlib.Nat.{ℕ_set}
use native.Mathlib.Omega.{arith}
use timeline_aggregation_pro.Base.Tests.{if◌then◌else◌}
use timeline_aggregation_pro.Base.Lists.{length, sum_by, All, retain}

module _ {ℓ} {A : Type ℓ} where
  sum_by-permᴰ : (f : A → ℕ) {xs ys : List A} → Permᴰ xs ys → sum_by f xs ≡ sum_by f ys
  sum_by-permᴰ f Permᴰ.nil = refl
  sum_by-permᴰ f (Permᴰ.cons e p) = rw (e, sum_by-permᴰ f p)
  sum_by-permᴰ f (Permᴰ.swap e d) = rw (e, d) (omega arith)
  sum_by-permᴰ f (Permᴰ.trans p q) = sum_by-permᴰ f p ∙ sum_by-permᴰ f q

  pub sum_by-perm : (f : A → ℕ) {xs ys : List A} → Perm xs ys → sum_by f xs ≡ sum_by f ys
  sum_by-perm f p = ∥∥₁_elim p (ℕ_set _ _) (sum_by-permᴰ f)

  length-permᴰ : {xs ys : List A} → Permᴰ xs ys → length xs ≡ length ys
  length-permᴰ Permᴰ.nil = refl
  length-permᴰ (Permᴰ.cons e p) = omega (arith, length-permᴰ p)
  length-permᴰ (Permᴰ.swap e d) = refl
  length-permᴰ (Permᴰ.trans p q) = length-permᴰ p ∙ length-permᴰ q

  pub length-perm : {xs ys : List A} → Perm xs ys → length xs ≡ length ys
  length-perm p = ∥∥₁_elim p (ℕ_set _ _) length-permᴰ

  retain-permᴰ : (t : A → Bool) {xs ys : List A} → Permᴰ xs ys → Perm (retain t xs) (retain t ys)
  retain-permᴰ t Permᴰ.nil = Perm.rfl
  retain-permᴰ t (Permᴰ.cons {a = a} {b = b} {l₁ = l₁} {l₂ = l₂} e p) =
      rw e (step (t b) (retain-permᴰ t p))
    where
      step :
          (c : Bool)
          → Perm (retain t l₁) (retain t l₂)
          → Perm
              (if c then b ∷ retain t l₁ else retain t l₁)
              (if c then b ∷ retain t l₂ else retain t l₂)
      step true h = Perm.cons b h
      step false h = h
  retain-permᴰ t (Permᴰ.swap {a' = x} {b' = y} {l = l} e d) = rw (e, d) (step (t x) (t y))
    where
      step :
          (c d : Bool)
          → Perm
              (if d
                then y ∷ (if c then x ∷ retain t l else retain t l)
                else (if c then x ∷ retain t l else retain t l))
              (if c
                then x ∷ (if d then y ∷ retain t l else retain t l)
                else (if d then y ∷ retain t l else retain t l))
      step true true = Perm.swap x y (retain t l)
      step true false = Perm.rfl
      step false true = Perm.rfl
      step false false = Perm.rfl
  retain-permᴰ t (Permᴰ.trans p q) = Perm.trans (retain-permᴰ t p) (retain-permᴰ t q)

  pub retain-perm : (t : A → Bool) {xs ys : List A} → Perm xs ys → Perm (retain t xs) (retain t ys)
  retain-perm t p = ∥∥₁_elim p Perm-prop (retain-permᴰ t)

module _ {ℓ κ} {A : Type ℓ} (P : A → Type κ) (P-prop : (a : A) → IsProp (P a)) where
  All-prop : (xs : List A) → IsProp (All P xs)
  All-prop [] = Unit-prop
  All-prop (x ∷ xs) = ×_prop (P-prop x) (All-prop xs)

  All-permᴰ : {xs ys : List A} → Permᴰ xs ys → All P xs → All P ys
  All-permᴰ Permᴰ.nil h = tt
  All-permᴰ (Permᴰ.cons e p) h = (subst P e h.0, All-permᴰ p h.1)
  All-permᴰ (Permᴰ.swap e d) h = (subst P d h.1.0, (subst P e h.0, h.1.1))
  All-permᴰ (Permᴰ.trans p q) h = All-permᴰ q (All-permᴰ p h)

  pub All-perm : {xs ys : List A} → Perm xs ys → All P xs → All P ys
  All-perm {ys = ys} p h = ∥∥₁_elim p (All-prop ys) (λ d. All-permᴰ d h)
