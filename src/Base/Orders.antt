-- ===== src/Base/Orders.antt =====
-- What else a permutation keeps: that no number occurs twice, and predicates that are decided.
use Prim.Native.Nat.{ℕ}
use mathlib.Core.Path.{◌≡◌, refl, ◌∙◌}
use mathlib.Core.Logic.{∥∥₁_elim}
use mathlib.Core.Bool.{Bool, true, Bool-set}
use mathlib.Core.List.{List, [], ◌∷◌, Perm, Permᴰ}
use mathlib.Core.HLevel.{×_prop, Unit-prop}
use native.Mathlib.Omega.{arith}
use timeline_aggregation_pro.Base.Lists.{All, All-map, retain}
use timeline_aggregation_pro.Base.Tests.{Bool-cases}
use mathlib.Core.Logic.{inl, inr}
use timeline_aggregation_pro.Base.Perms.{All-perm}
use timeline_aggregation_pro.Base.Sets.{contains, Distinct}

contains-permᴰ : (k : ℕ) {xs ys : List ℕ} → Permᴰ xs ys → contains xs k ≡ contains ys k
contains-permᴰ k Permᴰ.nil = refl
contains-permᴰ k (Permᴰ.cons e p) = rw (e, contains-permᴰ k p)
contains-permᴰ k (Permᴰ.swap e d) = rw (e, d) (ground arith)
contains-permᴰ k (Permᴰ.trans p q) = contains-permᴰ k p ∙ contains-permᴰ k q

Distinct-prop : (xs : List ℕ) → IsProp (Distinct xs)
Distinct-prop [] = Unit-prop
Distinct-prop (x ∷ xs) = ×_prop (Bool-set _ _) (Distinct-prop xs)

Distinct-swap : (x y : ℕ) (l : List ℕ) → Distinct (y ∷ x ∷ l) → Distinct (x ∷ y ∷ l)
Distinct-swap x y l (h₀, (h₁, h₂)) = (ground arith, (ground arith, h₂))

Distinct-permᴰ : {xs ys : List ℕ} → Permᴰ xs ys → Distinct xs → Distinct ys
Distinct-permᴰ Permᴰ.nil h = tt
Distinct-permᴰ (Permᴰ.cons {b = b} e p) h =
    (ground (arith, e, h.0, contains-permᴰ b p), Distinct-permᴰ p h.1)
Distinct-permᴰ (Permᴰ.swap {a' = x} {b' = y} {l = l} e d) h = Distinct-swap x y l (rw (e, d) at h)
Distinct-permᴰ (Permᴰ.trans p q) h = Distinct-permᴰ q (Distinct-permᴰ p h)

pub Distinct-perm : {xs ys : List ℕ} → Perm xs ys → Distinct xs → Distinct ys
Distinct-perm {ys = ys} p h = ∥∥₁_elim p (Distinct-prop ys) (λ d. Distinct-permᴰ d h)

pub contains-perm : (k : ℕ) {xs ys : List ℕ} → Perm xs ys → contains xs k ≡ contains ys k
contains-perm k p = ∥∥₁_elim p (Bool-set _ _) (λ d. contains-permᴰ k d)

-- A predicate that a test decides.
pub All-perm_of_test {ℓ κ} :
    {A : Type ℓ} (P : A → Type κ) (t : A → Bool)
    → ((a : A) → t a ≡ true → P a)
    → ((a : A) → P a → t a ≡ true)
    → {xs ys : List A} → Perm xs ys
    → All P xs
    → All P ys
All-perm_of_test P t to from {xs} {ys} p h =
    All-map (λ a. t a ≡ true) P to ys
      (All-perm (λ a. t a ≡ true) (λ a. Bool-set _ _) p (All-map P (λ a. t a ≡ true) from xs h))

pub All-kept {ℓ κ} :
    {A : Type ℓ} (P : A → Type κ) (p : A → Bool) (xs : List A) → All P xs → All P (retain p xs)
All-kept P p [] h = tt
All-kept P p (x ∷ xs) h = elim (Bool-cases (p x)) [
  | inl kept ↦ rw kept (h.0, All-kept P p xs h.1)
  | inr left_out ↦ rw left_out (All-kept P p xs h.1)
]
