-- ===== src/Base/Maps.antt =====
-- `std::collections::HashMap` with numbers as keys, as an association list. The order of the list
-- means nothing: a program that iterates over a map goes through a rearrangement of it.
use Prim.Native.Nat.{ℕ, ◌+◌}
use mathlib.Core.Path.{◌≡◌, refl}
use mathlib.Core.Option.{Option, none, some}
use mathlib.Core.List.{List, [], ◌∷◌, ◌++◌}
use native.Mathlib.Omega.{arith}
use timeline_aggregation_pro.Base.Tests.{◌==◌, if◌then◌else◌}

abbrev pub HashMap {ℓ} : Type ℓ → Type ℓ
HashMap V = List (ℕ × V)

module _ {ℓ} {V : Type ℓ} where
  abbrev pub lookup : ℕ → HashMap V → Option V
  lookup k [] = none
  lookup k ((j, v) ∷ m) = if j == k then some v else lookup k m

  -- `HashMap::insert`, which replaces the value of a key that is there.
  abbrev pub put : ℕ → V → HashMap V → HashMap V
  put k v [] = (k, v) ∷ []
  put k v ((j, w) ∷ m) = if j == k then (j, v) ∷ m else (j, w) ∷ put k v m

  -- `HashMap::remove`, for the map that is left
  abbrev pub remove : ℕ → HashMap V → HashMap V
  remove k [] = []
  remove k ((j, w) ∷ m) = if j == k then m else (j, w) ∷ remove k m

  pub lookup-put :
      (k j : ℕ) (v : V) (m : HashMap V)
      → lookup j (put k v m) ≡ (if k == j then some v else lookup j m)
  lookup-put k j v [] = refl
  lookup-put k j v ((i, w) ∷ m) = ground (arith, lookup-put k j v m)

  pub put-fresh : (k : ℕ) (v : V) (m : HashMap V) → lookup k m ≡ none → put k v m ≡ m ++ (k, v) ∷ []
  put-fresh k v [] h = refl
  put-fresh k v ((i, w) ∷ m) h = ground (arith, put-fresh k v m)

-- The sum of the values of a map of amounts.
abbrev pub sum_values : HashMap ℕ → ℕ
sum_values [] = 0
sum_values ((k, v) ∷ m) = v + sum_values m

pub sum_values-put :
    (k v : ℕ) {old : ℕ} (m : HashMap ℕ)
    → lookup k m ≡ some old
    → sum_values (put k v m) + old ≡ sum_values m + v
sum_values-put k v [] h = cc
sum_values-put k v {old} ((i, w) ∷ m) h = ground (arith, sum_values-put k v {old = old} m)

-- A new key adds its amount.
pub sum_values-put_fresh :
    (k v : ℕ) (m : HashMap ℕ) → lookup k m ≡ none → sum_values (put k v m) ≡ sum_values m + v
sum_values-put_fresh k v [] h = omega arith
sum_values-put_fresh k v ((i, w) ∷ m) h = ground (arith, sum_values-put_fresh k v m)
