-- ===== src/Base/Sets.antt =====
-- `std::collections::HashSet` of numbers: membership, and `insert` with its answer.
use Prim.Native.Nat.{ℕ}
use mathlib.Core.Path.{◌≡◌}
use mathlib.Core.Bool.{Bool, true, false, ◌||◌}
use mathlib.Core.List.{List, [], ◌∷◌}
use timeline_aggregation_pro.Base.Tests.{◌==◌, if◌then◌else◌}

abbrev pub HashSet : Type 0
HashSet = List ℕ

abbrev pub contains : HashSet → ℕ → Bool
contains [] a = false
contains (x ∷ xs) a = x == a || contains xs a

-- The set with the member, and whether it is new.
abbrev pub insert : HashSet → ℕ → HashSet × Bool
insert xs a = if contains xs a then (xs, false) else (a ∷ xs, true)

-- No number occurs twice.
abbrev pub Distinct : List ℕ → Type 0
Distinct [] = Unit
Distinct (x ∷ xs) = (contains xs x ≡ false) × Distinct xs
