-- ===== src/Base/Words.antt =====
-- Unsigned machine words as natural numbers, with the wrap-around written out.
use Prim.Native.Nat.{ℕ, ◌+◌, ◌-◌, ◌%◌, ◌^◌, ◌<◌}
use mathlib.Core.Option.{Option, none, some}
use timeline_aggregation_pro.Base.Tests.{ltb, leb, if◌then◌else◌}

abbrev pub u64_mod : ℕ
u64_mod = 2 ^ 64

abbrev pub u128_mod : ℕ
u128_mod = 2 ^ 128

abbrev pub IsU64 : ℕ → Type 0
IsU64 n = n < u64_mod

abbrev pub IsU128 : ℕ → Type 0
IsU128 n = n < u128_mod

-- `u128::checked_add`
abbrev pub checked_add_u128 : ℕ → ℕ → Option ℕ
checked_add_u128 a b = if ltb (a + b) u128_mod then some (a + b) else none

-- `u128::checked_sub`
abbrev pub checked_sub_u128 : ℕ → ℕ → Option ℕ
checked_sub_u128 a b = if leb b a then some (a - b) else none

-- A build either checks the arithmetic of `+` and `-` for overflow, and panics, or wraps around.
pub data Profile : Type 0 where
  checked wrapping : Profile

-- What the profile makes of a result that does not fit; `none` is a panic.
abbrev pub overflowed : Profile → ℕ → Option ℕ
overflowed checked n = none
overflowed wrapping n = some n

-- `a + b` and `a - b` on u64.
abbrev pub add_u64 : Profile → ℕ → ℕ → Option ℕ
add_u64 p a b = if ltb (a + b) u64_mod then some (a + b) else overflowed p ((a + b) % u64_mod)

abbrev pub sub_u64 : Profile → ℕ → ℕ → Option ℕ
sub_u64 p a b = if leb b a then some (a - b) else overflowed p (a + u64_mod - b)

-- `a + b` on u128.
abbrev pub add_u128 : Profile → ℕ → ℕ → Option ℕ
add_u128 p a b = if ltb (a + b) u128_mod then some (a + b) else overflowed p ((a + b) % u128_mod)
