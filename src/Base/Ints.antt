-- ===== src/Base/Ints.antt =====
-- Signed numbers, with the names and the constructors of the library's.
use Prim.Native.Nat.{ℕ}

-- `negsuc n` is the number -(n + 1).
pub data ℤ : Type 0 where
  pos : ℕ → ℤ
  negsuc : ℕ → ℤ
