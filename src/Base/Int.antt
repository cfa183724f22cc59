-- ===== src/Base/Int.antt =====
-- Go's `int`, where the code only keeps, tests for 0 and prints it.
use Prim.Native.Nat.{ℕ}

-- `negsuc n` is -(n + 1).
pub data ℤ : Type 0 where
  pos : ℕ → ℤ
  negsuc : ℕ → ℤ
