-- ===== src/Base/Numbers.antt =====
-- Python's `int`, where the source takes one of either sign.
use Prim.Native.Nat.{ℕ}

pub data ℤ : Type 0 where
  pos : ℕ → ℤ
  negsuc : ℕ → ℤ
