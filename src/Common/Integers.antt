-- ===== src/Common/Integers.antt =====
-- Integers over the native numbers, under the library's names.
use Prim.Native.Nat.{ℕ}

-- `pos n` is n, and `negsuc n` is -(n + 1).
pub data ℤ : Type 0 where
  pos negsuc : ℕ → ℤ
