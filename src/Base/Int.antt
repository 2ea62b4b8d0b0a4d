-- ===== src/Base/Int.antt =====
-- Python's integers: the library's ℤ over the native numbers, for arguments that may be negative.
use Prim.Native.Nat.{ℕ}

-- `negsuc n` is -(n + 1).
pub data ℤ : Type 0 where
  pos : ℕ → ℤ
  negsuc : ℕ → ℤ
