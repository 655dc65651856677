-- ===== src/Prelude/Ints.antt =====
-- Signed integers over the native numbers, under the library's names, whose ℤ stands on another ℕ.
use Prim.Native.Nat.{ℕ}

-- `negsuc n` is -(n + 1).
pub data ℤ : Type 0 where
  pos : ℕ → ℤ
  negsuc : ℕ → ℤ
