-- ===== src/Prelude/Ints.antt =====
-- The integers of `i32` and `i64`, which the modelled code stores and passes on.
use Prim.Native.Nat.{ℕ}

pub data ℤ : Type 0 where
  pos : ℕ → ℤ
  negsuc : ℕ → ℤ
