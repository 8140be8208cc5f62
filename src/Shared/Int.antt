-- ===== src/Shared/Int.antt =====
-- Signed numbers, over the native ones, under the library's names; `negsuc n` is -(n + 1).
use Prim.Native.Nat.{ℕ}

pub data ℤ : Type 0 where
  pos : ℕ → ℤ
  negsuc : ℕ → ℤ
