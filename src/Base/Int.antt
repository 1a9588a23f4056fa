-- ===== src/Base/Int.antt =====
-- The fixed-width signed integers that the program only compares and passes on.
use Prim.Native.Nat.{ℕ}
use mathlib.Core.Bool.{Bool, true}
use dmlpact.Base.Tests.{ltb}

-- `negsuc n` is -(n + 1).
pub data ℤ : Type 0 where
  pos : ℕ → ℤ
  negsuc : ℕ → ℤ

-- `z < k` for a constant `k` that is not negative.
abbrev pub ltb_ℤ : ℤ → ℕ → Bool
ltb_ℤ (pos n) k = ltb n k
ltb_ℤ (negsuc n) k = true
