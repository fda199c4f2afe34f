-- ===== src/Base/Numbers.antt =====
-- Products of the native numbers, for the linear tactics.
use Prim.Native.Nat.{ℕ, suc, ◌+◌, ◌*◌, ◌≤◌}
use mathlib.Core.Path.{◌≡◌}
use native.Mathlib.Omega.{arith}

pub mul_suc_left : (n k : ℕ) → suc n * k ≡ k + n * k
mul_suc_left n k = grind arith

pub mul_mono_left : (m n k : ℕ) → m ≤ n → m * k ≤ n * k
mul_mono_left m n k h = grind arith
