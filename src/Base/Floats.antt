-- ===== src/Base/Floats.antt =====
-- Python's floats without NaN, as far as the modelled code uses them: a client takes them as a
-- parameter.
use Prim.Native.Nat.{ℕ}
use mathlib.Core.Bool.{Bool}

pub record Floats : Type 1 where
  pub F : Type 0
  pub zero : F
  pub add : F → F → F
  -- `n * x` for an `int` n.
  pub times : ℕ → F → F
  -- `x >= y`.
  pub geq : F → F → Bool
  pub mul : F → F → F
  -- `a / b` for two `int`s; a literal is such a quotient.
  pub ratio : ℕ → ℕ → F
