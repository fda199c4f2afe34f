-- ===== src/Tprm/RiskScore/Rounding.antt =====
-- Python's `round` of a quotient, in src/orchestra_tprm/agents/risk_score.py, by inequalities of
-- products.
use multi_agent_orchestratio.Base.{
  ℕ, suc, ◌+◌, ◌*◌, ◌≤◌, ◌<◌, ◌≡◌, arith, ltb, eqb, if◌then◌else◌, ◌↔◌,
}
use Prim.Native.Nat.{◌/◌, ◌%◌}
use native.Mathlib.Nat.{mod-add-div', mod-lt}
use multi_agent_orchestratio.Base.Numbers.{mul_mono_left, mul_suc_left}
use multi_agent_orchestratio.Tprm.RiskScore.{round_quotient}

-- The quotient is rounded to at most M, a half being rounded to the even neighbour.
abbrev pub RoundsBelow : ℕ → ℕ → ℕ → Type 0
RoundsBelow M a b = 2 * a + M % 2 ≤ 2 * (M * b) + b

-- The quotient is rounded to at least m.
abbrev pub RoundsAbove : ℕ → ℕ → ℕ → Type 0
RoundsAbove m a b = 2 * (m * b) + m % 2 ≤ 2 * a + b

abbrev rounded : ℕ → ℕ → ℕ → ℕ
rounded q r b =
    if ltb (2 * r) b then q else if ltb b (2 * r) then q + 1 else if eqb (q % 2) 0 then q else q + 1

below_of_le : (M q r b : ℕ) → r < b → rounded q r b ≤ M → RoundsBelow M (r + q * b) b
below_of_le M q r b small le =
    ground (arith, mul_mono_left q M b, mul_mono_left (suc q) M b, mul_suc_left q b)

le_of_below : (M q r b : ℕ) → r < b → RoundsBelow M (r + q * b) b → rounded q r b ≤ M
le_of_below M q r b small below =
    ground (arith, mul_mono_left (suc M) q b, mul_mono_left M q b, mul_suc_left M b)

above_of_le : (m q r b : ℕ) → r < b → m ≤ rounded q r b → RoundsAbove m (r + q * b) b
above_of_le m q r b small le =
    ground (arith, mul_mono_left m (suc q) b, mul_mono_left m q b, mul_suc_left q b)

le_of_above : (m q r b : ℕ) → r < b → RoundsAbove m (r + q * b) b → m ≤ rounded q r b
le_of_above m q r b small above = ground (
  arith,
  mul_mono_left (suc q) m b,
  mul_mono_left (suc (suc q)) m b,
  mul_suc_left q b,
  mul_suc_left (suc q) b,
)

pub round_below : (M a b : ℕ) → 0 < b → (round_quotient a b ≤ M) ↔ RoundsBelow M a b
unfolding round_quotient
round_below M a b b_pos =
    let whole = mod-add-div' a b in
    let small = mod-lt a b_pos in
    (
      λ le. omega (arith, below_of_le M (a / b) (a % b) b small le),
      λ below. le_of_below M (a / b) (a % b) b small (omega arith),
    )

pub round_above : (m a b : ℕ) → 0 < b → (m ≤ round_quotient a b) ↔ RoundsAbove m a b
unfolding round_quotient
round_above m a b b_pos =
    let whole = mod-add-div' a b in
    let small = mod-lt a b_pos in
    (
      λ le. omega (arith, above_of_le m (a / b) (a % b) b small le),
      λ above. le_of_above m (a / b) (a % b) b small (omega arith),
    )

pub below_sums :
    (M w n v m c : ℕ)
    → RoundsBelow M (100 * w) (n * c)
    → RoundsBelow M (100 * v) (m * c)
    → RoundsBelow M (100 * (w + v)) ((n + m) * c)
below_sums M w n v m c h k =
    let e : (n + m) * c ≡ n * c + m * c = grind arith in
    let d : M * (n * c + m * c) ≡ M * (n * c) + M * (m * c) = grind arith in rw e (omega arith)

pub above_sums :
    (M w n v m c : ℕ)
    → RoundsAbove M (100 * w) (n * c)
    → RoundsAbove M (100 * v) (m * c)
    → RoundsAbove M (100 * (w + v)) ((n + m) * c)
above_sums M w n v m c h k =
    let e : (n + m) * c ≡ n * c + m * c = grind arith in
    let d : M * (n * c + m * c) ≡ M * (n * c) + M * (m * c) = grind arith in rw e (omega arith)
