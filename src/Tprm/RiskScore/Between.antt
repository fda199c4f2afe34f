-- ===== src/Tprm/RiskScore/Between.antt =====
-- The overall score of src/orchestra_tprm/agents/risk_score.py against those of the dimensions.
use multi_agent_orchestratio.Base.{
  ℕ, ◌+◌, ◌*◌, ◌≤◌, ◌<◌, false, List, [], ◌∷◌, String, ok, ◌≡◌, ap, ◌∙◌, sym, arith, bind-eq-ok,
  ok_inj, Bool-cases, inl, inr, leb, eqb, ◌++◌, ◌==◌, length, length-append, All, All-mono,
}
use Prim.Native.Nat.{min, max}
use mathlib.Core.Path.{subst}
use native.Mathlib.Nat.{add_assoc, add-zero}
use multi_agent_orchestratio.Base.Dict.{Dict, insert, lookup, get_or, get_or-cons}
use multi_agent_orchestratio.Base.Sorting.{sum_by}
use multi_agent_orchestratio.Tprm.Schemas.{Finding, weight_of}
use multi_agent_orchestratio.Tprm.RiskScore.Rounding.{
  RoundsBelow, RoundsAbove, round_below, round_above, below_sums, above_sums,
}
use multi_agent_orchestratio.Tprm.RiskScore.{
  RiskScoreAgent, round_quotient, by_dimension, score, score_groups, weighted, critical_weight,
  assess, RiskAssessment, dimensions,
}

-- A sum over all findings of all groups.
abbrev total : (List Finding → ℕ) → Dict (List Finding) → ℕ
total g [] = 0
total g ((key, items) ∷ groups) = g items + total g groups

total-insert :
    (g : List Finding → ℕ) (key : String) (items : List Finding) (groups : Dict (List Finding))
    → g [] ≡ 0
    → g (get_or key [] groups) + total g (insert key items groups) ≡ total g groups + g items
unfolding insert lookup
total-insert g key items [] nothing = omega arith
total-insert g key items ((j, old) ∷ groups) nothing = elim (Bool-cases (j == key)) [
  | inl same ↦ rw (get_or-cons key j [] old groups) (rw (same, insert) (omega arith))
  | inr other ↦
      rw (get_or-cons key j [] old groups)
        (rw (other, insert) (omega (arith, total-insert g key items groups nothing)))
]

module _ (g : List Finding → ℕ) (h : Finding → ℕ) (none_left : g [] ≡ 0)
    (one_more : (items : List Finding) (f : Finding) → g (items ++ f ∷ []) ≡ g items + h f) where
  total-by_dimension :
      (agent : RiskScoreAgent) (dimension : Finding → String) (findings : List Finding)
      (groups : Dict (List Finding))
      → total g (by_dimension agent dimension findings groups) ≡ total g groups + sum_by h findings
  unfolding by_dimension
  total-by_dimension agent dimension [] groups = omega arith
  total-by_dimension agent dimension (f ∷ findings) groups =
      let old = get_or (dimension f) [] groups in
      omega (
        arith,
        total-insert g (dimension f) (old ++ f ∷ []) groups none_left,
        one_more old f,
        total-by_dimension agent dimension findings
            (insert (dimension f) (get_or (dimension f) [] groups ++ f ∷ []) groups),
      )

-- Every group has a finding.
abbrev HasItems : String × List Finding → Type 0
HasItems (key, items) = 1 ≤ length items

insert-HasItems :
    (key : String) (items : List Finding) (groups : Dict (List Finding))
    → 1 ≤ length items
    → All HasItems groups
    → All HasItems (insert key items groups)
unfolding insert
insert-HasItems key items [] some_item filled = (some_item, tt)
insert-HasItems key items ((j, old) ∷ groups) some_item filled = elim (Bool-cases (j == key)) [
  | inl same ↦ rw same (some_item, filled.1)
  | inr other ↦ rw other (filled.0, insert-HasItems key items groups some_item filled.1)
]

sum-ones : (findings : List Finding) → sum_by (λ _. 1) findings ≡ length findings
sum-ones [] = omega arith
sum-ones (f ∷ findings) = omega (arith, sum-ones findings)

length-total-pos : (groups : Dict (List Finding)) → 1 ≤ total length groups → 1 ≤ length groups
length-total-pos [] filled = absurd (omega arith)
length-total-pos ((key, items) ∷ groups) filled = omega arith

eqb-zero-pos : (n : ℕ) → eqb n 0 ≡ false → 0 < n
eqb-zero-pos n h = ground arith

module _ (agent : RiskScoreAgent) where
  by_dimension-HasItems :
      (dimension : Finding → String) (findings : List Finding) (groups : Dict (List Finding))
      → All HasItems groups
      → All HasItems (by_dimension agent dimension findings groups)
  unfolding by_dimension
  by_dimension-HasItems dimension [] groups filled = filled
  by_dimension-HasItems dimension (f ∷ findings) groups filled =
      let old = get_or (dimension f) [] groups in
      let longer = length-append old (f ∷ []) in
      by_dimension-HasItems dimension findings _
        (insert-HasItems (dimension f) (old ++ f ∷ []) groups (omega arith) filled)

  -- What a score says of the weights and the number of its findings.
  score-eq-ok :
      (items : List Finding) {s : ℕ}
      → 1 ≤ length items
      → score agent items ≡ ok s
      → (0 < length items * critical_weight agent)
        × (s
            ≡ min 100 (
                round_quotient (100 * weighted agent items) (length items * critical_weight agent)))
  unfolding score
  score-eq-ok items filled scored =
      let n = length items in
      let some_item : max n 1 ≡ n = omega arith in
      elim (Bool-cases (eqb (n * critical_weight agent) 0)) [
        | inl none_left ↦ cc (rw (some_item, none_left, score) at scored)
        | inr pos ↦ (eqb-zero-pos _ pos, sym (ok_inj (rw (some_item, pos, score) at scored)))
      ]

  -- What holds of the weights and the number of findings of each group holds of their sums.
  module _ (P : ℕ → Type 0) (R : ℕ → ℕ → Type 0)
      (sums : (w n v m : ℕ) → R w n → R v m → R (w + v) (n + m))
      (each : (items : List Finding) (s : ℕ)
        → 1 ≤ length items
        → score agent items ≡ ok s
        → P s
        → R (weighted agent items) (length items)) where
    add_groups :
        (w n : ℕ) (groups : Dict (List Finding)) {scores : Dict ℕ}
        → All HasItems groups
        → score_groups agent groups ≡ ok scores
        → All (λ entry. P entry.1) scores
        → R w n
        → R (w + total (weighted agent) groups) (n + total length groups)
    unfolding score_groups
    add_groups w n [] filled scored good so_far = rw (add-zero w, add-zero n) so_far
    add_groups w n ((key, items) ∷ groups) {scores} filled scored good so_far =
        let (s, this, rest) = bind-eq-ok (score agent items) _ scored in
        let (others, that, made) = bind-eq-ok (score_groups agent groups) _ rest in
        let both = subst (All (λ entry. P entry.1)) (sym (ok_inj made)) good in
        let next = each items s filled.0 this both.0 in
        let v = add_assoc w (weighted agent items) (total (weighted agent) groups) in
        let m = add_assoc n (length items) (total length groups) in
        rw (← v, ← m)
          (add_groups (w + weighted agent items) (n + length items) groups filled.1 that both.1
            (sums w n (weighted agent items) (length items) so_far next))

    whole_of_groups :
        (groups : Dict (List Finding)) {scores : Dict ℕ}
        → 1 ≤ length groups
        → All HasItems groups
        → score_groups agent groups ≡ ok scores
        → All (λ entry. P entry.1) scores
        → R (total (weighted agent) groups) (total length groups)
    unfolding score_groups
    whole_of_groups [] none_less filled scored good = absurd (omega arith)
    whole_of_groups ((key, items) ∷ groups) some_group filled scored good =
        let (s, this, rest) = bind-eq-ok (score agent items) _ scored in
        let (others, that, made) = bind-eq-ok (score_groups agent groups) _ rest in
        let both = subst (All (λ entry. P entry.1)) (sym (ok_inj made)) good in
        add_groups (weighted agent items) (length items) groups filled.1 that both.1
          (each items s filled.0 this both.0)

  -- The sums over the groups are those over the findings.
  sum_by-append :
      (h : Finding → ℕ) (items : List Finding) (f : Finding)
      → sum_by h (items ++ f ∷ []) ≡ sum_by h items + h f
  sum_by-append h [] f = omega arith
  sum_by-append h (x ∷ items) f = omega (arith, sum_by-append h items f)

  module _ (dimension : Finding → String) (findings : List Finding) where
    abbrev groups_of : Dict (List Finding)
    groups_of = by_dimension agent dimension findings []

    total-weighted : total (weighted agent) groups_of ≡ weighted agent findings
    total-weighted =
        let all =
          total-by_dimension (weighted agent) (weight_of agent.weights) (omega arith)
            (sum_by-append (weight_of agent.weights)) agent dimension findings [] in
        omega arith

    total-length : total length groups_of ≡ length findings
    total-length =
        let ones =
          total-by_dimension length (λ _. 1) (omega arith) (λ items f. length-append items (f ∷ []))
            agent dimension findings [] in
        let same = sum-ones findings in omega arith

    some_group : 1 ≤ length findings → 1 ≤ length groups_of
    some_group filled = length-total-pos groups_of (omega (arith, total-length))

  module _ (dimension : Finding → String) (first_120 : String → String)
      (narrate : List Finding → Dict ℕ → String × List String) (f : Finding)
      (findings : List Finding) {result : RiskAssessment}
      (assessed : assess agent dimension first_120 narrate (f ∷ findings) ≡ ok result) where
    -- The overall score is that of all findings, and the scores are those of the groups.
    assess-parts :
        (score agent (f ∷ findings) ≡ ok result.overall)
        × (score_groups agent (groups_of dimension (f ∷ findings)) ≡ ok result.dimensions)
    unfolding assess dimensions
    assess-parts =
        let (overall, scored, rest) = bind-eq-ok (score agent (f ∷ findings)) _ assessed in
        let (scores, grouped, made) =
          bind-eq-ok (score_groups agent (groups_of dimension (f ∷ findings))) _ rest in
        let same = ok_inj made in
        (
          scored ∙ ap (λ (r : RiskAssessment). ok r.overall) same,
          grouped ∙ ap (λ (r : RiskAssessment). ok r.dimensions) same,
        )

    abbrev whole_weight : ℕ × ℕ
    whole_weight = (weighted agent (f ∷ findings), length (f ∷ findings))

    -- What holds of each group's weights by its score holds of the whole.
    of_groups :
        (P : ℕ → Type 0) (R : ℕ → ℕ → Type 0)
        → ((w n v m : ℕ) → R w n → R v m → R (w + v) (n + m))
        → ((items : List Finding) (s : ℕ)
            → 1 ≤ length items
            → score agent items ≡ ok s
            → P s
            → R (weighted agent items) (length items))
        → All (λ entry. P entry.1) result.dimensions
        → R whole_weight.0 whole_weight.1
    of_groups P R sums each good =
        let all = f ∷ findings in
        subst (λ n. R whole_weight.0 n) (total-length dimension all)
          (subst (λ w. R w (total length (groups_of dimension all))) (total-weighted dimension all)
            (whole_of_groups P R sums each (groups_of dimension all)
              (some_group dimension all (omega arith)) (by_dimension-HasItems dimension all [] tt)
              assess-parts.1 good))

    overall_at_most : (M : ℕ) → All (λ entry. entry.1 ≤ M) result.dimensions → result.overall ≤ M
    overall_at_most M below =
        let c = critical_weight agent in
        let (c_pos, whole) = score-eq-ok (f ∷ findings) (omega arith) assess-parts.0 in
        elim (Bool-cases (leb 100 M)) [
          | inl wide ↦ ground arith
          | inr narrow ↦
              let rounded_below =
                of_groups (λ s. s ≤ M) (λ w n. RoundsBelow M (100 * w) (n * c))
                  (λ w n v m. below_sums M w n v m c)
                  (λ items s some_item scored le.
                    let (pos, same) = score-eq-ok items some_item scored in
                    (round_below M _ _ pos).0 (ground arith))
                  below in
              let quotient = (round_below M _ _ c_pos).1 rounded_below in omega arith
        ]

    overall_at_least :
        (m : ℕ) → m ≤ 100 → All (λ entry. m ≤ entry.1) result.dimensions → m ≤ result.overall
    overall_at_least m le above =
        let c = critical_weight agent in
        let (c_pos, whole) = score-eq-ok (f ∷ findings) (omega arith) assess-parts.0 in
        let rounded_above =
          of_groups (λ s. m ≤ s) (λ w n. RoundsAbove m (100 * w) (n * c))
            (λ w n v k. above_sums m w n v k c)
            (λ items s some_item scored ge.
              let (pos, same) = score-eq-ok items some_item scored in
              (round_above m _ _ pos).0 (omega arith))
            above in
        let quotient = (round_above m _ _ c_pos).1 rounded_above in omega arith

  -- The overall score of some findings lies between the lowest and the highest score of a
  -- dimension: within any bounds, the lower one up to 100, that hold for the score of each dimension.
  pub overall-Between :
      (dimension : Finding → String) (first_120 : String → String)
      (narrate : List Finding → Dict ℕ → String × List String) (f : Finding)
      (findings : List Finding) (lowest highest : ℕ) {result : RiskAssessment}
      → assess agent dimension first_120 narrate (f ∷ findings) ≡ ok result
      → lowest ≤ 100
      → All (λ entry. (lowest ≤ entry.1) × (entry.1 ≤ highest)) result.dimensions
      → (lowest ≤ result.overall) × (result.overall ≤ highest)
  overall-Between dimension first_120 narrate f findings lowest highest {result} assessed le
        within =
      (
        overall_at_least dimension first_120 narrate f findings assessed lowest le
            (All-mono _ _ (λ entry h. h.0) result.dimensions within),
        overall_at_most dimension first_120 narrate f findings assessed highest
            (All-mono _ _ (λ entry h. h.1) result.dimensions within),
      )
