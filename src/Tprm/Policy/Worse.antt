-- ===== src/Tprm/Policy/Worse.antt =====
-- More findings never give a better verdict of src/orchestra_tprm/agents/policy.py.
use multi_agent_orchestratio.Base.{
  ℕ, ◌+◌, ◌≤◌, Bool, true, Option, none, some, List, [], ◌∷◌, ◌++◌, ◌≡◌, arith, ◌||◌, any, All,
}
use multi_agent_orchestratio.Base.Int.{ℤ, pos, ◌≤ℤ◌, int_laws}
use multi_agent_orchestratio.Base.Sorting.{sum_by}
use multi_agent_orchestratio.Tprm.Schemas.{
  Finding, MaScope, Recommendation, proceed, reprice, walk, weight_of, is_critical,
}
use multi_agent_orchestratio.Tprm.Policy.{
  PolicyPack, PolicyVerdict, approve, conditional_approve, reject, verdict, PolicyLibrary, Decided,
  vendor_verdict, deal_verdict, evaluate, recommendation, stops_deal, upper_exposure, total_upper,
  threshold, exceeds,
}

-- How bad a verdict is.
abbrev pub badness : PolicyVerdict → ℕ
badness approve = 0
badness conditional_approve = 1
badness reject = 2

abbrev pub deal_badness : Recommendation → ℕ
deal_badness proceed = 0
deal_badness reprice = 1
deal_badness walk = 2

abbrev pub decided_badness : Decided → ℕ
decided_badness (vendor_verdict verdict) = badness verdict
decided_badness (deal_verdict recommended) = deal_badness recommended

pub any-append :
    {A : Type 0} (p : A → Bool) (xs ys : List A) → any p (xs ++ ys) ≡ any p xs || any p ys
any-append p [] ys = ground arith
any-append p (x ∷ xs) ys = let ih = any-append p xs ys in ground arith

sum_by-append :
    {A : Type 0} (h : A → ℕ) (xs ys : List A) → sum_by h (xs ++ ys) ≡ sum_by h xs + sum_by h ys
sum_by-append h [] ys = omega arith
sum_by-append h (x ∷ xs) ys = omega (arith, sum_by-append h xs ys)

verdict_mono :
    (pack : PolicyPack) (findings more : List Finding) (score extra : ℕ)
    → badness (verdict pack findings score)
      ≤ badness (verdict pack (findings ++ more) (score + extra))
unfolding verdict
verdict_mono pack findings more score extra =
    let split = any-append (λ f. is_critical f.severity) findings more in ground arith

total_upper-mono :
    (findings more : List Finding)
    → All (λ f. pos 0 ≤ℤ upper_exposure f) more
    → total_upper findings ≤ℤ total_upper (findings ++ more)
unfolding total_upper
total_upper-mono [] [] signs = omega arith
total_upper-mono [] (f ∷ more) signs =
    let ih = total_upper-mono [] more signs.1 in let here = signs.0 in omega (int_laws)
total_upper-mono (f ∷ findings) more signs =
    let ih = total_upper-mono findings more signs in omega (int_laws)

exceeds_mono :
    (limit : Option ℤ) (a b : ℤ) → a ≤ℤ b → exceeds limit a ≡ true → exceeds limit b ≡ true
unfolding exceeds
exceeds_mono none a b le h = cc
exceeds_mono (some l) a b le h = ground arith

module _ (library : PolicyLibrary) where
  recommendation_mono :
      (scope : MaScope) (findings more : List Finding)
      → All (λ f. pos 0 ≤ℤ upper_exposure f) more
      → deal_badness (recommendation library scope findings)
        ≤ deal_badness (recommendation library scope (findings ++ more))
  unfolding recommendation
  recommendation_mono scope findings more signs =
      let split = any-append (stops_deal library scope) findings more in
      let larger = total_upper-mono findings more signs in
      let over = exceeds_mono (threshold library scope) (total_upper findings) _ larger in
      ground arith

  -- More findings never make the verdict better: neither the vendor's verdict, nor the
  -- recommendation of a deal, where the new findings have no negative upper exposure.
  pub evaluate_mono :
      (pack : PolicyPack) (scope : Option MaScope) (findings more : List Finding)
      → All (λ f. pos 0 ≤ℤ upper_exposure f) more
      → decided_badness (evaluate library pack scope findings).policy_verdict
        ≤ decided_badness (evaluate library pack scope (findings ++ more)).policy_verdict
  unfolding evaluate
  evaluate_mono pack none findings more signs =
      let weights = weight_of pack.weights in
      rw (sum_by-append weights findings more)
        (verdict_mono pack findings more (sum_by weights findings) (sum_by weights more))
  evaluate_mono pack (some scope) findings more signs =
      recommendation_mono scope findings more signs
