-- ===== src/Tprm/RiskScore/Drivers.antt =====
-- Which findings src/orchestra_tprm/agents/risk_score.py names as the drivers of the risk.
use multi_agent_orchestratio.Base.{
  ℕ, zero, suc, ◌≤◌, List, [], ◌∷◌, ◌++◌, ◌≡◌, refl, ap, ◌⊎◌, arith, Bool-cases, inl, inr, leb,
  leb→le, All, All-mono, length, take, drop, take-append-drop,
}
use mathlib.Core.List.{Perm}
use mathlib.Core.List.Perm
use multi_agent_orchestratio.Base.Sorting.{sort_descending, insert_descending}
use multi_agent_orchestratio.Tprm.Schemas.{Finding, weight_of}
use multi_agent_orchestratio.Tprm.RiskScore.{RiskScoreAgent, top_drivers}

drop-All : {A : Type 0} (P : A → Type 0) (n : ℕ) (xs : List A) → All P xs → All P (drop n xs)
drop-All P zero xs good = good
drop-All P (suc n) [] good = tt
drop-All P (suc n) (x ∷ xs) good = drop-All P n xs good.1

take-all_or_enough :
    {A : Type 0} (n : ℕ) (xs : List A) → (length (take n xs) ≡ n) ⊎ (drop n xs ≡ [])
take-all_or_enough zero xs = inl refl
take-all_or_enough (suc n) [] = inr refl
take-all_or_enough (suc n) (x ∷ xs) = elim (take-all_or_enough n xs) [
  | inl enough ↦ inl (ap suc enough)
  | inr all_taken ↦ inr all_taken
]

module _ {A : Type 0} (key : A → ℕ) where
  -- Each element weighs at least what every later one does.
  abbrev Descending : List A → Type 0
  Descending [] = Unit
  Descending (x ∷ xs) = All (λ y. key y ≤ key x) xs × Descending xs

  insert_descending-perm : (x : A) (xs : List A) → Perm (insert_descending key x xs) (x ∷ xs)
  unfolding insert_descending
  insert_descending-perm x [] = Perm.refl (x ∷ [])
  insert_descending-perm x (y ∷ ys) = elim (Bool-cases (leb (key y) (key x))) [
    | inl le ↦ rw le (Perm.refl (x ∷ y ∷ ys))
    | inr gt ↦ rw gt (Perm.trans (Perm.cons y (insert_descending-perm x ys)) (Perm.swap x y ys))
  ]

  sort_descending-perm : (xs : List A) → Perm (sort_descending key xs) xs
  unfolding sort_descending
  sort_descending-perm [] = Perm.refl []
  sort_descending-perm (x ∷ xs) =
      Perm.trans (insert_descending-perm x (sort_descending key xs))
        (Perm.cons x (sort_descending-perm xs))

  insert_descending-below :
      (bound : ℕ) (x : A) (xs : List A)
      → key x ≤ bound
      → All (λ y. key y ≤ bound) xs
      → All (λ y. key y ≤ bound) (insert_descending key x xs)
  unfolding insert_descending
  insert_descending-below bound x [] le below = (le, tt)
  insert_descending-below bound x (y ∷ ys) le below = elim (Bool-cases (leb (key y) (key x))) [
    | inl first ↦ rw first (le, below)
    | inr later ↦ rw later (below.0, insert_descending-below bound x ys le below.1)
  ]

  insert_descending-Descending :
      (x : A) (xs : List A) → Descending xs → Descending (insert_descending key x xs)
  unfolding insert_descending
  insert_descending-Descending x [] sorted = (tt, tt)
  insert_descending-Descending x (y ∷ ys) sorted = elim (Bool-cases (leb (key y) (key x))) [
    | inl le ↦
        let top = leb→le (key y) (key x) le in
        rw le ((top, All-mono _ _ (λ z h. omega (arith, h)) ys sorted.0), sorted)
    | inr gt ↦ rw gt (
      insert_descending-below (key y) x ys (ground arith) sorted.0,
      insert_descending-Descending x ys sorted.1,
    )
  ]

  sort_descending-Descending : (xs : List A) → Descending (sort_descending key xs)
  unfolding sort_descending
  sort_descending-Descending [] = tt
  sort_descending-Descending (x ∷ xs) =
      insert_descending-Descending x (sort_descending key xs) (sort_descending-Descending xs)

  take-heaviest :
      (n : ℕ) (xs : List A)
      → Descending xs
      → All (λ x. All (λ y. key y ≤ key x) (drop n xs)) (take n xs)
  take-heaviest zero xs sorted = tt
  take-heaviest (suc n) [] sorted = tt
  take-heaviest (suc n) (x ∷ xs) sorted =
      (drop-All (λ y. key y ≤ key x) n xs sorted.0, take-heaviest n xs sorted.1)

-- The drivers are n of the findings, or all where there are fewer, and each of them weighs at least
-- as much as every finding that is left out.
pub record AreHeaviest (agent : RiskScoreAgent) (n : ℕ) (findings drivers : List Finding)
    : Type 0 where
  pub others : List Finding
  pub together : Perm (drivers ++ others) findings
  pub as_many : (length drivers ≡ n) ⊎ (others ≡ [])
  pub heaviest :
      All (λ d. All (λ o. weight_of agent.weights o ≤ weight_of agent.weights d) others) drivers

-- The top drivers are n of the findings, or all of them where there are fewer, and each of them
-- weighs at least as much as every finding that is left out.
pub top_drivers-AreHeaviest :
    (agent : RiskScoreAgent) (n : ℕ) (findings : List Finding)
    → AreHeaviest agent n findings (top_drivers agent n findings)
unfolding top_drivers
top_drivers-AreHeaviest agent n findings =
    let key = weight_of agent.weights in
    let sorted = sort_descending key findings in
    record {
      others = drop n sorted;
      together = rw (take-append-drop n sorted) (sort_descending-perm key findings);
      as_many = take-all_or_enough n sorted;
      heaviest = take-heaviest key n sorted (sort_descending-Descending key findings);
    }
