-- ===== src/Reasoning/Tot/Results.antt =====
-- What the tasks of a level of src/orchestra/reasoning/tot.py return.
use multi_agent_orchestratio.Base.{
  ℕ, suc, ◌+◌, ◌*◌, ◌≤◌, List, [], ◌∷◌, String, Result, ok, raise, ◌≡◌, arith, map, length,
  length-append, length-take-le, All, some,
}
use multi_agent_orchestratio.Base.Floats.{Floats}
use multi_agent_orchestratio.Base.Numbers.{mul_suc_left}
use multi_agent_orchestratio.Core.Agent.Types.{TokenUsage, LlmResponse}
use multi_agent_orchestratio.Core.Agent.Messages.{add_usage}
use multi_agent_orchestratio.Reasoning.Tot.{
  ThoughtNode, child_of, TextMethods, Request, read_thoughts, generate_thoughts, parse_thoughts,
}
use multi_agent_orchestratio.Reasoning.Tot.Search.{gather_all, collect, Thoughts}

module _ {A B W : Type 0} (task : A → W → B × W) where
  -- A count that each task raises by at most one goes up by at most one for each element.
  pub gather_all-calls :
      (count : W → ℕ)
      → ((x : A) (world : W) → count (task x world).1 ≤ suc (count world))
      → (xs : List A) (world : W) → count (gather_all task xs world).1 ≤ count world + length xs
  unfolding gather_all
  gather_all-calls count once [] world = omega arith
  gather_all-calls count once (x ∷ xs) world =
      omega (arith, once x world, gather_all-calls count once xs (task x world).1)

  pub gather_all-All :
      (P : B → Type 0) (R : A → Type 0)
      → ((x : A) (world : W) → R x → P (task x world).0)
      → (xs : List A) (world : W) → All R xs
      → All P (gather_all task xs world).0
  unfolding gather_all
  gather_all-All P R good [] world rs = tt
  gather_all-All P R good (x ∷ xs) world rs =
      (good x world rs.0, gather_all-All P R good xs (task x world).1 rs.1)

pub length-map : {A B : Type 0} (f : A → B) (xs : List A) → length (map f xs) ≡ length xs
length-map f [] = omega arith
length-map f (x ∷ xs) = omega (arith, length-map f xs)

-- No condition on the elements.
pub All-anything : {A : Type 0} (xs : List A) → All (λ _. Unit {0}) xs
All-anything [] = tt
All-anything (x ∷ xs) = (tt, All-anything xs)

module _ (𝓕 : Floats) where
  -- A generation with at most `k` thoughts.
  abbrev pub IsShort : ℕ → Thoughts 𝓕 → Type 0
  IsShort k (raise e) = Unit
  IsShort k (ok (thoughts, used)) = length thoughts ≤ k

  pub length-collect :
      (k depth : ℕ) (nodes : List ThoughtNode) (results : List (Thoughts 𝓕))
      (usage : TokenUsage 𝓕.F)
      → All (IsShort k) results
      → length (collect 𝓕 depth nodes results usage).0 ≤ length nodes * k
  unfolding collect
  length-collect k depth [] results usage short = omega arith
  length-collect k depth (node ∷ nodes) [] usage short = omega arith
  length-collect k depth (node ∷ nodes) (raise e ∷ results) usage short =
      grind (arith, length-collect k depth nodes results usage short.1)
  length-collect k depth (node ∷ nodes) (ok (thoughts, used) ∷ results) usage short =
      let ih = length-collect k depth nodes results (add_usage 𝓕 usage (some used)) short.1 in
      let here = short.0 in
      let mapped = length-map (child_of depth node) thoughts in
      let whole =
        length-append (map (child_of depth node) thoughts)
          (collect 𝓕 depth nodes results (add_usage 𝓕 usage (some used))).0 in
      grind (arith, mul_suc_left (length nodes) k)

  module _ {Args W : Type 0} (methods : TextMethods)
      (complete : Request → W → Result (LlmResponse 𝓕.F Args) × W) where
    read_thoughts-IsShort :
        (k : ℕ) (response : Result (LlmResponse 𝓕.F Args))
        → IsShort k (read_thoughts 𝓕 {W = W} methods complete k response)
    unfolding read_thoughts parse_thoughts
    read_thoughts-IsShort k (raise e) = tt
    read_thoughts-IsShort k (ok response) = length-take-le k _

    pub generate_thoughts-IsShort :
        (k : ℕ) (problem : String) (node : ThoughtNode) (world : W)
        → IsShort k (generate_thoughts 𝓕 methods complete k problem node world).0
    unfolding generate_thoughts
    generate_thoughts-IsShort k problem node world = read_thoughts-IsShort k _
