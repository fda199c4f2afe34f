-- ===== src/Base/Exists.antt =====
-- That something holds of an element of a list, and what `any` and `all` say of it.
use mathlib.Core.Path.{◌≡◌, refl}
use mathlib.Core.Logic.{◌⊎◌, inl, inr}
use mathlib.Core.Bool.{Bool, true, false}
use mathlib.Core.List.{List, [], ◌∷◌}
use native.Mathlib.Omega.{arith}
use multi_agent_orchestratio.Base.Tests.{Bool-cases}
use multi_agent_orchestratio.Base.Lists.{any, all, All}

module _ {A : Type 0} where
  abbrev pub Exists : (A → Type 0) → List A → Type 0
  Exists P [] = ⊥
  Exists P (x ∷ xs) = P x ⊎ Exists P xs

  -- A test and what it is to find out.
  abbrev pub Decides : (A → Bool) → (A → Type 0) → Type 0
  Decides p P = (x : A) → (p x ≡ true → P x) × (P x → p x ≡ true)

  pub any_to :
      (p : A → Bool) (P : A → Type 0) (xs : List A) → Decides p P → any p xs ≡ true → Exists P xs
  any_to p P [] decides h = cc
  any_to p P (x ∷ xs) decides h = elim (Bool-cases (p x)) [
    | inl here ↦ inl ((decides x).0 here)
    | inr there ↦ inr (any_to p P xs decides (ground arith))
  ]

  pub any_of :
      (p : A → Bool) (P : A → Type 0) (xs : List A) → Decides p P → Exists P xs → any p xs ≡ true
  any_of p P [] decides h = absurd h
  any_of p P (x ∷ xs) decides (inl here) = let now = (decides x).1 here in ground arith
  any_of p P (x ∷ xs) decides (inr there) = let later = any_of p P xs decides there in ground arith

  pub none_to : (p : A → Bool) (xs : List A) → any p xs ≡ false → All (λ x. p x ≡ false) xs
  none_to p [] h = tt
  none_to p (x ∷ xs) h = (ground arith, none_to p xs (ground arith))

  pub none_of : (p : A → Bool) (xs : List A) → All (λ x. p x ≡ false) xs → any p xs ≡ false
  none_of p [] h = refl
  none_of p (x ∷ xs) (here, there) = let later = none_of p xs there in ground arith

  pub all_to :
      (p : A → Bool) (P : A → Type 0) (xs : List A) → Decides p P → all p xs ≡ true → All P xs
  all_to p P [] decides h = tt
  all_to p P (x ∷ xs) decides h =
      ((decides x).0 (ground arith), all_to p P xs decides (ground arith))

  pub all_of :
      (p : A → Bool) (P : A → Type 0) (xs : List A) → Decides p P → All P xs → all p xs ≡ true
  all_of p P [] decides h = refl
  all_of p P (x ∷ xs) decides (here, there) =
      let now = (decides x).1 here in let later = all_of p P xs decides there in ground arith
