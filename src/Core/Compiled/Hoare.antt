-- ===== src/Core/Compiled/Hoare.antt =====
-- What holds of the value and the state when an action returns, one rule for each way to build it.
use multi_agent_orchestratio.Base.{◌≡◌, refl, Bool, true, false, Result, ok, raise, if◌then◌else◌}
use multi_agent_orchestratio.Core.Compiled.{Machine}
use multi_agent_orchestratio.Core.Compiled.Exec.{Exec, return, lift, gets, modify, continue, ◌>>=◌}

-- Nothing is claimed of an action that raises.
abbrev pub Returned : {V A : Type 0} → (A → Machine V → Type 0) → Result A → Machine V → Type 0
Returned Q (ok a) m = Q a m
Returned Q (raise e) m = Unit

pub record Yields {V A : Type 0} (P : Machine V → Type 0) (Q : A → Machine V → Type 0)
    (action : Exec V A) : Type 0 where
  pub at : (m : Machine V) → P m → Returned Q (action m).0 (action m).1

module _ {V A : Type 0} {P : Machine V → Type 0} where
  pub Yields-return :
      {Q : A → Machine V → Type 0} (a : A) → ((m : Machine V) → P m → Q a m) → Yields P Q (return a)
  unfolding return
  Yields-return a h = record { at = h }

  pub Yields-lift : (r : Result A) → Yields P (λ a m. (r ≡ ok a) × P m) (lift r)
  unfolding lift
  Yields-lift (ok a) = record { at = λ m p. (refl, p) }
  Yields-lift (raise e) = record { at = λ m p. tt }

  pub Yields-gets : (f : Machine V → A) → Yields P (λ a m. (a ≡ f m) × P m) (gets f)
  unfolding gets
  Yields-gets f = record { at = λ m p. (refl, p) }

  pub Yields-if :
      {Q : A → Machine V → Type 0} (b : Bool) (x y : Exec V A)
      → Yields P Q x
      → Yields P Q y
      → Yields P Q (if b then x else y)
  Yields-if true x y p q = p
  Yields-if false x y p q = q

pub Yields-modify :
    {V : Type 0} {P Q : Machine V → Type 0} (f : Machine V → Machine V)
    → ((m : Machine V) → P m → Q (f m))
    → Yields P (λ _ m. Q m) (modify f)
unfolding modify
Yields-modify f h = record { at = h }

module _ {V A B : Type 0} where
  Returned-continue :
      (Q : A → Machine V → Type 0) (S : B → Machine V → Type 0) (r : Result A) (f : A → Exec V B)
      (m : Machine V)
      → Returned Q r m
      → ((a : A) → Yields (Q a) S (f a))
      → Returned S (continue r f m).0 (continue r f m).1
  Returned-continue Q S (ok a) f m h steps = (steps a).at m h
  Returned-continue Q S (raise e) f m h steps = tt

  pub Yields-bind :
      {P : Machine V → Type 0} {Q : A → Machine V → Type 0} {S : B → Machine V → Type 0}
      (action : Exec V A) (f : A → Exec V B)
      → Yields P Q action
      → ((a : A) → Yields (Q a) S (f a))
      → Yields P S (action >>= f)
  unfolding ◌>>=◌
  Yields-bind {P} {Q} {S} action f first steps = record {
    at = λ m p. Returned-continue Q S (action m).0 f (action m).1 (first.at m p) steps;
  }

-- A fact that does not speak of the state may be used, and so may a weaker condition on it.
pub Yields-given :
    {V A : Type 0} {F : Type 0} {P : Machine V → Type 0} {Q : A → Machine V → Type 0}
    (action : Exec V A)
    → (F → Yields P Q action)
    → Yields (λ m. F × P m) Q action
Yields-given action h = record { at = λ m fp. (h fp.0).at m fp.1 }
