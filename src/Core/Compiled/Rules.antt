-- ===== src/Core/Compiled/Rules.antt =====
-- How an action moves the state of a run, one rule for each way to build an action. The relations
-- are those that hold of one state and compose.
use multi_agent_orchestratio.Base.{Bool, true, false, Result, ok, raise, if◌then◌else◌}
use multi_agent_orchestratio.Core.Compiled.{Machine}
use multi_agent_orchestratio.Core.Compiled.Exec.{Exec, return, lift, gets, continue, ◌>>=◌}

-- Whether it returns or raises, the action relates the state before it to the state after it.
pub record Moves {V A : Type 0} (R : Machine V → Machine V → Type 0) (action : Exec V A)
    : Type 0 where
  pub at : (m : Machine V) → R m (action m).1

pub record IsPreorder {V : Type 0} (R : Machine V → Machine V → Type 0) : Type 0 where
  pub same : (m : Machine V) → R m m
  pub compose : (l m n : Machine V) → R l m → R m n → R l n

module _ {V A : Type 0} {R : Machine V → Machine V → Type 0} (pre : IsPreorder R) where
  pub Moves-return : (a : A) → Moves R (return {V = V} a)
  unfolding return
  Moves-return a = record { at = λ m. pre.same m }

  pub Moves-lift : (r : Result A) → Moves R (lift {V = V} r)
  unfolding lift
  Moves-lift r = record { at = λ m. pre.same m }

  pub Moves-gets : (f : Machine V → A) → Moves R (gets f)
  unfolding gets
  Moves-gets f = record { at = λ m. pre.same m }

-- Two actions in turn, where the relations of the parts compose.
module _ {V A B : Type 0} where
  Moves-continue :
      (R S T : Machine V → Machine V → Type 0) (r : Result A) (f : A → Exec V B) (l m : Machine V)
      → R l m
      → ((m n : Machine V) → R l m → S m n → T l n)
      → ((m : Machine V) → R l m → T l m)
      → ((a : A) → Moves S (f a))
      → T l (continue r f m).1
  Moves-continue R S T (ok a) f l m first compose only steps =
      compose m (f a m).1 first ((steps a).at m)
  Moves-continue R S T (raise e) f l m first compose only steps = only m first

  pub Moves-then :
      {R S T : Machine V → Machine V → Type 0} (action : Exec V A) (f : A → Exec V B)
      → ((l m n : Machine V) → R l m → S m n → T l n)
      → ((l m : Machine V) → R l m → T l m)
      → Moves R action
      → ((a : A) → Moves S (f a))
      → Moves T (action >>= f)
  unfolding ◌>>=◌
  Moves-then {R} {S} {T} action f compose only first steps = record {
    at = λ l.
        Moves-continue R S T (action l).0 f l (action l).1 (first.at l) (λ m n. compose l m n)
          (λ m. only l m) steps;
  }

  pub Moves-bind :
      {R : Machine V → Machine V → Type 0}
      → IsPreorder R
      → (action : Exec V A) (f : A → Exec V B) → Moves R action
      → ((a : A) → Moves R (f a))
      → Moves R (action >>= f)
  Moves-bind {R} pre action f first steps =
      Moves-then {R = R} {S = R} {T = R} action f (λ l m n. pre.compose l m n) (λ l m h. h) first
        steps

pub Moves-if :
    {V A : Type 0} {R : Machine V → Machine V → Type 0} (b : Bool) (x y : Exec V A)
    → Moves R x
    → Moves R y
    → Moves R (if b then x else y)
Moves-if true x y p q = p
Moves-if false x y p q = q

pub ruleset moves_rules = (Moves-return, Moves-lift, Moves-gets, Moves-bind, Moves-if)
