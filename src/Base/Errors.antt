-- ===== src/Base/Errors.antt =====
-- Python's exceptions: a function that may raise returns a `Result`, and one that also changes an
-- object is an `Exec` action, which keeps what was written before a raise. The classes are those
-- of core/errors.py that the modelled code raises or catches; messages are left out.
use mathlib.Core.Path.{◌≡◌, refl, ap}
use mathlib.Core.Bool.{Bool, true, false}
use mathlib.Core.Option.{Option, none, some}
use mathlib.Core.Logic.{◌⊎◌, inl, inr}
use native.Mathlib.Omega.{arith}

pub data Error : Type 0 where
  graph_compile_error agent_error max_iterations_error provider_error : Error
  state_validation_error reducer_error : Error
  budget_exceeded_error all_providers_unavailable_error : Error
  delegation_depth_exceeded_error agent_revoked_exception : Error
  ucan_verification_error capability_denied_error : Error
  cyclic_hierarchy_error guardrail_error recursion_error integrity_error : Error
  model_selection_error : Error
  value_error key_error validation_error circuit_open_error : Error
  other_exception : Error

pub data Result {ℓ} (A : Type ℓ) : Type ℓ where
  ok : A → Result A
  raise : Error → Result A

abbrev pub bind {ℓ κ} : {A : Type ℓ} {B : Type κ} → Result A → (A → Result B) → Result B
bind (ok a) f = f a
bind (raise e) f = raise e

abbrev pub from_option {ℓ} : {A : Type ℓ} → Error → Option A → Result A
from_option e none = raise e
from_option e (some a) = ok a

abbrev pub is_ok {ℓ} : {A : Type ℓ} → Result A → Bool
is_ok (ok _) = true
is_ok (raise _) = false

pub bind-eq-ok {ℓ κ} :
    {A : Type ℓ} {B : Type κ} (m : Result A) (f : A → Result B) {b : B}
    → bind m f ≡ ok b
    → (a : A) × (m ≡ ok a) × (f a ≡ ok b)
bind-eq-ok (ok a) f h = (a, refl, h)
bind-eq-ok (raise e) f h = cc

pub Result-cases {ℓ} :
    {A : Type ℓ} (r : Result A) → ((a : A) × (r ≡ ok a)) ⊎ ((e : Error) × (r ≡ raise e))
Result-cases (ok a) = inl (a, refl)
Result-cases (raise e) = inr (e, refl)

pub from_option-eq-ok {ℓ} :
    {A : Type ℓ} (e : Error) (o : Option A) {a : A} → from_option e o ≡ ok a → o ≡ some a
from_option-eq-ok e none h = cc
from_option-eq-ok e (some a) h = ground arith

pub raise_of_from_option {ℓ} :
    {A : Type ℓ} (e : Error) (o : Option A) {e' : Error} → from_option e o ≡ raise e' → e' ≡ e
raise_of_from_option e none h = ground arith
raise_of_from_option e (some a) h = cc

pub ok_inj {ℓ} : {A : Type ℓ} {a b : A} → ok a ≡ ok b → a ≡ b
ok_inj {a = a} h = ap (λ r. elim r [ ok x ↦ x | raise e ↦ a ]) h

pub some_inj {ℓ} : {A : Type ℓ} {a b : A} → some a ≡ some b → a ≡ b
some_inj {a = a} h = ap (λ o. elim o [ none ↦ a | some x ↦ x ]) h

pub raise_inj {ℓ} : {A : Type ℓ} {e e' : Error} → ◌≡◌ {A = Result A} (raise e) (raise e') → e ≡ e'
raise_inj {e = e} h = ap (λ r. elim r [ ok x ↦ e | raise x ↦ x ]) h
