-- ===== src/Identity/Ucan.antt =====
-- `UCANManager.verify` and `check_capability` of src/orchestra/identity/ucan.py, and
-- src/orchestra/identity/delegation.py. What the JWT library, the DID documents and the key formats
-- do are parameters, and so is the clock. A chain of proofs is followed to a depth, which the
-- interpreter bounds for the code.
pub mod Chain
use multi_agent_orchestratio.Base.{
  ℕ, zero, suc, ◌+◌, Bool, true, false, Option, none, some, List, [], ◌∷◌, String, Result, ok,
  raise, bind, from_option, ◌==◌, ◌&&◌, ◌||◌, not, if◌then◌else◌, ltb, any, truthy, Error,
  ucan_verification_error, capability_denied_error, key_error, other_exception, starts_with,
  ends_with, without_last_two, ◌+++◌,
}
use multi_agent_orchestratio.Identity.Types.{UcanCapability, UcanToken}

-- An entry of `att`: the values under "with" and "can".
pub record Attenuation : Type 0 where
  pub with_resource : Option String
  pub can : Option String

-- The claims that the code reads; a missing time is 0, as the code takes it.
pub record Payload : Type 0 where
  pub iss : Option String
  pub aud : Option String
  pub nbf : ℕ
  pub exp : ℕ
  pub att : List Attenuation
  pub prf : List String
  pub nnc : String

abbrev pub or_blank : Option String → String
or_blank none = ""
or_blank (some text) = text

unfoldable pub resource_match : String → String → Bool
resource_match granted required =
    if granted == required
    then true
    else if ends_with granted "/*"
    then starts_with required (without_last_two granted +++ "/")
    else false

unfoldable pub entry_grants : UcanCapability → Attenuation → Bool
unfolding resource_match
entry_grants required entry =
    let granted_ability = or_blank entry.can in
    resource_match (or_blank entry.with_resource) required.resource
    && (granted_ability == required.ability || granted_ability == "*")

unfoldable pub check_capability : Payload → UcanCapability → Bool
unfolding entry_grants
check_capability payload required = any (entry_grants required) payload.att

-- The claims that `verify` looks at, once the signature holds.
unfoldable pub verify_claims : ℕ → Payload → String → Result Payload
verify_claims now payload expected_audience =
    if ltb payload.exp now
    then raise ucan_verification_error
    else if ltb (now + 60) payload.nbf
    then raise ucan_verification_error
    else if not (expected_audience == "")
        && not (elim payload.aud [ none ↦ false | some aud ↦ aud == expected_audience ])
    then raise ucan_verification_error
    else ok payload

-- `_build_token_obj`: the capabilities, where an entry without its keys is a `KeyError`.
unfoldable pub build_capabilities : List Attenuation → Result (List UcanCapability)
build_capabilities [] = ok []
build_capabilities (entry ∷ att) = bind (from_option key_error entry.with_resource) λ resource.
    bind (from_option key_error entry.can) λ ability. bind (build_capabilities att) λ capabilities.
      ok (record { resource = resource; ability = ability; max_calls = none } ∷ capabilities)

unfoldable pub build_token_obj : String → Payload → Result UcanToken
unfolding build_capabilities
build_token_obj raw payload = bind (build_capabilities payload.att) λ capabilities.
    bind (from_option key_error payload.iss) λ issuer_did.
      bind (from_option key_error payload.aud) λ audience_did. ok (record {
        raw = raw;
        issuer_did = issuer_did;
        audience_did = audience_did;
        capabilities = capabilities;
        not_before = payload.nbf;
        expires_at = payload.exp;
        nonce = payload.nnc;
        proofs = payload.prf;
      })

-- `except (UCANVerificationError, CapabilityDeniedError): continue`.
abbrev pub is_passed_over : Error → Bool
is_passed_over ucan_verification_error = true
is_passed_over capability_denied_error = true
is_passed_over _ = false

-- The loop over the proofs, up to the first that is verified.
unfoldable pub granted_by_proof : (String → Result UcanToken) → List String → Result Bool
granted_by_proof verify_proof [] = ok false
granted_by_proof verify_proof (proof ∷ proofs) =
    let later = granted_by_proof verify_proof proofs in
    elim (verify_proof proof) [
      | ok token ↦ ok true
      | raise e ↦ if is_passed_over e then later else raise e
    ]

-- The issuer is there and not empty.
abbrev pub named_issuer : Option String → Result String
named_issuer none = raise ucan_verification_error
named_issuer (some did) = if did == "" then raise ucan_verification_error else ok did

module _ {Key : Type 0}
    -- The claims of a token, unverified; `none` where it does not parse.
    (unverified : String → Option Payload)
    -- The Ed25519 key of a DID, or the error of its resolution.
    (issuer_key : String → Result Key)
    -- `jwt.decode`: the claims of a token with a valid signature.
    (decode : String → Key → Option Payload) (now : ℕ) where
  -- The first and the second step: the claims of the leaf, which grant the capability.
  unfoldable pub verify_leaf : String → UcanCapability → String → Result (String × Payload)
  unfolding verify_claims check_capability
  verify_leaf token_str required expected_audience =
      bind (from_option ucan_verification_error (unverified token_str)) λ claimed.
        bind (named_issuer claimed.iss) λ issuer_did. bind (issuer_key issuer_did) λ key.
          bind (from_option ucan_verification_error (decode token_str key)) λ signed.
            bind (verify_claims now signed expected_audience) λ payload.
              if check_capability payload required
              then ok (issuer_did, payload)
              else raise capability_denied_error

  unfoldable pub verify_proofs :
      (String → String → Result UcanToken) → String → String × Payload → Result UcanToken
  unfolding granted_by_proof build_token_obj
  verify_proofs verify_proof token_str (issuer_did, payload) =
      if not (truthy payload.prf)
      then build_token_obj token_str payload
      else bind (granted_by_proof (λ proof. verify_proof proof issuer_did) payload.prf) (λ granted.
        if granted then build_token_obj token_str payload else raise capability_denied_error)

  unfoldable pub verify_delegation_chain : ℕ → UcanCapability → String → String → Result UcanToken
  unfolding verify_leaf verify_proofs
  verify_delegation_chain zero required token_str expected_audience = raise other_exception
  verify_delegation_chain (suc depth) required token_str expected_audience =
      bind (verify_leaf token_str required expected_audience)
        λ leaf. verify_proofs (verify_delegation_chain depth required) token_str leaf
