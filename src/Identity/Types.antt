-- ===== src/Identity/Types.antt =====
-- src/orchestra/identity/types.py: capabilities, tokens and the delegation chain.
use multi_agent_orchestratio.Base.{
  ℕ, ◌-◌, Option, List, [], ◌∷◌, ◌++◌, String, Result, ok, raise, if◌then◌else◌, leb, length,
  delegation_depth_exceeded_error,
}

pub record UcanCapability : Type 0 where
  pub resource : String
  pub ability : String
  pub max_calls : Option ℕ

pub record UcanToken : Type 0 where
  pub raw : String
  pub issuer_did : String
  pub audience_did : String
  pub capabilities : List UcanCapability
  pub not_before : ℕ
  pub expires_at : ℕ
  pub nonce : String
  pub proofs : List String

pub record DelegationContext : Type 0 where
  pub chain : List String
  pub issuer_did : String
  pub current_did : String
  pub depth : ℕ
  pub max_depth : ℕ

unfoldable pub root : String → ℕ → DelegationContext
root did max_depth = record {
  chain = did ∷ [];
  issuer_did = did;
  current_did = did;
  depth = 0;
  max_depth = max_depth;
}

unfoldable pub delegate_to : String → DelegationContext → Result DelegationContext
delegate_to child_did context =
    let new_chain = context.chain ++ child_did ∷ [] in
    if leb context.max_depth context.depth
    then raise delegation_depth_exceeded_error
    else ok (record {
      chain = new_chain;
      issuer_did = context.issuer_did;
      current_did = child_did;
      depth = length new_chain - 1;
      max_depth = context.max_depth;
    })
