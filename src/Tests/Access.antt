-- ===== src/Tests/Access.antt =====
-- Access lists, tokens and delegation on small inputs.
use multi_agent_orchestratio.Base.{
  ℕ, ◌==◌, true, false, Bool, Option, none, some, [], ◌∷◌, String, ok, Result, ◌≡◌, refl, arith,
  ltb,
}
use multi_agent_orchestratio.Base.Dict.{Dict, lookup}
use multi_agent_orchestratio.Identity.Types.{UcanCapability, UcanToken, DelegationContext, root}
use multi_agent_orchestratio.Identity.Baggage.{to_baggage_value, from_baggage_value}
use multi_agent_orchestratio.Identity.Baggage.RoundTrip.{
  delegate_all, from_baggage_value-to_baggage_value,
}
use multi_agent_orchestratio.Identity.Ucan.{Payload, verify_delegation_chain}
use multi_agent_orchestratio.Identity.Ucan.Chain.{IsBacked, verify_delegation_chain-IsBacked}
use multi_agent_orchestratio.Security.Acl.{ToolAcl, is_authorized, deny_list}
use multi_agent_orchestratio.Security.Acl.Decision.{
  IsRevoked, IsUndenied, IsAllowed, Permits, is_authorized_iff,
}

abbrev exact : String → String → Bool
exact tool_name pattern = tool_name == pattern

abbrev not_serialised : String → Option UcanToken
not_serialised text = none

abbrev past : ℕ → Bool
past time = ltb time 100

abbrev search_capability : UcanCapability
search_capability = record {
  resource = "orchestra:tools/search";
  ability = "tool/invoke";
  max_calls = some 2;
}

abbrev token : UcanToken
token = record {
  raw = "t";
  issuer_did = "alice";
  audience_did = "bob";
  capabilities = search_capability ∷ [];
  not_before = 0;
  expires_at = 200;
  nonce = "";
  proofs = [];
}

abbrev acl : ToolAcl
acl = deny_list ("delete" ∷ [])

allowed_search :
    is_authorized exact not_serialised past acl "search" (some token) (some "bob") none ≡ ok true
unfolding is_authorized deny_list
allowed_search = refl

denied_delete :
    is_authorized exact not_serialised past acl "delete" (some token) none none ≡ ok false
unfolding is_authorized deny_list
denied_delete = refl

abbrev Conditions : Type 0
Conditions =
    (¬ IsRevoked exact not_serialised past (some "bob") none)
    × IsUndenied exact not_serialised past acl "search"
    × IsAllowed exact not_serialised past acl "search"
    × Permits exact not_serialised past "search" (some token)

is_authorized_iff_example :
    (is_authorized exact not_serialised past acl "search" (some token) (some "bob") none ≡ ok true
      → Conditions)
    × (Conditions
        → is_authorized exact not_serialised past acl "search" (some token) (some "bob") none
          ≡ ok true)
is_authorized_iff_example =
    is_authorized_iff exact not_serialised past acl "search" (some token) (some "bob") none

abbrev delegated : DelegationContext
delegated = record {
  chain = "alice" ∷ "bob" ∷ [];
  issuer_did = "alice";
  current_did = "bob";
  depth = 1;
  max_depth = 3;
}

bob_reached : delegate_all ("bob" ∷ []) (root "alice" 3) ≡ ok delegated
unfolding delegate_all root
bob_reached = refl

from_baggage_value-to_baggage_value_example :
    from_baggage_value (to_baggage_value delegated) 3 ≡ delegated
from_baggage_value-to_baggage_value_example =
    from_baggage_value-to_baggage_value delegated
      (record { first = refl; current = refl; links = refl; within = omega arith })
      ((refl, (refl, (refl, (refl, (refl, tt))))), ((refl, (refl, (refl, tt))), tt))

abbrev required : UcanCapability
required = record { resource = "orchestra:tools/search"; ability = "tool/invoke"; max_calls = none }

-- The leaf is from bob to carol, its proof from alice to bob.
abbrev payloads : Dict Payload
payloads =
    (
      "leaf",
      record {
        iss = some "bob";
        aud = some "carol";
        nbf = 0;
        exp = 200;
        att = record { with_resource = some "orchestra:tools/*"; can = some "*" } ∷ [];
        prf = "opaque" ∷ "proof" ∷ [];
        nnc = "";
      },
    )
    ∷ (
      "proof",
      record {
        iss = some "alice";
        aud = some "bob";
        nbf = 0;
        exp = 200;
        att =
            record { with_resource = some "orchestra:tools/search"; can = some "tool/invoke" } ∷ [];
        prf = [];
        nnc = "";
      },
    )
    ∷ []

abbrev unverified : String → Option Payload
unverified text = lookup text payloads

abbrev issuer_key : String → Result String
issuer_key did = ok did

abbrev decode : String → String → Option Payload
decode text key = lookup text payloads

abbrev verified : UcanToken
verified = record {
  raw = "leaf";
  issuer_did = "bob";
  audience_did = "carol";
  capabilities = record { resource = "orchestra:tools/*"; ability = "*"; max_calls = none } ∷ [];
  not_before = 0;
  expires_at = 200;
  nonce = "";
  proofs = "opaque" ∷ "proof" ∷ [];
}

verified_leaf :
    verify_delegation_chain unverified issuer_key decode 100 3 required "leaf" "carol" ≡ ok verified
unfolding verify_delegation_chain lookup
verified_leaf = refl

verify_delegation_chain-IsBacked_example :
    IsBacked unverified issuer_key decode 100 required "leaf" "carol"
verify_delegation_chain-IsBacked_example =
    verify_delegation_chain-IsBacked unverified issuer_key decode 100 required 3 "leaf" "carol"
      {token = verified} verified_leaf
