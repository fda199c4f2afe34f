-- ===== src/Security/Acl.antt =====
-- src/orchestra/security/acl.py. `fnmatch.fnmatch` and `json.loads` are parameters, and so is the
-- clock: `past t` is `time.time() > t`.
pub mod Decision
pub mod Calls
use multi_agent_orchestratio.Base.{
  ℕ, ◌+◌, Bool, true, false, Option, none, some, List, [], ◌∷◌, ◌++◌, String, Result, ok, raise,
  bind, ◌==◌, ◌&&◌, ◌||◌, not, if◌then◌else◌, leb, any, all, truthy, ends_with, without_last_two,
  ◌+++◌, starts_with, agent_revoked_exception, capability_denied_error,
}
use multi_agent_orchestratio.Base.Dict.{Dict, get_or, insert}
use multi_agent_orchestratio.Identity.Types.{UcanCapability, UcanToken}

-- Whether a parent's capability covers a child's.
unfoldable pub covers : UcanCapability → UcanCapability → Bool
covers parent child =
    let ability_ok = parent.ability == "*" || parent.ability == child.ability in
    let parent_ns = without_last_two parent.resource in
    let resource_ok =
      if parent.resource == child.resource || parent.resource == "orchestra:tools/*"
      then true
      else if ends_with parent.resource "/*"
      then child.resource == parent_ns || starts_with child.resource (parent_ns +++ "/")
      else false in
    ability_ok && resource_ok

unfoldable pub validate_narrowing : List UcanCapability → List UcanCapability → Bool
unfolding covers
validate_narrowing parent_caps child_caps =
    all (λ child. any (λ parent. covers parent child) parent_caps) child_caps

pub record ToolAcl : Type 0 where
  pub allowed_tools : List String
  pub denied_tools : List String
  pub allow_patterns : List String
  pub deny_patterns : List String
  pub allow_all : Bool

unfoldable pub allow_list : List String → ToolAcl
allow_list tools = record {
  allowed_tools = tools;
  denied_tools = [];
  allow_patterns = [];
  deny_patterns = [];
  allow_all = false;
}

unfoldable pub deny_list : List String → ToolAcl
deny_list tools = record {
  allowed_tools = [];
  denied_tools = tools;
  allow_patterns = [];
  deny_patterns = [];
  allow_all = true;
}

unfoldable pub open_acl : ToolAcl
open_acl = record {
  allowed_tools = [];
  denied_tools = [];
  allow_patterns = [];
  deny_patterns = [];
  allow_all = true;
}

-- `tool_name in tools`.
abbrev pub among : String → List String → Bool
among tool_name tools = any (λ tool. tool == tool_name) tools

-- Whether a capability grants the invocation of a tool.
unfoldable pub grants_tool : String → UcanCapability → Bool
grants_tool tool_name cap =
    (cap.resource == ("orchestra:tools/" +++ tool_name) || cap.resource == "orchestra:tools/*")
    && (cap.ability == "tool/invoke" || cap.ability == "*")

-- The chain of tokens, each with the next: every link narrows.
unfoldable pub links_narrow : List UcanToken → Bool
unfolding validate_narrowing
links_narrow [] = true
links_narrow (parent ∷ []) = true
links_narrow (parent ∷ child ∷ rest) =
    validate_narrowing parent.capabilities child.capabilities && links_narrow (child ∷ rest)

-- Step 0, where both the agent and the list are given.
abbrev pub is_revoked : Option String → Option (String → Bool) → Bool
is_revoked (some agent_did) (some revoked) = revoked agent_did
is_revoked _ _ = false

module _ (fnmatch : String → String → Bool)
    -- The tokens that a proof text parses to, if it is a serialised token.
    (loads : String → Option UcanToken) (past : ℕ → Bool) where
  unfoldable pub check_acl_only : ToolAcl → String → Bool
  check_acl_only acl tool_name =
      acl.allow_all
      || among tool_name acl.allowed_tools
      || any (fnmatch tool_name) acl.allow_patterns

  unfoldable pub is_denied : ToolAcl → String → Bool
  is_denied acl tool_name =
      among tool_name acl.denied_tools || any (fnmatch tool_name) acl.deny_patterns

  -- The proofs that parse, in their order; opaque ones are skipped.
  unfoldable pub parse_proofs : List String → List UcanToken
  parse_proofs [] = []
  parse_proofs (raw ∷ proofs) =
      let rest = parse_proofs proofs in
      elim (loads raw) [ none ↦ rest | some token ↦ record token { raw = raw } ∷ rest ]

  -- `_validate_proof_chain`, and the `True` that follows it.
  unfoldable pub validate_proof_chain : UcanToken → Result Bool
  unfolding parse_proofs links_narrow
  validate_proof_chain ucan =
      if not (truthy ucan.proofs) || links_narrow (parse_proofs ucan.proofs ++ ucan ∷ [])
      then ok true
      else raise capability_denied_error

  -- Steps 1 to 6.
  unfoldable pub decide : ToolAcl → String → Option UcanToken → Result Bool
  unfolding is_denied check_acl_only validate_proof_chain grants_tool
  decide acl tool_name none =
      if is_denied acl tool_name then ok false else ok (check_acl_only acl tool_name)
  decide acl tool_name (some ucan) =
      if is_denied acl tool_name
      then ok false
      else if past ucan.expires_at
      then ok false
      else if not (check_acl_only acl tool_name)
      then ok false
      else if not (any (grants_tool tool_name) ucan.capabilities)
      then ok false
      else validate_proof_chain ucan

  unfoldable pub is_authorized :
      ToolAcl → String → Option UcanToken → Option String → Option (String → Bool) → Result Bool
  unfolding decide
  is_authorized acl tool_name ucan agent_did revocation_list =
      if is_revoked agent_did revocation_list
      then raise agent_revoked_exception
      else decide acl tool_name ucan

-- The first capability that grants the tool decides, and counts the call.
unfoldable pub check_ucan_call_limit : String → List UcanCapability → Dict ℕ → Bool × Dict ℕ
unfolding grants_tool
check_ucan_call_limit tool_name [] call_counts = (false, call_counts)
check_ucan_call_limit tool_name (cap ∷ capabilities) call_counts =
    let later = check_ucan_call_limit tool_name capabilities call_counts in
    let current = get_or tool_name 0 call_counts in
    if grants_tool tool_name cap
    then (elim cap.max_calls [
      | none ↦ (true, call_counts)
      | some max_calls ↦
          if leb max_calls current
          then (false, call_counts)
          else (true, insert tool_name (current + 1) call_counts)
    ])
    else later
