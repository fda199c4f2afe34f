-- ===== src/Security/Acl/Decision.antt =====
-- When a tool is authorized.
use multi_agent_orchestratio.Base.{
  ℕ, Bool, true, false, Option, none, some, List, [], ◌∷◌, ◌++◌, String, ok, ◌≡◌, refl, arith, not,
  truthy, any, ◌||◌, ◌==◌, ◌+++◌, All, ◌⊎◌, inl, inr, Bool-cases, Option-cases, eq_iff, starts_with,
  ends_with, without_last_two,
}
use multi_agent_orchestratio.Base.Exists.{
  Exists, Decides, any_to, any_of, none_to, none_of, all_to, all_of,
}
use multi_agent_orchestratio.Identity.Types.{UcanCapability, UcanToken}
use multi_agent_orchestratio.Security.Acl.{
  ToolAcl, is_authorized, is_revoked, is_denied, check_acl_only, grants_tool, links_narrow,
  parse_proofs, validate_proof_chain, validate_narrowing, covers, decide, among,
}

-- A capability that names the tool, or all tools, and lets it be invoked, or everything be done.
abbrev pub Grants : String → UcanCapability → Type 0
Grants tool_name cap =
    ((cap.resource ≡ "orchestra:tools/" +++ tool_name) ⊎ (cap.resource ≡ "orchestra:tools/*"))
    × ((cap.ability ≡ "tool/invoke") ⊎ (cap.ability ≡ "*"))

-- The parent's resource is the child's, or all tools, or ends in "/*" with the child's below it.
abbrev pub CoversResource : String → String → Type 0
CoversResource parent child =
    ((parent ≡ child) ⊎ (parent ≡ "orchestra:tools/*"))
    ⊎ ((ends_with parent "/*" ≡ true)
        × ((child ≡ without_last_two parent)
            ⊎ (starts_with child (without_last_two parent +++ "/") ≡ true)))

abbrev pub Covers : UcanCapability → UcanCapability → Type 0
Covers parent child =
    ((parent.ability ≡ "*") ⊎ (parent.ability ≡ child.ability))
    × CoversResource parent.resource child.resource

-- Each capability of the child is covered by one of the parent.
abbrev pub Narrows : UcanToken → UcanToken → Type 0
Narrows parent child = All (λ c. Exists (λ p. Covers p c) parent.capabilities) child.capabilities

eq_Decides : (text : String) → Decides (λ t. t == text) (λ t. t ≡ text)
eq_Decides text t = ((eq_iff t text).0, (eq_iff t text).1)

grants_tool-Decides : (tool_name : String) → Decides (grants_tool tool_name) (Grants tool_name)
unfolding grants_tool
grants_tool-Decides tool_name cap =
    let all_tools = eq_iff cap.resource "orchestra:tools/*" in
    let own = eq_iff cap.resource ("orchestra:tools/" +++ tool_name) in
    let invoke = eq_iff cap.ability "tool/invoke" in
    let any_ability = eq_iff cap.ability "*" in (λ h. ground arith, λ h. ground arith)

covers-Decides :
    (child : UcanCapability)
    → Decides (λ parent. covers parent child) (λ parent. Covers parent child)
unfolding covers
covers-Decides child parent =
    let all_tools = eq_iff parent.resource "orchestra:tools/*" in
    let same = eq_iff parent.resource child.resource in
    let namespace = eq_iff child.resource (without_last_two parent.resource) in
    let same_ability = eq_iff parent.ability child.ability in
    let any_ability = eq_iff parent.ability "*" in (λ h. ground arith, λ h. ground arith)

validate_narrowing-Decides :
    (parent : UcanToken)
    → Decides
        (λ child. any (λ p. covers p child) parent.capabilities)
        (λ child. Exists (λ p. Covers p child) parent.capabilities)
validate_narrowing-Decides parent child = (
  any_to (λ p. covers p child) (λ p. Covers p child) parent.capabilities (covers-Decides child),
  any_of (λ p. covers p child) (λ p. Covers p child) parent.capabilities (covers-Decides child),
)

Narrows-iff :
    (parent child : UcanToken)
    → (validate_narrowing parent.capabilities child.capabilities ≡ true → Narrows parent child)
      × (Narrows parent child → validate_narrowing parent.capabilities child.capabilities ≡ true)
unfolding validate_narrowing
Narrows-iff parent child = (
  all_to _ _ child.capabilities (validate_narrowing-Decides parent),
  all_of _ _ child.capabilities (validate_narrowing-Decides parent),
)

-- The token narrows the one before it, if there is one.
abbrev pub After : Option UcanToken → UcanToken → Type 0
After none child = Unit
After (some parent) child = Narrows parent child

module _ (fnmatch : String → String → Bool) (loads : String → Option UcanToken)
    (past : ℕ → Bool) where
  -- Each proof that is a serialised token narrows the one before it, and the token the last of them.
  abbrev pub NarrowsFrom : Option UcanToken → List String → UcanToken → Type 0
  NarrowsFrom previous [] ucan = After previous ucan
  NarrowsFrom previous (raw ∷ proofs) ucan = elim (loads raw) [
    | none ↦ NarrowsFrom previous proofs ucan
    | some token ↦
        After previous (record token { raw = raw })
        × NarrowsFrom (some (record token { raw = raw })) proofs ucan
  ]

  abbrev behind : Option UcanToken → List UcanToken → List UcanToken
  behind none tokens = tokens
  behind (some token) tokens = token ∷ tokens

  links_narrow_iff :
      (previous : Option UcanToken) (proofs : List String) (ucan : UcanToken)
      → let chain = behind previous (parse_proofs fnmatch loads past proofs ++ ucan ∷ []) in
        (links_narrow chain ≡ true → NarrowsFrom previous proofs ucan)
        × (NarrowsFrom previous proofs ucan → links_narrow chain ≡ true)
  unfolding links_narrow parse_proofs
  links_narrow_iff none [] ucan = (λ h. tt, λ h. refl)
  links_narrow_iff (some parent) [] ucan =
      let (there, back) = Narrows-iff parent ucan in
      (λ h. there (ground arith), λ h. let ok_link = back h in ground arith)
  links_narrow_iff none (raw ∷ proofs) ucan = elim (Option-cases (loads raw)) [
    | inl opaque ↦ rw (opaque, parse_proofs, NarrowsFrom) (links_narrow_iff none proofs ucan)
    | inr (token, parsed) ↦
        let (there, back) = links_narrow_iff (some (record token { raw = raw })) proofs ucan in
        rw (parsed, parse_proofs, NarrowsFrom) (λ h. (tt, there h), λ h. back h.1)
  ]
  links_narrow_iff (some parent) (raw ∷ proofs) ucan = elim (Option-cases (loads raw)) [
    | inl opaque ↦
        rw (opaque, parse_proofs, NarrowsFrom) (links_narrow_iff (some parent) proofs ucan)
    | inr (token, parsed) ↦
        let child = record token { raw = raw } in
        let (there, back) = links_narrow_iff (some child) proofs ucan in
        let (narrow, allowed) = Narrows-iff parent child in
        rw (parsed, parse_proofs, NarrowsFrom)
          (
            λ h. (narrow (ground arith), there (ground arith)),
            λ h. let link = allowed h.0 in let rest = back h.1 in ground arith,
          )
  ]

  -- What a token adds: it has not expired, one of its capabilities grants the tool, and its proofs
  -- narrow down to it.
  abbrev pub Permits : String → Option UcanToken → Type 0
  Permits tool_name none = Unit
  Permits tool_name (some ucan) =
      (past ucan.expires_at ≡ false)
      × Exists (Grants tool_name) ucan.capabilities
      × NarrowsFrom none ucan.proofs ucan

  -- The agent is on the list of revoked ones.
  abbrev pub IsRevoked : Option String → Option (String → Bool) → Type 0
  IsRevoked (some agent_did) (some revoked) = revoked agent_did ≡ true
  IsRevoked _ _ = ⊥

  -- No name and no pattern denies the tool.
  abbrev pub IsUndenied : ToolAcl → String → Type 0
  IsUndenied acl tool_name =
      All (λ tool. (tool == tool_name) ≡ false) acl.denied_tools
      × All (λ pattern. fnmatch tool_name pattern ≡ false) acl.deny_patterns

  -- All tools are allowed, or this one is by its name or by a pattern.
  abbrev pub IsAllowed : ToolAcl → String → Type 0
  IsAllowed acl tool_name =
      (acl.allow_all ≡ true)
      ⊎ (Exists (λ tool. tool ≡ tool_name) acl.allowed_tools
          ⊎ Exists (λ pattern. fnmatch tool_name pattern ≡ true) acl.allow_patterns)

  is_denied_iff :
      (acl : ToolAcl) (tool_name : String)
      → (is_denied fnmatch loads past acl tool_name ≡ false → IsUndenied acl tool_name)
        × (IsUndenied acl tool_name → is_denied fnmatch loads past acl tool_name ≡ false)
  unfolding is_denied
  is_denied_iff acl tool_name = (
    λ h. (none_to _ acl.denied_tools (ground arith), none_to _ acl.deny_patterns (ground arith)),
    λ h.
        let names = none_of _ acl.denied_tools h.0 in
        let patterns = none_of _ acl.deny_patterns h.1 in ground arith,
  )

  check_acl_only_iff :
      (acl : ToolAcl) (tool_name : String)
      → (check_acl_only fnmatch loads past acl tool_name ≡ true → IsAllowed acl tool_name)
        × (IsAllowed acl tool_name → check_acl_only fnmatch loads past acl tool_name ≡ true)
  unfolding check_acl_only
  check_acl_only_iff acl tool_name = (
    λ h. elim (Bool-cases acl.allow_all) [
      | inl all_allowed ↦ inl all_allowed
      | inr listed ↦ elim (Bool-cases (among tool_name acl.allowed_tools)) [
        | inl named ↦ inr (inl (any_to _ _ acl.allowed_tools (eq_Decides tool_name) named))
        | inr unnamed ↦ inr (
            inr (
              any_to (fnmatch tool_name) _ acl.allow_patterns (λ pattern. (λ m. m, λ m. m))
                (ground arith)))
      ]
    ],
    λ h. elim h [
      | inl all_allowed ↦ ground arith
      | inr (inl named) ↦
          let found = any_of _ _ acl.allowed_tools (eq_Decides tool_name) named in ground arith
      | inr (inr matched) ↦
          let found =
            any_of (fnmatch tool_name) _ acl.allow_patterns (λ pattern. (λ m. m, λ m. m)) matched in
          ground arith
    ],
  )

  proofs_iff :
      (proofs : List String) (ucan : UcanToken)
      → let fine =
          not (truthy proofs)
          || links_narrow (parse_proofs fnmatch loads past proofs ++ ucan ∷ []) in
        (fine ≡ true → NarrowsFrom none proofs ucan) × (NarrowsFrom none proofs ucan → fine ≡ true)
  proofs_iff [] ucan = (λ h. tt, λ h. refl)
  proofs_iff (raw ∷ proofs) ucan = links_narrow_iff none (raw ∷ proofs) ucan

  is_revoked_iff :
      (agent_did : Option String) (revocation_list : Option (String → Bool))
      → (is_revoked agent_did revocation_list ≡ false → ¬ IsRevoked agent_did revocation_list)
        × (¬ IsRevoked agent_did revocation_list → is_revoked agent_did revocation_list ≡ false)
  is_revoked_iff none none = (λ h r. r, λ h. refl)
  is_revoked_iff none (some revoked) = (λ h r. r, λ h. refl)
  is_revoked_iff (some agent_did) none = (λ h r. r, λ h. refl)
  is_revoked_iff (some agent_did) (some revoked) = (
    λ h r. cc,
    λ h. elim (Bool-cases (revoked agent_did)) [ inl r ↦ absurd (h r) | inr fine ↦ fine ],
  )

  -- A tool is authorized exactly when the agent is not on the revocation list; neither a name nor a
  -- pattern denies the tool; all tools are allowed, or it is by its name or by a pattern; and the
  -- token, if there is one, has not expired, has a capability for the tool or for all tools that is
  -- to invoke it or to do everything, and has proofs each of which, where it is a serialised token,
  -- covers the next one's capabilities, the last one the token's own.
  pub is_authorized_iff :
      (acl : ToolAcl) (tool_name : String) (ucan : Option UcanToken) (agent_did : Option String)
      (revocation_list : Option (String → Bool))
      → let allowed =
          is_authorized fnmatch loads past acl tool_name ucan agent_did revocation_list in
        let Conditions =
          (¬ IsRevoked agent_did revocation_list)
          × IsUndenied acl tool_name
          × IsAllowed acl tool_name
          × Permits tool_name ucan in
        (allowed ≡ ok true → Conditions) × (Conditions → allowed ≡ ok true)
  unfolding is_authorized decide validate_proof_chain
  is_authorized_iff acl tool_name none agent_did revocation_list =
      let (unrevoked, not_revoked) = is_revoked_iff agent_did revocation_list in
      let (undenied, not_denied) = is_denied_iff acl tool_name in
      let (allowed, is_allowed) = check_acl_only_iff acl tool_name in
      (
        λ h. (unrevoked (ground arith), undenied (ground arith), allowed (ground arith), tt),
        λ h.
            let r = not_revoked h.0 in
            let d = not_denied h.1 in let a = is_allowed h.2 in ground arith,
      )
  is_authorized_iff acl tool_name (some ucan) agent_did revocation_list =
      let (unrevoked, not_revoked) = is_revoked_iff agent_did revocation_list in
      let (undenied, not_denied) = is_denied_iff acl tool_name in
      let (allowed, is_allowed) = check_acl_only_iff acl tool_name in
      let (narrow, narrowed) = proofs_iff ucan.proofs ucan in
      let grants = grants_tool-Decides tool_name in
      (
        λ h. (
          unrevoked (ground arith),
          undenied (ground arith),
          allowed (ground arith),
          (
            ground arith,
            any_to (grants_tool tool_name) _ ucan.capabilities grants (ground arith),
            narrow (ground arith),
          ),
        ),
        λ h.
            let r = not_revoked h.0 in
            let d = not_denied h.1 in
            let a = is_allowed h.2 in
            let t = h.3.0 in
            let g = any_of (grants_tool tool_name) _ ucan.capabilities grants h.3.1 in
            let n = narrowed h.3.2 in ground arith,
      )
