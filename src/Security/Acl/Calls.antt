-- ===== src/Security/Acl/Calls.antt =====
-- How often a token lets a tool be called.
use multi_agent_orchestratio.Base.{
  ℕ, suc, ◌+◌, ◌≤◌, false, Option, none, some, List, [], ◌∷◌, String, ◌==◌, ◌&&◌, ◌≡◌, refl, arith,
  if◌then◌else◌, eq_iff, eq_refl, ◌⊎◌, inl, inr, Bool-cases,
}
use multi_agent_orchestratio.Base.Dict.{Dict, get_or, insert, lookup-insert}
use multi_agent_orchestratio.Identity.Types.{UcanCapability}
use multi_agent_orchestratio.Security.Acl.{grants_tool, check_ucan_call_limit}

-- The capability that decides about a tool.
unfoldable pub deciding : String → List UcanCapability → Option UcanCapability
deciding tool_name [] = none
deciding tool_name (cap ∷ capabilities) =
    if grants_tool tool_name cap then some cap else deciding tool_name capabilities

-- How many of the calls, of these tools one after the other, are granted to one tool.
unfoldable pub granted : String → List UcanCapability → List String → Dict ℕ → ℕ
unfolding check_ucan_call_limit
granted tool_name capabilities [] call_counts = 0
granted tool_name capabilities (called ∷ calls) call_counts =
    let (allowed, counted) = check_ucan_call_limit called capabilities call_counts in
    let rest = granted tool_name capabilities calls counted in
    if allowed && called == tool_name then suc rest else rest

get_or-insert :
    (k j : String) (v : ℕ) (d : Dict ℕ)
    → get_or j 0 (insert k v d) ≡ (if k == j then v else get_or j 0 d)
get_or-insert k j v d = ground (arith, lookup-insert k j v d)

-- A call of another tool leaves the count.
other_call :
    (tool_name called : String) (capabilities : List UcanCapability) (call_counts : Dict ℕ)
    → (called == tool_name) ≡ false
    → get_or tool_name 0 (check_ucan_call_limit called capabilities call_counts).1
      ≡ get_or tool_name 0 call_counts
unfolding check_ucan_call_limit
other_call tool_name called [] call_counts h = refl
other_call tool_name called (cap ∷ capabilities) call_counts h = ground (
  arith,
  other_call tool_name called capabilities call_counts h,
  get_or-insert called tool_name (get_or called 0 call_counts + 1) call_counts,
)

-- A call of the tool itself is granted only below its maximum, and then counted.
own_call :
    (tool_name : String) (capabilities : List UcanCapability) (call_counts : Dict ℕ)
    {cap : UcanCapability} {limit : ℕ}
    → deciding tool_name capabilities ≡ some cap
    → cap.max_calls ≡ some limit
    → let (allowed, counted) = check_ucan_call_limit tool_name capabilities call_counts in
      let before = get_or tool_name 0 call_counts in
      let after = get_or tool_name 0 counted in
      (if allowed then suc before else before) ≡ after × (after ≤ limit ⊎ (allowed ≡ false))
unfolding check_ucan_call_limit deciding
own_call tool_name [] call_counts h k = cc
own_call tool_name (c ∷ capabilities) call_counts {cap} {limit} h k =
    let current = get_or tool_name 0 call_counts in
    elim (Bool-cases (grants_tool tool_name c)) [
      | inr skips ↦
          rw (skips, check_ucan_call_limit)
            (own_call tool_name capabilities call_counts {cap = cap} {limit = limit}
              (rw (skips, deciding) at h) k)
      | inl decides ↦
          let same : c.max_calls ≡ some limit = ground (arith, rw (decides, deciding) at h) in
          ground (
            arith,
            decides,
            same,
            get_or-insert tool_name tool_name (current + 1) call_counts,
            eq_refl tool_name,
          )
    ]

-- A capability with `max_calls` grants a tool at most so many calls, counting those before, however
-- calls of this and other tools alternate.
pub granted-max_calls :
    (tool_name : String) (capabilities : List UcanCapability) (calls : List String)
    (call_counts : Dict ℕ) {cap : UcanCapability} {limit : ℕ}
    → deciding tool_name capabilities ≡ some cap
    → cap.max_calls ≡ some limit
    → get_or tool_name 0 call_counts ≤ limit
    → get_or tool_name 0 call_counts + granted tool_name capabilities calls call_counts ≤ limit
unfolding granted
granted-max_calls tool_name capabilities [] call_counts h k room = omega arith
granted-max_calls tool_name capabilities (called ∷ calls) call_counts {cap} {limit} h k room =
    let counted = (check_ucan_call_limit called capabilities call_counts).1 in
    let rest =
      granted-max_calls tool_name capabilities calls counted {cap = cap} {limit = limit} h k in
    elim (Bool-cases (called == tool_name)) [
      | inl same ↦
          let is_called = (eq_iff called tool_name).0 same in
          let own = own_call tool_name capabilities call_counts {cap = cap} {limit = limit} h k in
          ground (arith, same, is_called, own, rest)
      | inr other ↦
          ground (arith, other, rest, other_call tool_name called capabilities call_counts other)
    ]
