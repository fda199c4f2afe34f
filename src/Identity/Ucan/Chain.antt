-- ===== src/Identity/Ucan/Chain.antt =====
-- What a verified token rests on.
use multi_agent_orchestratio.Base.{
  ℕ, zero, suc, true, Option, some, List, [], ◌∷◌, String, Result, ok, bind-eq-ok, from_option,
  from_option-eq-ok, ◌≡◌, refl, ap, arith, truthy, Bool-cases, inl, inr, ◌⊎◌, Result-cases, ok_inj,
  sym, ◌∙◌, ◌==◌, ◌+◌, ◌≤◌, ◌+++◌, false, none, eq_iff, starts_with, ends_with, without_last_two,
}
use multi_agent_orchestratio.Base.Exists.{Exists, Decides, any_to}
use multi_agent_orchestratio.Identity.Types.{UcanCapability, UcanToken}
use multi_agent_orchestratio.Identity.Ucan.{
  Payload, Attenuation, or_blank, resource_match, entry_grants, check_capability, verify_claims,
  granted_by_proof, named_issuer, verify_leaf, verify_proofs, verify_delegation_chain,
  is_passed_over,
}

-- The text is one of the list.
abbrev pub Listed : String → List String → Type 0
Listed text [] = ⊥
Listed text (x ∷ xs) = (x ≡ text) ⊎ Listed text xs

granted_by_proof-eq-ok :
    (verify_proof : String → Result UcanToken) (proofs : List String)
    → granted_by_proof verify_proof proofs ≡ ok true
    → (proof : String) × (token : UcanToken) × Listed proof proofs × (verify_proof proof ≡ ok token)
unfolding granted_by_proof
granted_by_proof-eq-ok verify_proof [] h = cc
granted_by_proof-eq-ok verify_proof (proof ∷ proofs) h = elim (Result-cases (verify_proof proof)) [
  | inl (token, verified) ↦ (proof, token, inl refl, verified)
  | inr (e, failed) ↦ elim (Bool-cases (is_passed_over e)) [
    | inr stops ↦ cc (rw (failed, stops, granted_by_proof) at h)
    | inl passed ↦
        let (found, token, listed, verified) =
          granted_by_proof-eq-ok verify_proof proofs (rw (failed, passed, granted_by_proof) at h) in
        (found, token, inr listed, verified)
  ]
]

list-cases : (texts : List String) → (texts ≡ []) ⊎ (truthy texts ≡ true)
list-cases [] = inl refl
list-cases (text ∷ texts) = inr refl

module _ {Key : Type 0} (unverified : String → Option Payload) (issuer_key : String → Result Key)
    (decode : String → Key → Option Payload) (now : ℕ) (required : UcanCapability) where
  -- An entry with the capability's ability or any, and with its resource or a namespace above it.
  abbrev pub Grants : Attenuation → Type 0
  Grants entry =
      ((or_blank entry.with_resource ≡ required.resource)
        ⊎ ((ends_with (or_blank entry.with_resource) "/*" ≡ true)
            × (starts_with required.resource
                  (without_last_two (or_blank entry.with_resource) +++ "/")
                ≡ true)))
      × ((or_blank entry.can ≡ required.ability) ⊎ (or_blank entry.can ≡ "*"))

  -- The token names its issuer, whose key signed it; it is in time (with a minute's leeway for its
  -- begin), is meant for the audience, if one is expected, and grants the capability.
  pub record IsSigned (token audience issuer : String) (payload : Payload) : Type 0 where
    pub claimed : Payload
    pub parses : unverified token ≡ some claimed
    pub names_issuer : claimed.iss ≡ some issuer
    pub issuer_is_named : (issuer == "") ≡ false
    pub key : Key
    pub resolved : issuer_key issuer ≡ ok key
    pub signed : decode token key ≡ some payload
    pub unexpired : now ≤ payload.exp
    pub begun : payload.nbf ≤ now + 60
    pub for_audience : (audience == "") ≡ false → payload.aud ≡ some audience
    pub grants : Exists Grants payload.att

  -- Each token of the chain is signed and grants the capability, each proof is meant for the issuer
  -- of the token that it proves, and the last needs no proof.
  pub data IsBacked : String → String → Type 0 where
    root :
        {token audience : String} (issuer : String) (payload : Payload)
        → IsSigned token audience issuer payload
        → payload.prf ≡ []
        → IsBacked token audience
    link :
        {token audience : String} (issuer : String) (payload : Payload) (proof : String)
        → IsSigned token audience issuer payload
        → Listed proof payload.prf
        → IsBacked proof issuer
        → IsBacked token audience

  entry_grants-Decides : Decides (entry_grants required) Grants
  unfolding entry_grants resource_match
  entry_grants-Decides entry =
      let same = eq_iff (or_blank entry.with_resource) required.resource in
      let able = eq_iff (or_blank entry.can) required.ability in
      let all_able = eq_iff (or_blank entry.can) "*" in (λ h. ground arith, λ h. ground arith)

  named_issuer-eq-ok :
      (iss : Option String) {issuer : String}
      → named_issuer iss ≡ ok issuer
      → (iss ≡ some issuer) × ((issuer == "") ≡ false)
  named_issuer-eq-ok none h = cc
  named_issuer-eq-ok (some did) h = elim (Bool-cases (did == "")) [
    | inl empty ↦ cc (rw empty at h)
    | inr named ↦ let same = ok_inj (rw named at h) in (ap some same, rw (← same) named)
  ]

  verify_claims-same :
      (payload : Payload) (audience : String) {checked : Payload}
      → verify_claims now payload audience ≡ ok checked
      → payload ≡ checked
  unfolding verify_claims
  verify_claims-same payload audience {checked} h = ground arith

  verify_claims-time :
      (payload : Payload) (audience : String) {checked : Payload}
      → verify_claims now payload audience ≡ ok checked
      → (now ≤ payload.exp) × (payload.nbf ≤ now + 60)
  unfolding verify_claims
  verify_claims-time payload audience h = (ground arith, ground arith)

  meant_for :
      (aud : Option String) (audience : String)
      → (elim aud [ none ↦ false | some a ↦ a == audience ]) ≡ true
      → aud ≡ some audience
  meant_for none audience h = cc
  meant_for (some a) audience h = ap some ((eq_iff a audience).0 h)

  verify_claims-audience :
      (payload : Payload) (audience : String) {checked : Payload}
      → verify_claims now payload audience ≡ ok checked
      → (audience == "") ≡ false
      → payload.aud ≡ some audience
  unfolding verify_claims
  verify_claims-audience payload audience h expected = meant_for payload.aud audience (ground arith)

  verify_leaf-IsSigned :
      (token audience : String) {issuer : String} {payload : Payload}
      → verify_leaf unverified issuer_key decode now token required audience ≡ ok (issuer, payload)
      → IsSigned token audience issuer payload
  unfolding verify_leaf check_capability
  verify_leaf-IsSigned token audience {issuer} {payload} h =
      let (claimed, parsed, h1) = bind-eq-ok (from_option _ (unverified token)) _ h in
      let (did, named, h2) = bind-eq-ok (named_issuer claimed.iss) _ h1 in
      let (key, resolved, h3) = bind-eq-ok (issuer_key did) _ h2 in
      let (signed, decoded, h4) = bind-eq-ok (from_option _ (decode token key)) _ h3 in
      let (checked, timely, h5) = bind-eq-ok (verify_claims now signed audience) _ h4 in
      let own = verify_claims-same signed audience timely in
      elim (Bool-cases (check_capability checked required)) [
        | inr denied ↦ cc (rw denied at h5)
        | inl grants ↦
            let same = ok_inj (rw grants at h5) in
            let (names, non_empty) = named_issuer-eq-ok claimed.iss named in
            let checked_again : verify_claims now checked audience ≡ ok checked =
              ap (λ p. verify_claims now p audience) (sym own) ∙ timely in
            let (unexpired, begun) = verify_claims-time checked audience checked_again in
            rw (← ap (λ leaf. leaf.0) same, ← ap (λ leaf. leaf.1) same)
              (record {
                claimed = claimed;
                parses = from_option-eq-ok _ _ parsed;
                names_issuer = names;
                issuer_is_named = non_empty;
                key = key;
                resolved = resolved;
                signed = from_option-eq-ok _ _ decoded ∙ ap some own;
                unexpired = unexpired;
                begun = begun;
                for_audience = verify_claims-audience checked audience checked_again;
                grants = any_to _ _ checked.att entry_grants-Decides grants;
              })
      ]

  -- A token that is verified rests on a chain of tokens down to one that needs no proof: each names
  -- an issuer and is signed by its key, has not expired and begins within a minute, is meant for the
  -- issuer of the token that it proves (the first for the expected audience, if there is one), and
  -- grants the required capability.
  pub verify_delegation_chain-IsBacked :
      (depth : ℕ) (token_str expected_audience : String) {token : UcanToken}
      → verify_delegation_chain unverified issuer_key decode now depth required token_str
          expected_audience
        ≡ ok token
      → IsBacked token_str expected_audience
  unfolding verify_delegation_chain verify_proofs
  verify_delegation_chain-IsBacked zero token_str expected_audience h = cc
  verify_delegation_chain-IsBacked (suc depth) token_str expected_audience h =
      let ((issuer, payload), leaf, proved) =
        bind-eq-ok
          (verify_leaf unverified issuer_key decode now token_str required expected_audience) _ h in
      let signed = verify_leaf-IsSigned token_str expected_audience leaf in
      let verify_proof = λ (proof : String).
        verify_delegation_chain unverified issuer_key decode now depth required proof issuer in
      elim (list-cases payload.prf) [
        | inl none_given ↦ root issuer payload signed none_given
        | inr given ↦
            let (granted, found, rest) =
              bind-eq-ok (granted_by_proof verify_proof payload.prf) _ (rw given at proved) in
            elim (Bool-cases granted) [
              | inr refused ↦ cc (rw refused at rest)
              | inl accepted ↦
                  let (proof, _, listed, verified) =
                    granted_by_proof-eq-ok verify_proof payload.prf (rw accepted at found) in
                  link issuer payload proof signed listed
                    (verify_delegation_chain-IsBacked depth proof issuer verified)
            ]
      ]
