-- ===== src/Identity/Baggage/RoundTrip.antt =====
-- A delegation context survives the baggage.
use Prim.Native.Char.{Char}
use Prim.Native.String.{char_at}
use text.Mathlib.TextLemmas.{nil-append, cons-append}
use multi_agent_orchestratio.Base.{
  ℕ, suc, ◌≤◌, false, some, List, [], ◌∷◌, ◌++◌, String, Result, ok, ◌≡◌, refl, ap, ◌∙◌, arith,
  length, last, get_elem?, All, leb, ◌+++◌, length-append, Bool-cases, inl, inr, ok_inj,
  Result-cases, append-nil, append_assoc, sym,
}
use multi_agent_orchestratio.Identity.Types.{DelegationContext, root, delegate_to}
use multi_agent_orchestratio.Identity.Baggage.{
  is_comma, join, split, to_baggage_value, from_baggage_value,
}

-- No character of the text is a comma.
abbrev pub HasNoComma : String → Type 0
HasNoComma String.[] = Unit
HasNoComma (String.◌∷◌ c text) = (is_comma c ≡ false) × HasNoComma text

split-plain : (text : String) → HasNoComma text → split text ≡ text ∷ []
unfolding split
split-plain String.[] h = refl
split-plain (String.◌∷◌ c text) h = rw (h.0, split-plain text h.1) refl

abbrev comma : Char
comma = char_at "," 0

comma_append : (rest : String) → "," +++ rest ≡ String.◌∷◌ comma rest
comma_append rest =
    cons-append comma String.[] rest ∙ ap (λ text. String.◌∷◌ comma text) (nil-append rest)

split-joined :
    (text rest : String) → HasNoComma text → split (text +++ ("," +++ rest)) ≡ text ∷ split rest
unfolding split
split-joined String.[] rest h = ap split (nil-append ("," +++ rest) ∙ comma_append rest)
split-joined (String.◌∷◌ c text) rest h =
    ap split (cons-append c text ("," +++ rest)) ∙ (rw (h.0, split-joined text rest h.1) refl)

split-join :
    (text : String) (texts : List String)
    → All HasNoComma (text ∷ texts)
    → split (join (text ∷ texts)) ≡ text ∷ texts
unfolding join
split-join text [] h = split-plain text h.0
split-join text (next ∷ texts) h =
    split-joined text (join (next ∷ texts)) h.0
    ∙ ap (λ rest. text ∷ rest) (split-join next texts h.1)

split-join_chain :
    (chain : List String) → 1 ≤ length chain → All HasNoComma chain → split (join chain) ≡ chain
split-join_chain [] h plain = absurd (omega arith)
split-join_chain (text ∷ texts) h plain = split-join text texts plain

-- The chain runs from the issuer to the current agent, and the depth counts its links.
pub record IsValid (context : DelegationContext) : Type 0 where
  pub first : get_elem? context.chain 0 ≡ some context.issuer_did
  pub current : last context.chain ≡ some context.current_did
  pub links : length context.chain ≡ suc context.depth
  pub within : context.depth ≤ context.max_depth

last-append : {A : Type 0} (xs : List A) (x : A) → last (xs ++ x ∷ []) ≡ some x
last-append [] x = refl
last-append (y ∷ []) x = refl
last-append (y ∷ z ∷ xs) x = last-append (z ∷ xs) x

first-append :
    {A : Type 0} (xs ys : List A) {x : A}
    → get_elem? xs 0 ≡ some x
    → get_elem? (xs ++ ys) 0 ≡ some x
first-append [] ys h = cc
first-append (y ∷ xs) ys h = h

-- Each of these agents delegates to the next.
unfoldable pub delegate_all : List String → DelegationContext → Result DelegationContext
unfolding delegate_to
delegate_all [] context = ok context
delegate_all (did ∷ dids) context = elim (delegate_to did context) [
  | ok next ↦ delegate_all dids next
  | Result.raise e ↦ Result.raise e
]

delegate_to-IsValid :
    (did : String) (context : DelegationContext) {next : DelegationContext}
    → IsValid context
    → delegate_to did context ≡ ok next
    → IsValid next × (next.max_depth ≡ context.max_depth) × (next.chain ≡ context.chain ++ did ∷ [])
unfolding delegate_to
delegate_to-IsValid did context {next} v h =
    elim (Bool-cases (leb context.max_depth context.depth)) [
      | inl full ↦ cc (rw (full, delegate_to) at h)
      | inr room ↦
          let made = ok_inj (rw (room, delegate_to) at h) in
          rw (← made) (
            record {
              first = first-append context.chain (did ∷ []) v.first;
              current = last-append context.chain did;
              links = omega (arith, length-append context.chain (did ∷ []), v.links);
              within = ground (arith, room, v.links, length-append context.chain (did ∷ []));
            },
            refl,
            refl,
          )
    ]

delegate_all-IsValid :
    (dids : List String) (context : DelegationContext) {reached : DelegationContext}
    → IsValid context
    → delegate_all dids context ≡ ok reached
    → IsValid reached
      × (reached.max_depth ≡ context.max_depth)
      × (reached.chain ≡ context.chain ++ dids)
unfolding delegate_all
delegate_all-IsValid [] context v h = rw (← ok_inj h) (v, refl, sym (append-nil context.chain))
delegate_all-IsValid (did ∷ dids) context v h = elim (Result-cases (delegate_to did context)) [
  | inr (e, failed) ↦ cc (rw (failed, delegate_all) at h)
  | inl (next, made) ↦
      let (next-v, same, grown) = delegate_to-IsValid did context v made in
      let (reached-v, kept, longer) =
        delegate_all-IsValid dids next next-v (rw (made, delegate_all) at h) in
      (
        reached-v,
        kept ∙ same,
        longer ∙ (ap (λ chain. chain ++ dids) grown ∙ append_assoc context.chain (did ∷ []) dids),
      )
]

-- After any delegations from a root that all succeed, the context lists exactly the agents from the
-- root on, in order, knows the first and the last of them, and is no deeper than `max_depth`.
pub delegate_all-root :
    (did : String) (max_depth : ℕ) (dids : List String) {reached : DelegationContext}
    → delegate_all dids (root did max_depth) ≡ ok reached
    → IsValid reached × (reached.max_depth ≡ max_depth) × (reached.chain ≡ did ∷ dids)
unfolding root
delegate_all-root did max_depth dids h =
    delegate_all-IsValid dids (root did max_depth)
      (record { first = refl; current = refl; links = refl; within = omega arith }) h

-- A valid context whose agents' names have no comma is read back from the text that carries it.
pub from_baggage_value-to_baggage_value :
    (context : DelegationContext)
    → IsValid context
    → All HasNoComma context.chain
    → from_baggage_value (to_baggage_value context) context.max_depth ≡ context
unfolding from_baggage_value to_baggage_value
from_baggage_value-to_baggage_value context v plain =
    let read : split (join context.chain) ≡ context.chain =
      split-join_chain context.chain (omega (arith, v.links)) plain in
    rw read (ground (arith, v.first, v.current, v.links))
