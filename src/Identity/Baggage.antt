-- ===== src/Identity/Baggage.antt =====
-- The delegation chain as one text: `to_baggage_value` and `from_baggage_value` of
-- src/orchestra/identity/types.py.
pub mod RoundTrip
use Prim.Native.Char.{Char, code}
use multi_agent_orchestratio.Base.{
  ℕ, ◌-◌, Bool, List, [], ◌∷◌, String, if◌then◌else◌, eqb, length, last, get_elem?, Option, none,
  some, ◌+++◌,
}
use multi_agent_orchestratio.Identity.Types.{DelegationContext}

abbrev pub is_comma : Char → Bool
is_comma c = eqb (code c) b','

-- `",".join(texts)`.
unfoldable pub join : List String → String
join [] = ""
join (text ∷ []) = text
join (text ∷ next ∷ texts) = text +++ ("," +++ join (next ∷ texts))

abbrev pub prepend : Char → List String → List String
prepend c [] = String.◌∷◌ c String.[] ∷ []
prepend c (text ∷ texts) = String.◌∷◌ c text ∷ texts

-- `text.split(",")`.
unfoldable pub split : String → List String
split String.[] = String.[] ∷ []
split (String.◌∷◌ c text) =
    let rest = split text in if is_comma c then String.[] ∷ rest else prepend c rest

abbrev pub or_empty : Option String → String
or_empty none = ""
or_empty (some text) = text

unfoldable pub to_baggage_value : DelegationContext → String
unfolding join
to_baggage_value context = join context.chain

-- The first and the last of the pieces, of which there is always one.
unfoldable pub from_baggage_value : String → ℕ → DelegationContext
unfolding split
from_baggage_value value max_depth =
    let dids = split value in
    record {
      chain = dids;
      issuer_did = or_empty (get_elem? dids 0);
      current_did = or_empty (last dids);
      depth = length dids - 1;
      max_depth = max_depth;
    }
