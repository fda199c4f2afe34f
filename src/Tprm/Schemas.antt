-- ===== src/Tprm/Schemas.antt =====
-- src/orchestra_tprm/schemas.py. The citations and the raw data of a finding are left out.
use multi_agent_orchestratio.Base.{
  ℕ, Bool, true, false, Option, none, some, List, String, ◌==◌, if◌then◌else◌,
}
use multi_agent_orchestratio.Base.Int.{ℤ}
use multi_agent_orchestratio.Base.Dict.{Dict, get_or}

pub data Severity : Type 0 where
  low medium high critical : Severity

abbrev pub severity_name : Severity → String
severity_name low = "low"
severity_name medium = "medium"
severity_name high = "high"
severity_name critical = "critical"

-- `_coerce_severity`, of a text in lower case or of no severity.
unfoldable pub coerce_severity : Option String → Severity
coerce_severity none = medium
coerce_severity (some text) =
    if text == "low"
    then low
    else if text == "high"
    then high
    else if text == "critical"
    then critical
    else medium

abbrev pub is_critical : Severity → Bool
is_critical critical = true
is_critical _ = false

-- `severity in ("medium", "high", "critical")`.
abbrev pub is_medium_plus : Severity → Bool
is_medium_plus low = false
is_medium_plus _ = true

pub data IcDecision : Type 0 where
  deal_stopper price_adjustment spa_protection post_close_monitoring : IcDecision

pub record Finding : Type 0 where
  pub agent : String
  pub category : String
  pub severity : Severity
  pub summary : String
  pub id : String
  pub exposure_usd_range : Option (ℤ × ℤ)
  pub ic_decision : Option IcDecision
  pub workstream : Option String

pub record MaScope : Type 0 where
  pub enterprise_value_usd : Option ℤ
  pub materiality_threshold_usd : Option ℤ
  pub deal_breakers : List String

pub data Recommendation : Type 0 where
  proceed reprice walk : Recommendation

pub data Mitigation : Type 0 where
  price_chip indemnity escrow rwi earn_out condition_precedent post_close : Mitigation

pub data Probability : Type 0 where
  low_probability medium_probability high_probability : Probability

pub record IcRiskItem : Type 0 where
  pub finding_id : String
  pub workstream : String
  pub exposure_usd_range : Option (ℤ × ℤ)
  pub mitigation : Mitigation
  pub probability : Probability

-- `weights.get(f.severity, 0)`.
abbrev pub weight_of : Dict ℕ → Finding → ℕ
weight_of weights finding = get_or (severity_name finding.severity) 0 weights
