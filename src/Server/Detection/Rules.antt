-- ===== src/Server/Detection/Rules.antt =====
-- The severities and the form of a rule, server/app/detection/rules.py.
pub mod Pack
pub mod Seed
use silentguard_xdr.Server.Detection.Matchers.{EventContext}
use silentguard_xdr.Prelude.{ℕ, String, Bool, List}

-- `class Severity`
pub data Severity : Type 0 where
  low medium high critical : Severity

-- `severity.value`
unfoldable pub severity_value : Severity → String
severity_value low = "low"
severity_value medium = "medium"
severity_value high = "high"
severity_value critical = "critical"

-- `SEVERITY_SCORE`
unfoldable pub severity_score : Severity → ℕ
severity_score low = 10
severity_score medium = 30
severity_score high = 60
severity_score critical = 90

-- `class Rule`
pub record Rule : Type 0 where
  pub id : String
  pub name : String
  pub severity : Severity
  pub technique_id : String
  pub technique_name : String
  pub description : String
  pub matches : EventContext → Bool
  pub responses : List String
