-- ===== src/Quality/Models.antt =====
-- The tables of apps/quality-api/app/models/quality.py, and the service's session. What the
-- database fills in by itself (row ids that nothing reads, creation times) is left out.
use datagenie.Prelude.{String, List, ℕ, Option, Bool}
use datagenie.Prelude.Store.{Store}
use datagenie.Prelude.Exec.{Exec}
use datagenie.Prelude.Json.{Fields}
use datagenie.Catalog.Models.{Instant}

pub data RuleType : Type 0 where
  completeness uniqueness validity freshness referential_integrity distribution_anomaly : RuleType

pub data RuleSeverity : Type 0 where
  low medium high critical : RuleSeverity

pub data RunStatus : Type 0 where
  queued running succeeded failed cancelled : RunStatus

pub data RunTrigger : Type 0 where
  manual scheduled : RunTrigger

pub data IncidentStatus : Type 0 where
  open_ acknowledged resolved : IncidentStatus

pub data BusinessCriticality : Type 0 where
  low medium high critical : BusinessCriticality

pub data CertificationStatus : Type 0 where
  under_review certified deprecated : CertificationStatus

pub record QualityRule : Type 0 where
  pub id : String
  pub asset_id : String
  pub column_name : Option String
  pub name : String
  pub rule_type : RuleType
  pub severity : RuleSeverity
  pub owner : Option String
  pub parameters : Option Fields  -- `none`: the JSON `null`, which an update can set
  pub version : ℕ
  pub enabled : Bool
  pub schedule_cron : Option String
  pub next_run_at : Option Instant

pub record QualityRuleVersion : Type 0 where
  pub rule_id : String
  pub version : ℕ
  pub definition : Fields
  pub changed_by : String
  pub change_reason : Option String

pub record QualityRun : Type 0 where
  pub id : String
  pub asset_id : String
  pub status : RunStatus
  pub trigger : RunTrigger
  pub requested_by : String
  pub profile_snapshot : Fields
  pub effective_rule_versions : Fields
  pub technical_score : Option ℕ
  pub explainable : Bool
  pub error_message : Option String
  pub started_at : Option Instant
  pub completed_at : Option Instant

pub record QualityRuleResult : Type 0 where
  pub id : String
  pub run_id : String
  pub rule_id : String
  pub rule_version : ℕ
  pub rule_type : RuleType
  pub column_name : Option String
  pub evaluated : Bool
  pub passed : Bool
  pub score : ℕ
  pub observed_value : Fields
  pub expected_value : Fields
  pub evidence : Fields
  pub explanation : String

pub record QualityIncident : Type 0 where
  pub id : String
  pub asset_id : String
  pub rule_id : String
  pub latest_result_id : Option String
  pub status : IncidentStatus
  pub severity : RuleSeverity
  pub assignee : Option String
  pub evidence : Fields
  pub last_seen_at : Instant
  pub resolved_at : Option Instant

pub record QualityIncidentComment : Type 0 where
  pub incident_id : String
  pub author : String
  pub body : String

pub record AssetQualityProfile : Type 0 where
  pub asset_id : String
  pub snapshot : Fields
  pub observed_at : Instant
  pub profiled_by : String

pub record AssetQualityContext : Type 0 where
  pub asset_id : String
  pub business_criticality : BusinessCriticality
  pub certification_status : CertificationStatus
  pub accountable_owner : Option String
  pub latest_explainable_run_at : Option Instant
  pub latest_technical_score : Option ℕ

pub record QualityTables : Type 0 where
  pub rules : List QualityRule
  pub versions : List QualityRuleVersion
  pub runs : List QualityRun
  pub results : List QualityRuleResult
  pub incidents : List QualityIncident
  pub comments : List QualityIncidentComment
  pub profiles : List AssetQualityProfile
  pub contexts : List AssetQualityContext

abbrev pub Db : Type 0
Db = Store QualityTables

-- `HTTPException` with its status and code, or anything else, by the text that a failed run keeps:
-- the type's name and the first 500 characters of the message.
pub data QualityError : Type 0 where
  http : ℕ → String → QualityError
  failure : String → QualityError

abbrev pub Action : Type 0 → Type 0
Action A = Exec Db QualityError A

-- `rule_type.value` and `severity.value`
abbrev pub type_text : RuleType → String
type_text completeness = "completeness"
type_text uniqueness = "uniqueness"
type_text validity = "validity"
type_text freshness = "freshness"
type_text referential_integrity = "referential_integrity"
type_text distribution_anomaly = "distribution_anomaly"

abbrev pub severity_text : RuleSeverity → String
severity_text RuleSeverity.low = "low"
severity_text RuleSeverity.medium = "medium"
severity_text RuleSeverity.high = "high"
severity_text RuleSeverity.critical = "critical"
