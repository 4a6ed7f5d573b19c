-- ===== src/Tests/QualityFixtures.antt =====
-- A small quality database, over numbers that are naturals.
use datagenie.Quality.Rules.{Call, QualityRuleCreate}
use datagenie.Prelude.{[], Option, ℕ, none, ◌∷◌, false, true, some, ◌-◌, ◌/◌, leb, ltb, eqb}
use datagenie.Prelude.Json.{Value, Fields, field, int, end, text, array, nil}
use datagenie.Quality.Numbers.{Numbers}
use datagenie.Quality.Models.{
  QualityRule, QualityIncident, AssetQualityContext, QualityRun, QualityTables, Db,
  BusinessCriticality, RunStatus, completeness, open_, certified, manual, RuleSeverity, uniqueness,
  resolved,
}
use datagenie.Quality.Runs.Results.{RunCall}
use datagenie.Quality.RuleEngine.Evaluations.{Evaluation}
use datagenie.Quality.Rules.{version_row}
use datagenie.Quality.Incidents.{IncidentUpdate}

abbrev pub of_value : Value → Option ℕ
of_value (int n) = some n
of_value _ = none

abbrev pub nums : Numbers ℕ
nums = record {
  of_value = of_value;
  to_value = int;
  zero = 0;
  infinite = 1000000;
  sub = λ a b. a - b;
  div = λ a b. a / b;
  abs = λ a. a;
  le = leb;
  lt = ltb;
  is_close = eqb;
  fixed = λ decimals a. "1";
  from_iso = λ s. none;
  iso = λ t. "t";
  minutes = λ s t. (t - s) / 60000000;
  non_negative = λ s. true;
  at_most_one = λ s. true;
}

abbrev pub profile : Fields
profile = field "row_count" (int 10) (field "null_count" (int 5) end)

abbrev pub rule : QualityRule
rule = record {
  id = "rule-1";
  asset_id = "a-1";
  column_name = none;
  name = "complete";
  rule_type = completeness;
  severity = RuleSeverity.critical;
  owner = some "owner";
  parameters = some (field "minimum_ratio" (int 1) end);
  version = 1;
  enabled = true;
  schedule_cron = none;
  next_run_at = none;
}

abbrev pub incident : QualityIncident
incident = record {
  id = "i-1";
  asset_id = "a-1";
  rule_id = "rule-1";
  latest_result_id = none;
  status = open_;
  severity = RuleSeverity.high;
  assignee = none;
  evidence = end;
  last_seen_at = 1;
  resolved_at = none;
}

abbrev pub context : AssetQualityContext
context = record {
  asset_id = "a-1";
  business_criticality = BusinessCriticality.critical;
  certification_status = certified;
  accountable_owner = some "owner";
  latest_explainable_run_at = some 3;
  latest_technical_score = some 90;
}

abbrev pub quality_run : QualityRun
quality_run = record {
  id = "run-1";
  asset_id = "a-1";
  status = RunStatus.queued;
  trigger = manual;
  requested_by = "steward";
  profile_snapshot = profile;
  effective_rule_versions = end;
  technical_score = none;
  explainable = false;
  error_message = none;
  started_at = none;
  completed_at = none;
}

abbrev pub tables : QualityTables
tables = record {
  rules = rule ∷ [];
  versions = version_row rule "steward" none ∷ [];
  runs = quality_run ∷ [];
  results = [];
  incidents = incident ∷ [];
  comments = [];
  profiles = [];
  contexts = context ∷ [];
}

abbrev pub db : Db
db = record { work = tables; saved = tables; faults = [] }

-- The third flush or commit raises.
abbrev pub faulty_db : Db
faulty_db = record db { faults = false ∷ false ∷ true ∷ [] }

abbrev pub run_call : RunCall
run_call = record {
  started_at = 10;
  now = λ rule_id. 11;
  completed_at = 12;
  result_id = λ rule_id. "result-1";
  incident_id = λ rule_id. "incident-1";
  broken = "OperationalError: gone";
  evaluation_error = λ rule_id. "KeyError: minimum_ratio";
}

abbrev pub call : Call
call = record { now = 20; new_id = "rule-2"; broken = "OperationalError: gone" }

abbrev pub rule_payload : QualityRuleCreate
rule_payload = record {
  asset_id = "a-1";
  column_name = some "email";
  name = "unique";
  rule_type = uniqueness;
  severity = RuleSeverity.low;
  owner = none;
  parameters = field "minimum_ratio" (int 1) end;
  schedule_cron = none;
  next_run_at = none;
}

abbrev pub incident_update : IncidentUpdate
incident_update = record { status = some (some resolved); assignee = none }

abbrev pub evaluation : Evaluation
evaluation = record {
  evaluated = true;
  passed = false;
  score = 0;
  observed_value =
      field "ratio" (int 0) (field "numerator" (int 5) (field "denominator" (int 10) end));
  expected_value = field "threshold" (int 1) (field "comparator" (text ">=") end);
  evidence = field "scope" (text "asset") (
      field "sample_rows" (array nil)
        (field "row_count" (int 10) (field "null_count" (int 5) end)));
  explanation = "Completeness ratio 1 >= required threshold 1: failed.";
}
