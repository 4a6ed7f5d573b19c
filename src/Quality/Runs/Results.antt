-- ===== src/Quality/Runs/Results.antt =====
-- What a run makes of one rule after the other: its result, and its incident if a severe rule failed.
-- What an execution draws: its clock, the identifiers of the rows it adds by the rule's, and the
-- texts of what the database or the evaluation of a rule raises.
use datagenie.Catalog.Models.{Instant}
use datagenie.Quality.Models.{
  RuleSeverity, IncidentStatus, QualityRun, QualityRule, QualityRuleResult, QualityIncident,
  QualityTables, Action, open_, failure, resolved,
}
use datagenie.Prelude.{
  String, Bool, true, List, ◌&&◌, Option, false, ◌==◌, some, ◌∷◌, not, if◌then◌else◌, ◌++◌, [], [],
  [], none, none,
}
use datagenie.Quality.Rules.{rule_definition}
use datagenie.Quality.Numbers.{Numbers}
use datagenie.Prelude.Json.{Fields, field, put_field, text, object, int, end}
use datagenie.Quality.RuleEngine.Evaluations.{Evaluation}
use datagenie.Prelude.Exec.{raise, pure, ◌>>=◌, ◌>>◌}
use datagenie.Quality.RuleEngine.{evaluate_rule}
use datagenie.Prelude.Store.{update_work, flush_or}

pub record RunCall : Type 0 where
  pub started_at : Instant
  pub now : String → Instant
  pub completed_at : Instant
  pub result_id : String → String
  pub incident_id : String → String
  pub broken : String
  pub evaluation_error : String → String

abbrev pub is_severe : RuleSeverity → Bool
is_severe RuleSeverity.high = true
is_severe RuleSeverity.critical = true
is_severe _ = false

abbrev pub is_resolved : IncidentStatus → Bool
is_resolved resolved = true
is_resolved _ = false

-- The incident that the query of `_upsert_incident` is after.
abbrev pub is_unresolved : String → String → QualityIncident → Bool
is_unresolved asset_id rule_id i =
    i.asset_id == asset_id && i.rule_id == rule_id && not (is_resolved i.status)

unfoldable pub incident_evidence : QualityRun → QualityRuleResult → Fields
incident_evidence run result = field "run_id" (text run.id) (
    field "result_id" (text result.id) (
      field "rule_version" (int result.rule_version) (
        field "observed_value" (object result.observed_value) (
          field "expected_value" (object result.expected_value) (
            field "evidence" (object result.evidence)
              (field "explanation" (text result.explanation) end))))))

unfoldable pub new_incident :
    RunCall → QualityRun → QualityRule → QualityRuleResult → QualityIncident
unfolding incident_evidence
new_incident call run rule result = record {
  id = call.incident_id rule.id;
  asset_id = run.asset_id;
  rule_id = rule.id;
  latest_result_id = some result.id;
  status = open_;
  severity = rule.severity;
  assignee = rule.owner;
  evidence = incident_evidence run result;
  last_seen_at = call.now rule.id;
  resolved_at = none;
}

unfoldable pub seen_again :
    RunCall → QualityRun → QualityRule → QualityRuleResult → QualityIncident → QualityIncident
unfolding incident_evidence
seen_again call run rule result incident = record incident {
  latest_result_id = some result.id;
  severity = rule.severity;
  evidence = incident_evidence run result;
  last_seen_at = call.now rule.id;
}

-- The first row that passes the test is written over; without one, a row is added.
unfoldable pub upsert_first : {A : Type 0} → (A → Bool) → (A → A) → A → List A → List A
upsert_first p f new [] = new ∷ []
upsert_first p f new (x ∷ xs) =
    let rest = upsert_first p f new xs in if p x then f x ∷ xs else x ∷ rest

abbrev pub raises_incident : QualityRule → QualityRuleResult → Bool
raises_incident rule result = is_severe rule.severity && not result.passed && result.evaluated

unfoldable pub upsert_incident :
    RunCall → QualityRun → QualityRule → QualityRuleResult → QualityTables → QualityTables
unfolding new_incident seen_again upsert_first
upsert_incident call run rule result t =
    if raises_incident rule result
    then record t {
      incidents =
          upsert_first (is_unresolved run.asset_id rule.id) (seen_again call run rule result)
            (new_incident call run rule result) t.incidents;
    }
    else t

unfoldable pub new_result : RunCall → QualityRun → QualityRule → Evaluation → QualityRuleResult
unfolding rule_definition
new_result call run rule e = record {
  id = call.result_id rule.id;
  run_id = run.id;
  rule_id = rule.id;
  rule_version = rule.version;
  rule_type = rule.rule_type;
  column_name = rule.column_name;
  evaluated = e.evaluated;
  passed = e.passed;
  score = e.score;
  observed_value = e.observed_value;
  expected_value = e.expected_value;
  evidence = put_field "rule_definition" (object (rule_definition rule)) e.evidence;
  explanation = e.explanation;
}

abbrev pub add_result : QualityRuleResult → QualityTables → QualityTables
add_result r t = record t { results = t.results ++ r ∷ [] }

abbrev pub evaluation_or : {A : Type 0} → String → Option A → Action A
evaluation_or broken none = raise (failure broken)
evaluation_or broken (some a) = pure a

module _ {W : Type 0} (nums : Numbers W) where
  -- The body of the loop.
  unfoldable pub run_rule : RunCall → QualityRun → QualityRule → Action QualityRuleResult
  run_rule call run rule = do
    e ←
        evaluation_or (call.evaluation_error rule.id)
          (evaluate_rule nums rule run.profile_snapshot (call.now rule.id))
    update_work (add_result (new_result call run rule e))
    flush_or (failure call.broken)
    update_work (upsert_incident call run rule (new_result call run rule e))
    pure (new_result call run rule e)

  unfoldable pub run_rules :
      RunCall → QualityRun → List QualityRule → Action (List (QualityRule × QualityRuleResult))
  run_rules call run [] = pure []
  run_rules call run (rule ∷ rules) = do
    result ← run_rule call run rule
    rest ← run_rules call run rules
    pure ((rule, result) ∷ rest)
