-- ===== src/Quality/Runs.antt =====
-- apps/quality-api/app/services/execution_service.py. A run is executed by a worker; its session
-- starts with nothing written.
pub mod Scores
pub mod Results
pub mod Kept
pub mod Failed
pub mod Scored
pub mod Finished
pub mod Incidents
pub mod Single
pub mod Schedules
use datagenie.Prelude.{
  List, String, some, Option, Bool, keep, none, true, ◌∷◌, ◌==◌, false, ◌&&◌, if◌then◌else◌, [],
}
use datagenie.Quality.Runs.Results.{RunCall, run_rules}
use datagenie.Quality.Models.{
  http, QualityRun, QualityError, Action, RunStatus, QualityRule, AssetQualityContext, Db,
  QualityRuleResult, failure,
}
use datagenie.Quality.Numbers.{Numbers}
use datagenie.Prelude.Exec.{ok, ◌>>=◌, gets, pure, ◌>>◌, Result, raise, raised}
use datagenie.Prelude.Store.{update_work, commit_or}
use datagenie.Prelude.Json.{Fields, end, put_field, int}
use datagenie.Quality.Assets.{write_run, get_run, get_or_create_context, write_context}
use datagenie.Quality.Runs.Scores.{technical_score, is_explainable}

abbrev pub effective_versions : List QualityRule → Fields → Fields
effective_versions [] versions = versions
effective_versions (rule ∷ rules) versions =
    effective_versions rules (put_field rule.id (int rule.version) versions)

abbrev pub finished :
    RunCall → QualityRun → List QualityRule → List (QualityRule × QualityRuleResult) → QualityRun
finished call run rules results = record run {
  effective_rule_versions = effective_versions rules end;
  technical_score = technical_score results;
  explainable = is_explainable results;
  status = RunStatus.succeeded;
  completed_at = some call.completed_at;
}

abbrev pub scored_context : QualityRun → AssetQualityContext → AssetQualityContext
scored_context run context = record context {
  latest_explainable_run_at = run.completed_at;
  latest_technical_score = run.technical_score;
}

abbrev pub rules_of : QualityRun → Db → List QualityRule
rules_of run db = keep (λ r. r.asset_id == run.asset_id && r.enabled) db.work.rules

-- The `try` block after its loop.
unfoldable pub finish_run : RunCall → QualityRun → Action QualityRun
unfolding get_or_create_context commit_or
finish_run call finished_run = do
  update_work (write_run finished_run)
  context ← get_or_create_context call.broken finished_run.asset_id
  (if finished_run.explainable
      then update_work (write_context (scored_context finished_run context))
      else pure tt)
  commit_or (failure call.broken)
  pure finished_run

module _ {W : Type 0} (nums : Numbers W) where
  -- The `try` block.
  unfoldable pub evaluate_run : RunCall → QualityRun → Action QualityRun
  unfolding run_rules finish_run
  evaluate_run call run = do
    rules ← gets (rules_of run)
    results ← run_rules nums call run rules
    finish_run call (finished call run rules results)

abbrev pub error_text : QualityError → String
error_text (failure message) = message
error_text (http status message) = message

abbrev pub started : RunCall → QualityRun → QualityRun
started call run = record run {
  status = RunStatus.running;
  started_at = some call.started_at;
  error_message = none;
}

abbrev pub failed_run : RunCall → QualityError → QualityRun → QualityRun
failed_run call e run = record run {
  status = RunStatus.failed;
  error_message = some (error_text e);
  completed_at = some call.completed_at;
}

-- The run that the session still has after the rollback is marked.
abbrev pub mark_failed : RunCall → QualityError → Option QualityRun → Action (Unit {0})
mark_failed call e none = pure tt
mark_failed call e (some run) =
    update_work (write_run (failed_run call e run)) >> commit_or (failure call.broken)

abbrev pub rollback : Action (Unit {0})
rollback db = (ok tt, record db { work = db.saved })

unfoldable pub fail_run : RunCall → String → QualityError → Action QualityRun
fail_run call run_id e = rollback >> (gets (get_run run_id) >>= mark_failed call e) >> raise e

abbrev pub or_fail : RunCall → String → Result QualityError QualityRun → Action QualityRun
or_fail call run_id (ok run) = pure run
or_fail call run_id (raised e) = fail_run call run_id e

abbrev pub is_finished : RunStatus → Bool
is_finished RunStatus.succeeded = true
is_finished RunStatus.cancelled = true
is_finished _ = false

module _ {W : Type 0} (nums : Numbers W) where
  unfoldable pub start_run : RunCall → QualityRun → Action QualityRun
  start_run call run =
      update_work (write_run (started call run)) >> commit_or (failure call.broken) >> (λ db.
        or_fail call run.id (evaluate_run nums call (started call run) db).0
          (evaluate_run nums call (started call run) db).1)

  unfoldable pub execute_quality_run : RunCall → String → Action QualityRun
  execute_quality_run call run_id db = elim (get_run run_id db) [
    | none ↦ (raised (failure "ValueError: Quality run not found."), db)
    | some run ↦ if is_finished run.status then (ok run, db) else start_run call run db
  ]
