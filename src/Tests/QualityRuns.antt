-- ===== src/Tests/QualityRuns.antt =====
-- The rate limiter and the quality service at concrete inputs. The numbers are naturals there.
use datagenie.Gateway.RateLimit.{Limiter, check}
use datagenie.Quality.Rules.{create_rule, patch_quality_rule, set_enabled}
use datagenie.Prelude.{
  List, String, arith, [], none, ◌∷◌, false, true, ◌≡◌, some, refl, find_row, eq_iff, length, keep,
  put_row, all, ◌⊎◌,
}
use datagenie.Gateway.RateLimit.Refines.{InOrder, check_all, admit_all, check_all-eq-admit_all}
use datagenie.Gateway.RateLimit.Window.{IsBounded}
use datagenie.Prelude.Json.{field, int, end}
use datagenie.Quality.Models.{QualityRun, RunStatus, failure, http, QualityRule}
use datagenie.Quality.Runs.Results.{run_rule, upsert_incident, new_result}
use datagenie.Quality.RuleEngine.{evaluate_rule}
use datagenie.Gateway.RateLimit.Bounds.{admitted, admitted-IsBounded}
use datagenie.Quality.RuleEngine.Verdict.{IsVerdict, evaluate_rule-IsVerdict}
use datagenie.Catalog.Models.{Instant}
use datagenie.Quality.Rules.{version_row}
use datagenie.Quality.Assets.Coverage.{
  Coverage, critical_coverage, total, is_covered, critical_coverage-adds_up,
}
use datagenie.Quality.Runs.{execute_quality_run, start_run, evaluate_run, fail_run}
use datagenie.Quality.Runs.Incidents.{IsSingle}
use datagenie.Quality.Rules.Versions.{IsVersioned, find_version, is_at_most}
use datagenie.Quality.Runs.Failed.{OnlyRun, execute_quality_run-raised}
use datagenie.Quality.Runs.Finished.{IsSuccess, execute_quality_run-IsSuccess}
use datagenie.Quality.Runs.Single.{execute_quality_run-IsSingle}
use datagenie.Prelude.Exec.{ok, raised}
use datagenie.Quality.Rules.Requests.{create_rule-IsVersioned, patch_quality_rule-IsVersioned}
use datagenie.Quality.Assets.{get_run, find_context}
use datagenie.Prelude.Store.{commit_or, flush_or}
use datagenie.Quality.Runs.Scores.{is_explainable, technical_score, mean_score, round_div}
use datagenie.Quality.Incidents.{patch_quality_incident}
use datagenie.Quality.Incidents.Dated.{is_dated, patch_quality_incident-is_dated}
use datagenie.Tests.QualityFixtures.{
  nums, profile, rule, incident, context, quality_run, tables, db, faulty_db, run_call, call,
  rule_payload, incident_update, evaluation,
}
use datagenie.Quality.Rules.Answers.{
  IsRefused, IsInvalidRule, IsCreated, IsInvalidUpdate, IsUnchanged, IsUpdated,
}

abbrev limiter : Limiter
limiter = record { limit = 1; window_seconds = 1 }

-- Two calls of one key within a second, and a third after it.
abbrev calls : List (String × Instant)
calls = ("k", 5) ∷ ("k", 7) ∷ ("k", 2000000) ∷ []

calls-InOrder : InOrder 0 calls
calls-InOrder = (omega arith, (omega arith, (omega arith, tt)))

check_all_run : check_all limiter calls [] ≡ true ∷ false ∷ true ∷ []
unfolding check
check_all_run = refl

check_all-eq-admit_all_example : check_all limiter calls [] ≡ admit_all limiter calls []
check_all-eq-admit_all_example = check_all-eq-admit_all limiter calls calls-InOrder

admitted-IsBounded_example : IsBounded limiter (admitted (check_all limiter calls []) calls)
admitted-IsBounded_example = admitted-IsBounded limiter calls calls-InOrder

evaluate_rule-IsVerdict_example : IsVerdict rule evaluation
unfolding evaluate_rule
evaluate_rule-IsVerdict_example = evaluate_rule-IsVerdict nums rule profile 11 refl

critical_coverage-adds_up_example :
    (c : Coverage) × (critical_coverage 20 24 db ≡ (ok (1, c), db))
    × (total c ≡ 1)
    × (c.covered ≡ length (keep (is_covered 20 24) (context ∷ [])))
critical_coverage-adds_up_example = critical_coverage-adds_up 20 24 db

execute_quality_run-raised_example :
    OnlyRun "run-1" tables (execute_quality_run nums run_call "run-1" faulty_db).1.saved
unfolding execute_quality_run get_run find_row start_run commit_or evaluate_run run_rule
    evaluate_rule flush_or find_context upsert_incident new_result is_explainable fail_run put_row
execute_quality_run-raised_example =
    execute_quality_run-raised nums run_call "run-1" faulty_db
      {e = failure "OperationalError: gone"} refl refl

abbrev succeeded_run : QualityRun
succeeded_run = record quality_run {
  status = RunStatus.succeeded;
  effective_rule_versions = field "rule-1" (int 1) end;
  technical_score = some 0;
  explainable = true;
  started_at = some 10;
  completed_at = some 12;
}

execute_quality_run-IsSuccess_example :
    IsSuccess succeeded_run (execute_quality_run nums run_call "run-1" db).1.saved
unfolding execute_quality_run get_run find_row start_run commit_or evaluate_run run_rule
    evaluate_rule flush_or find_context upsert_incident new_result is_explainable technical_score
    mean_score round_div
execute_quality_run-IsSuccess_example =
    execute_quality_run-IsSuccess nums run_call "run-1" db quality_run {run' = succeeded_run} refl
      refl refl

incidents-IsSingle : IsSingle (incident ∷ [])
incidents-IsSingle asset_id rule_id = ground arith

execute_quality_run-IsSingle_example :
    IsSingle (execute_quality_run nums run_call "run-1" db).1.saved.incidents
execute_quality_run-IsSingle_example =
    execute_quality_run-IsSingle nums run_call "run-1" db refl incidents-IsSingle

tables-IsVersioned : IsVersioned tables
unfolding find_row find_version version_row
tables-IsVersioned = record {
  current =
      λ k r h. (version_row rule "steward" none, ground (arith, eq_iff "rule-1" k), ground arith);
  newest = λ k r h. ground arith;
}

create_rule-IsVersioned_example :
    let answer = create_rule nums call rule_payload "steward" db in
    IsVersioned answer.1.saved
    × (IsRefused (IsInvalidRule nums call rule_payload db) db answer
        ⊎ IsCreated call rule_payload "steward" db answer)
unfolding version_row find_row
create_rule-IsVersioned_example =
    create_rule-IsVersioned nums call rule_payload "steward" db tables-IsVersioned
      tables-IsVersioned refl refl

patch_quality_rule-IsVersioned_example :
    let updates = set_enabled false ∷ [] in
    let answer = patch_quality_rule nums call "rule-1" updates none "steward" db in
    IsVersioned answer.1.saved
    × (((find_row (λ r. r.id) "rule-1" db.work.rules ≡ none)
          × (answer ≡ (raised (http 404 "Quality rule not found."), db)))
        ⊎ ((r : QualityRule) × (find_row (λ x. x.id) "rule-1" db.work.rules ≡ some r)
            × (all (is_at_most "rule-1" r.version) db.work.versions ≡ true)
            × (IsRefused (IsInvalidUpdate nums call r updates db) db answer
                ⊎ (IsUnchanged r updates db answer
                    ⊎ IsUpdated r updates none "steward" db answer))))
patch_quality_rule-IsVersioned_example =
    patch_quality_rule-IsVersioned nums call "rule-1" (set_enabled false ∷ []) none "steward" db
      tables-IsVersioned tables-IsVersioned

patch_quality_incident-is_dated_example :
    all is_dated (patch_quality_incident call "i-1" incident_update db).1.saved.incidents ≡ true
patch_quality_incident-is_dated_example =
    patch_quality_incident-is_dated call "i-1" incident_update db refl refl
