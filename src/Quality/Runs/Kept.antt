-- ===== src/Quality/Runs/Kept.antt =====
-- The steps of an execution commit nothing before its last.
-- Nothing is committed by a step; nothing is committed by a step that raises.
use datagenie.Quality.Models.{
  Action, Db, QualityError, QualityTables, QualityRun, QualityRule, QualityRuleResult,
}
use datagenie.Prelude.Store.{flush_or, commit_or}
use datagenie.Quality.Assets.{get_or_create_context, write_run}
use datagenie.Quality.Runs.{finish_run, evaluate_run, finished, rules_of}
use datagenie.Quality.Numbers.{Numbers}
use datagenie.Prelude.{String, ◌≡◌, arith, List, ◌∷◌, [], refl, ◌∙◌}
use datagenie.Quality.Runs.Results.{RunCall, run_rule, run_rules}
use datagenie.Prelude.Exec.{raised, Result, continue, ok}

abbrev pub Keeps : {A : Type 0} → Action A → Type 0
Keeps m = (db : Db) → (m db).1.saved ≡ db.saved

abbrev pub KeepsRaised : {A : Type 0} → Action A → Type 0
KeepsRaised m = (db : Db) (e : QualityError) → (m db).0 ≡ raised e → (m db).1.saved ≡ db.saved

flush_or-Keeps : (e : QualityError) → Keeps (flush_or {T = QualityTables} e)
unfolding flush_or
flush_or-Keeps e db = ground arith

get_or_create_context-Keeps :
    (broken asset_id : String) → Keeps (get_or_create_context broken asset_id)
unfolding get_or_create_context flush_or
get_or_create_context-Keeps broken asset_id db = ground arith

pub finish_run-KeepsRaised : (call : RunCall) (run : QualityRun) → KeepsRaised (finish_run call run)
unfolding finish_run commit_or
finish_run-KeepsRaised call run db e h = ground (
  arith,
  get_or_create_context-Keeps call.broken run.asset_id (record db { work = write_run run db.work }),
)

module _ {W : Type 0} (nums : Numbers W) (call : RunCall) where
  run_rule-Keeps : (run : QualityRun) (rule : QualityRule) → Keeps (run_rule nums call run rule)
  unfolding run_rule flush_or
  run_rule-Keeps run rule db = ground arith

  run_rules-Keeps :
      (run : QualityRun) (rules : List QualityRule) → Keeps (run_rules nums call run rules)
  unfolding run_rules
  run_rules-Keeps run [] db = refl
  run_rules-Keeps run (rule ∷ rules) db = ground (
    arith,
    run_rule-Keeps run rule db,
    run_rules-Keeps run rules (run_rule nums call run rule db).1,
  )

  pub evaluate_run-KeepsRaised : (run : QualityRun) → KeepsRaised (evaluate_run nums call run)
  unfolding evaluate_run
  evaluate_run-KeepsRaised run db e h =
      by_results (run_rules nums call run (rules_of run db) db).0
        (run_rules nums call run (rules_of run db) db).1 h
      ∙ run_rules-Keeps run (rules_of run db) db
    where
      by_results :
          (r : Result QualityError (List (QualityRule × QualityRuleResult))) (t : Db)
          → (continue
              (λ results. finish_run call (finished call run (rules_of run db) results))
              r
              t).0
            ≡ raised e
          → (continue
              (λ results. finish_run call (finished call run (rules_of run db) results))
              r
              t).1.saved
            ≡ t.saved
      by_results (ok results) t k =
          finish_run-KeepsRaised call (finished call run (rules_of run db) results) t e k
      by_results (raised d) t k = refl
