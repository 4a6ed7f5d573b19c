-- ===== src/Quality/Runs/Single.antt =====
-- An execution leaves at most one unresolved incident for each asset and rule.
use datagenie.Quality.Runs.{
  finish_run, evaluate_run, start_run, execute_quality_run, or_fail, rules_of, started, finished,
  is_finished,
}
use datagenie.Quality.Numbers.{Numbers}
use datagenie.Prelude.Store.{commit_or, flush_or}
use datagenie.Quality.Runs.Results.{RunCall, run_rules}
use datagenie.Quality.Assets.{get_or_create_context, get_run}
use datagenie.Prelude.{
  String, ◌≡◌, subst, arith, List, sym, Bool, Option, find_row, ◌∷◌, some, Bool-cases, [], true,
  inl, refl, inr, ap, none,
}
use datagenie.Quality.Models.{
  QualityRun, Db, QualityRule, QualityRuleResult, Action, QualityError, QualityTables,
}
use datagenie.Quality.Runs.Incidents.{IsSingle, run_rules-IsSingle}
use datagenie.Prelude.Exec.{ok, Result, Result-cases, raised, continue}
use mathlib.Core.Bool.{false}
use datagenie.Quality.Runs.Finished.{fail_run-raised}
use datagenie.Quality.Runs.Failed.{execute_quality_run-raised}

finish_run-incidents :
    (call : RunCall) (run : QualityRun) (db : Db) {run' : QualityRun}
    → (finish_run call run db).0 ≡ ok run'
    → (finish_run call run db).1.saved.incidents ≡ db.work.incidents
unfolding finish_run commit_or get_or_create_context flush_or
finish_run-incidents call run db h = ground arith

module _ {W : Type 0} (nums : Numbers W) (call : RunCall) where
  or_fail-IsSingle :
      (k : String) (run : QualityRun) (db : Db) {run' : QualityRun}
      → IsSingle db.work.incidents
      → let evaluated = evaluate_run nums call run db in
        (or_fail call k evaluated.0 evaluated.1).0 ≡ ok run'
        → IsSingle (or_fail call k evaluated.0 evaluated.1).1.saved.incidents
  unfolding evaluate_run
  or_fail-IsSingle k run db {run' = run'} single h =
      by_results (run_rules nums call run rules db).0 (run_rules nums call run rules db).1
        (run_rules-IsSingle nums call run rules db single) h
    where
      rules : List QualityRule
      rules = rules_of run db

      finish : List (QualityRule × QualityRuleResult) → Action QualityRun
      finish rs = finish_run call (finished call run rules rs)

      by_finish :
          (rs : List (QualityRule × QualityRuleResult)) (t : Db)
          (r : Result QualityError QualityRun)
          → (finish rs t).0 ≡ r
          → IsSingle t.work.incidents
          → (or_fail call k r (finish rs t).1).0 ≡ ok run'
          → IsSingle (or_fail call k r (finish rs t).1).1.saved.incidents
      by_finish rs t (ok other) q i g =
          subst IsSingle (sym (finish_run-incidents call (finished call run rules rs) t q)) i
      by_finish rs t (raised d) q i g = absurd (fail_run-raised call k (finish rs t).1 d g)

      by_results :
          (r : Result QualityError (List (QualityRule × QualityRuleResult))) (t : Db)
          → IsSingle t.work.incidents
          → let end_of = continue finish r t in
            (or_fail call k end_of.0 end_of.1).0 ≡ ok run'
            → IsSingle (or_fail call k end_of.0 end_of.1).1.saved.incidents
      by_results (ok rs) t i g = by_finish rs t (finish rs t).0 refl i g
      by_results (raised d) t i g = absurd (fail_run-raised call k t d g)

  start_run-IsSingle :
      (run : QualityRun) (db : Db) {run' : QualityRun}
      → IsSingle db.work.incidents
      → (start_run nums call run db).0 ≡ ok run'
      → IsSingle (start_run nums call run db).1.saved.incidents
  unfolding start_run commit_or
  start_run-IsSingle run db {run' = run'} single h = by_faults db.faults refl h
    where
      by_faults :
          (fs : List Bool)
          → db.faults ≡ fs
          → (start_run nums call run db).0 ≡ ok run'
          → IsSingle (start_run nums call run db).1.saved.incidents
      by_faults [] q g = rw q (or_fail-IsSingle run.id (started call run) _ single (rw q at g))
      by_faults (true ∷ fs) q g = absurd (ground arith)
      by_faults (false ∷ fs) q g =
          rw q (or_fail-IsSingle run.id (started call run) _ single (rw q at g))

  -- An execution, in a session that starts with nothing written, leaves at most one unresolved
  -- incident for each asset and rule among the committed ones, however it ends, if there was at
  -- most one before.
  pub execute_quality_run-IsSingle :
      (run_id : String) (db : Db)
      → db.work ≡ db.saved
      → IsSingle db.saved.incidents
      → IsSingle (execute_quality_run nums call run_id db).1.saved.incidents
  unfolding execute_quality_run get_run
  execute_quality_run-IsSingle run_id db w single =
      elim (Result-cases (execute_quality_run nums call run_id db).0) [
        | inr (e, h) ↦
            subst IsSingle
              (sym (
                ap {A = QualityTables} (λ t. t.incidents)
                  (execute_quality_run-raised nums call run_id db w h).rest_kept))
              single
        | inl (run', h) ↦ by_found (find_row (λ r. r.id) run_id db.work.runs) refl h
      ]
    where
      written : IsSingle db.work.incidents
      written = subst (λ t. IsSingle t.incidents) (sym w) single

      by_found :
          (o : Option QualityRun)
          → find_row (λ r. r.id) run_id db.work.runs ≡ o
          → {run' : QualityRun} → (execute_quality_run nums call run_id db).0 ≡ ok run'
          → IsSingle (execute_quality_run nums call run_id db).1.saved.incidents
      by_found none q h = rw (q, execute_quality_run) single
      by_found (some run) q h = elim (Bool-cases (is_finished run.status)) [
        | inl f ↦ rw (q, execute_quality_run) (rw f single)
        | inr f ↦
            rw (q, execute_quality_run)
              (rw f
                (start_run-IsSingle run db written (rw f at (rw (q, execute_quality_run) at h))))
      ]
