-- ===== src/Quality/Runs/Finished.antt =====
-- An execution that answers: the run that it leaves, and what its score can be.
use datagenie.Quality.Numbers.{Numbers}
use datagenie.Quality.Runs.{
  finish_run, evaluate_run, rules_of, finished, fail_run, execute_quality_run, or_fail, start_run,
  is_finished, started,
}
use datagenie.Quality.Runs.Results.{RunCall, run_rule, run_rules, new_result, upsert_incident}
use datagenie.Prelude.Store.{commit_or, flush_or}
use datagenie.Quality.Models.{
  QualityRun, QualityRule, Db, QualityRuleResult, QualityTables, RunStatus, QualityError,
}
use datagenie.Quality.Assets.{get_or_create_context, get_run}
use datagenie.Prelude.{
  Bool, List, ◌≡◌, arith, ◌∷◌, leb, put_row, [], true, refl, Bool-cases, Option-cases, inl, inr,
  find_row, some, ℕ, ◌≤◌, subst, sym, find_row-put_self, String, ◌∙◌, false, find_row-put_at,
  find_row-key,
}
use datagenie.Quality.RuleEngine.Evaluations.{Evaluation}
use datagenie.Quality.RuleEngine.Verdict.{IsVerdict, evaluate_rule-IsVerdict}
use datagenie.Prelude.Exec.{ok, Result, continue, raised}
use datagenie.Quality.Runs.Scored.{has_scores, mean_score-le, evaluated_of-has_scores}
use datagenie.Quality.RuleEngine.{evaluate_rule}
use datagenie.Quality.Runs.Scores.{is_explainable, technical_score, mean_score, evaluated_of}

-- What holds of an answer, if there is one.
abbrev answers : {A : Type 0} → (A → Bool) → Result QualityError A → Bool
answers p (ok a) = p a
answers p (raised e) = true

module _ {W : Type 0} (nums : Numbers W) (call : RunCall) (run : QualityRun) where
  run_rule-runs :
      (rule : QualityRule) (db : Db) → (run_rule nums call run rule db).1.work.runs ≡ db.work.runs
  unfolding run_rule flush_or upsert_incident
  run_rule-runs rule db = ground arith

  run_rules-runs :
      (rules : List QualityRule) (db : Db)
      → (run_rules nums call run rules db).1.work.runs ≡ db.work.runs
  unfolding run_rules
  run_rules-runs [] db = refl
  run_rules-runs (rule ∷ rules) db =
      ground (arith, run_rule-runs rule db, run_rules-runs rules (run_rule nums call run rule db).1)

  new_result-score :
      (rule : QualityRule) (e : Evaluation)
      → IsVerdict rule e
      → leb (new_result call run rule e).score 100 ≡ true
  unfolding new_result
  new_result-score rule e v = elim (Bool-cases e.passed) [
    | inl p ↦ ground (arith, v.scored)
    | inr p ↦ ground (arith, v.scored)
  ]

  run_rule-score :
      (rule : QualityRule) (db : Db)
      → answers (λ r. leb r.score 100) (run_rule nums call run rule db).0 ≡ true
  unfolding run_rule flush_or
  run_rule-score rule db =
      elim (Option-cases (evaluate_rule nums rule run.profile_snapshot (call.now rule.id))) [
        | inl e ↦ ground arith
        | inr (e, q) ↦ ground (
          arith,
          new_result-score rule e
              (evaluate_rule-IsVerdict nums rule run.profile_snapshot (call.now rule.id) q),
        )
      ]

  run_rules-has_scores :
      (rules : List QualityRule) (db : Db)
      → answers has_scores (run_rules nums call run rules db).0 ≡ true
  unfolding run_rules
  run_rules-has_scores [] db = refl
  run_rules-has_scores (rule ∷ rules) db =
      ground (
        arith,
        run_rule-score rule db,
        run_rules-has_scores rules (run_rule nums call run rule db).1,
      )

finish_run-ok :
    (call : RunCall) (run : QualityRun) (db : Db) {run' : QualityRun}
    → (finish_run call run db).0 ≡ ok run'
    → (run' ≡ run) × ((finish_run call run db).1.saved.runs ≡ put_row (λ r. r.id) run db.work.runs)
unfolding finish_run commit_or get_or_create_context flush_or
finish_run-ok call run db h = (ground arith, ground arith)

-- A run that is succeeded, with its row committed, a score of at most 100, and one if it is
-- explainable.
pub record IsSuccess (run : QualityRun) (saved : QualityTables) : Type 0 where
  pub succeeded : run.status ≡ RunStatus.succeeded
  pub committed : find_row (λ r. r.id) run.id saved.runs ≡ some run
  pub bounded : (n : ℕ) → run.technical_score ≡ some n → n ≤ 100
  pub explained : run.explainable ≡ true → (n : ℕ) × (run.technical_score ≡ some n)

finished-explained :
    (rs : List (QualityRule × QualityRuleResult))
    → is_explainable rs ≡ true
    → (n : ℕ) × (technical_score rs ≡ some n)
unfolding is_explainable technical_score mean_score
finished-explained rs h = by_evaluated (evaluated_of rs) refl
  where
    by_evaluated :
        (es : List (QualityRule × QualityRuleResult))
        → evaluated_of rs ≡ es
        → (n : ℕ) × (mean_score es ≡ some n)
    by_evaluated [] e = absurd (ground arith)
    by_evaluated (x ∷ es) e = (_, refl)

pub fail_run-raised :
    (call : RunCall) (k : String) (t : Db) (d : QualityError) {run : QualityRun}
    → ¬ ((fail_run call k d t).0 ≡ ok run)
unfolding fail_run
fail_run-raised call k t d h = ground arith

module _ {W : Type 0} (nums : Numbers W) (call : RunCall) where
  evaluate_run-IsSuccess :
      (run : QualityRun) (db : Db) (old : QualityRun) {run' : QualityRun}
      → find_row (λ r. r.id) run.id db.work.runs ≡ some old
      → (evaluate_run nums call run db).0 ≡ ok run'
      → IsSuccess run' (evaluate_run nums call run db).1.saved
  unfolding evaluate_run mean_score technical_score
  evaluate_run-IsSuccess run db old {run' = run'} found h =
      by_results (run_rules nums call run (rules_of run db) db).0
        (run_rules-has_scores nums call run (rules_of run db) db) h
    where
      rules : List QualityRule
      rules = rules_of run db

      t : Db
      t = (run_rules nums call run rules db).1

      by_results :
          (r : Result QualityError (List (QualityRule × QualityRuleResult)))
          → answers has_scores r ≡ true
          → (continue (λ results. finish_run call (finished call run rules results)) r t).0
            ≡ ok run'
          → IsSuccess run'
              (continue (λ results. finish_run call (finished call run rules results)) r t).1.saved
      by_results (raised e) s k = absurd (ground arith)
      by_results (ok rs) s k =
          subst (λ x. IsSuccess x (finish_run call (finished call run rules rs) t).1.saved)
            (sym (finish_run-ok call (finished call run rules rs) t k).0)
            (record {
              succeeded = refl;
              committed = rw ((finish_run-ok call (finished call run rules rs) t k).1) (
                  find_row-put_self (λ r. r.id) (finished call run rules rs) t.work.runs old
                    (rw (run_rules-runs nums call run rules db) found));
              bounded = λ n e. mean_score-le (evaluated_of rs) (evaluated_of-has_scores rs s) e;
              explained = λ e. finished-explained rs e;
            })

  or_fail-IsSuccess :
      (k : String) (run : QualityRun) (db : Db) (old : QualityRun) {run' : QualityRun}
      → find_row (λ r. r.id) run.id db.work.runs ≡ some old
      → let evaluated = evaluate_run nums call run db in
        (or_fail call k evaluated.0 evaluated.1).0 ≡ ok run'
        → IsSuccess run' (or_fail call k evaluated.0 evaluated.1).1.saved
  or_fail-IsSuccess k run db old {run' = run'} found h =
      by_result (evaluate_run nums call run db).0 refl h
    where
      by_result :
          (r : Result QualityError QualityRun)
          → (evaluate_run nums call run db).0 ≡ r
          → (or_fail call k r (evaluate_run nums call run db).1).0 ≡ ok run'
          → IsSuccess run' (or_fail call k r (evaluate_run nums call run db).1).1.saved
      by_result (ok other) q h = evaluate_run-IsSuccess run db old found (q ∙ h)
      by_result (raised d) q h =
          absurd (fail_run-raised call k (evaluate_run nums call run db).1 d h)

  -- An execution that answers, for a run that was not finished, has made the run succeeded and
  -- committed its row; its score is at most 100, and it has a score if it is explainable.
  pub execute_quality_run-IsSuccess :
      (run_id : String) (db : Db) (run : QualityRun) {run' : QualityRun}
      → get_run run_id db ≡ some run
      → is_finished run.status ≡ false
      → (execute_quality_run nums call run_id db).0 ≡ ok run'
      → IsSuccess run' (execute_quality_run nums call run_id db).1.saved
  unfolding execute_quality_run get_run start_run commit_or
  execute_quality_run-IsSuccess run_id db run {run' = run'} found f h =
      rw (found, execute_quality_run)
        (rw f (begun db.faults refl (rw f at (rw (found, execute_quality_run) at h))))
    where
      row :
          find_row (λ r. r.id) run.id (put_row (λ r. r.id) (started call run) db.work.runs)
          ≡ some (started call run)
      row =
          find_row-put_at (λ r. r.id) run.id (started call run) run db.work.runs refl
            (subst (λ k. find_row (λ r. r.id) k db.work.runs ≡ some run)
              (sym (find_row-key (λ r. r.id) run_id db.work.runs run found)) found)

      begun :
          (fs : List Bool)
          → db.faults ≡ fs
          → (start_run nums call run db).0 ≡ ok run'
          → IsSuccess run' (start_run nums call run db).1.saved
      begun [] q h =
          rw q (or_fail-IsSuccess run.id (started call run) _ (started call run) row (rw q at h))
      begun (true ∷ fs) q h = absurd (ground arith)
      begun (false ∷ fs) q h =
          rw q (or_fail-IsSuccess run.id (started call run) _ (started call run) row (rw q at h))
