-- ===== src/Quality/Runs/Failed.antt =====
-- An execution that raises: what it has committed.
use datagenie.Quality.Models.{Db, QualityError, QualityTables, QualityRun}
use datagenie.Prelude.Store.{commit_or}
use datagenie.Prelude.Exec.{raised, Result, continue, ok, raise}
use datagenie.Prelude.{
  ◌≡◌, List, ◌∷◌, refl, [], String, arith, ◌≢◌, find_row, ap, find_row-put_ne, ◌∙◌, Option, some,
  subst, sym, find_row-key, Bool, none, true, inl, inr, Bool-cases,
}
use datagenie.Quality.Assets.{write_run, get_run}
use datagenie.Quality.Numbers.{Numbers}
use datagenie.Quality.Runs.Results.{RunCall}
use datagenie.Quality.Runs.{
  evaluate_run, fail_run, mark_failed, failed_run, or_fail, start_run, execute_quality_run, started,
  is_finished,
}
use mathlib.Core.Bool.{false}
use datagenie.Quality.Runs.Kept.{evaluate_run-KeepsRaised}

-- Nothing but the row of one run may differ.
pub record OnlyRun (k : String) (t u : QualityTables) : Type 0 where
  pub rest_kept : u ≡ record t { runs = u.runs }
  pub others_kept :
      (j : String) → j ≢ k → find_row (λ r. r.id) j u.runs ≡ find_row (λ r. r.id) j t.runs

OnlyRun-refl : (k : String) (t : QualityTables) → OnlyRun k t t
OnlyRun-refl k t = record { rest_kept = refl; others_kept = λ j h. refl }

OnlyRun-write_run :
    (k : String) (t u : QualityTables) (run : QualityRun)
    → OnlyRun k t u
    → run.id ≡ k
    → OnlyRun k t (write_run run u)
OnlyRun-write_run k t u run h e = record {
  rest_kept = ap (write_run run) h.rest_kept;
  others_kept =
      λ j ne. find_row-put_ne (λ r. r.id) j run u.runs (λ p. ne (p ∙ e)) ∙ h.others_kept j ne;
}

module _ (call : RunCall) (k : String) (e : QualityError) where
  mark_failed-OnlyRun :
      (o : Option QualityRun) (t : Db)
      → find_row (λ r. r.id) k t.saved.runs ≡ o
      → t.work ≡ t.saved
      → OnlyRun k t.saved (mark_failed call e o t).1.saved
  unfolding commit_or
  mark_failed-OnlyRun none t found w = OnlyRun-refl k t.saved
  mark_failed-OnlyRun (some run) t found w = by_faults t.faults refl
    where
      written : OnlyRun k t.saved (write_run (failed_run call e run) t.work)
      written =
          OnlyRun-write_run k t.saved t.work (failed_run call e run)
            (subst (OnlyRun k t.saved) (sym w) (OnlyRun-refl k t.saved))
            (find_row-key (λ r. r.id) k t.saved.runs run found)

      by_faults :
          (fs : List Bool)
          → t.faults ≡ fs
          → OnlyRun k t.saved (mark_failed call e (some run) t).1.saved
      by_faults [] h = rw h written
      by_faults (true ∷ fs) h = rw h (OnlyRun-refl k t.saved)
      by_faults (false ∷ fs) h = rw h written

  fail_run-OnlyRun : (t : Db) → OnlyRun k t.saved (fail_run call k e t).1.saved
  unfolding fail_run get_run
  fail_run-OnlyRun t = raise_after (mark_failed call e o u).0
    where
      u : Db
      u = record t { work = t.saved }

      o : Option QualityRun
      o = find_row (λ r. r.id) k t.saved.runs

      raise_after :
          (r : Result QualityError (Unit {0}))
          → OnlyRun k t.saved
              (continue {B = QualityRun} (λ _. raise e) r (mark_failed call e o u).1).1.saved
      raise_after (ok _) = mark_failed-OnlyRun o u refl refl
      raise_after (raised d) = mark_failed-OnlyRun o u refl refl

OnlyRun-trans : (k : String) {t u v : QualityTables} → OnlyRun k t u → OnlyRun k u v → OnlyRun k t v
OnlyRun-trans k {v = v} f g = record {
  rest_kept = g.rest_kept ∙ ap {A = QualityTables} (λ x. record x { runs = v.runs }) f.rest_kept;
  others_kept = λ j ne. g.others_kept j ne ∙ f.others_kept j ne;
}

module _ {W : Type 0} (nums : Numbers W) (call : RunCall) where
  -- The run that was started, after its commit.
  or_fail-OnlyRun :
      (k : String) (run : QualityRun) (t : Db) {e : QualityError}
      → let evaluated = evaluate_run nums call run t in
        (or_fail call k evaluated.0 evaluated.1).0 ≡ raised e
        → OnlyRun k t.saved (or_fail call k evaluated.0 evaluated.1).1.saved
  or_fail-OnlyRun k run t h = by_result (evaluate_run nums call run t).0 refl h
    where
      by_result :
          (r : Result QualityError QualityRun)
          → (evaluate_run nums call run t).0 ≡ r
          → {e : QualityError} → (or_fail call k r (evaluate_run nums call run t).1).0 ≡ raised e
          → OnlyRun k t.saved (or_fail call k r (evaluate_run nums call run t).1).1.saved
      by_result (ok run') q h = absurd (ground arith)
      by_result (raised d) q h =
          subst (λ s. OnlyRun k s (fail_run call k d (evaluate_run nums call run t).1).1.saved)
            (evaluate_run-KeepsRaised nums call run t d q)
            (fail_run-OnlyRun call k d (evaluate_run nums call run t).1)

  start_run-OnlyRun :
      (run : QualityRun) (db : Db) {e : QualityError}
      → db.work ≡ db.saved
      → (start_run nums call run db).0 ≡ raised e
      → OnlyRun run.id db.saved (start_run nums call run db).1.saved
  unfolding start_run commit_or
  start_run-OnlyRun run db w h = by_faults db.faults refl h
    where
      u : Db
      u = record db { work = write_run (started call run) db.work }

      begun : OnlyRun run.id db.saved u.work
      begun =
          OnlyRun-write_run run.id db.saved db.work (started call run)
            (subst (OnlyRun run.id db.saved) (sym w) (OnlyRun-refl run.id db.saved)) refl

      go :
          (fs : List Bool) {e : QualityError}
          → let t : Db = record u { saved = u.work; faults = fs } in
            (or_fail call run.id
                (evaluate_run nums call (started call run) t).0
                (evaluate_run nums call (started call run) t).1).0
              ≡ raised e
            → OnlyRun run.id db.saved
                (or_fail call run.id
                  (evaluate_run nums call (started call run) t).0
                  (evaluate_run nums call (started call run) t).1).1.saved
      go fs h =
          OnlyRun-trans run.id begun
            (or_fail-OnlyRun run.id (started call run) (record u { saved = u.work; faults = fs }) h)

      by_faults :
          (fs : List Bool)
          → db.faults ≡ fs
          → {e : QualityError} → (start_run nums call run db).0 ≡ raised e
          → OnlyRun run.id db.saved (start_run nums call run db).1.saved
      by_faults [] q h = rw q (go db.faults (rw q at h))
      by_faults (true ∷ fs) q h = rw q (OnlyRun-refl run.id db.saved)
      by_faults (false ∷ fs) q h = rw q (go fs (rw q at h))

  -- An execution that raises, in a session that starts with nothing written, has committed nothing
  -- but the row of its run: no result, no incident, no score and no other run differs.
  pub execute_quality_run-raised :
      (run_id : String) (db : Db) {e : QualityError}
      → db.work ≡ db.saved
      → (execute_quality_run nums call run_id db).0 ≡ raised e
      → OnlyRun run_id db.saved (execute_quality_run nums call run_id db).1.saved
  unfolding execute_quality_run get_run
  execute_quality_run-raised run_id db {e = e} w h =
      by_found (find_row (λ r. r.id) run_id db.work.runs) refl h
    where
      by_found :
          (o : Option QualityRun)
          → find_row (λ r. r.id) run_id db.work.runs ≡ o
          → {e : QualityError} → (execute_quality_run nums call run_id db).0 ≡ raised e
          → OnlyRun run_id db.saved (execute_quality_run nums call run_id db).1.saved
      by_found none q h = rw (q, execute_quality_run) (OnlyRun-refl run_id db.saved)
      by_found (some run) q h = elim (Bool-cases (is_finished run.status)) [
        | inl f ↦ rw (q, execute_quality_run) (rw f (OnlyRun-refl run_id db.saved))
        | inr f ↦
            rw (q, execute_quality_run)
              (rw f (
                subst (λ k. OnlyRun k db.saved (start_run nums call run db).1.saved)
                  (find_row-key (λ r. r.id) run_id db.work.runs run q)
                  (start_run-OnlyRun run db w (rw f at (rw (q, execute_quality_run) at h)))))
      ]
