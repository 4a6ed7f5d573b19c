-- ===== src/Ingestion/Retries/Liveness.antt =====
-- The chain of runs of one task ends: run_connector_job of
-- apps/catalog-api/app/workers/tasks.py.
use datagenie.Catalog.Session.{Db, Error}
use Prim.Native.Nat.{zero, suc}
use datagenie.Ingestion.Retries.{
  run_task, RetrySettings, TaskEnd, retry_in, next_run, closed, returned, run_connector_job,
  crashed, bury_job, schedule_retry, grants, is_failed, after_run, countdown, scheduled,
}
use datagenie.Prelude.{
  ℕ, String, ◌<◌, ◌+◌, ◌≤◌, ◌≢◌, none, arith, ◌≡◌, refl, Option, true, false, [], some, ◌⊎◌, inl,
  inr, Bool-cases, ap, subst, ◌∙◌, ltb, sym, put_row,
}
use datagenie.Ingestion.Synchronize.{Worker}
use datagenie.Ingestion.Retries.Again.{
  run_connector_job-retry, is_failed-eq, run_ingestion_job-Ready,
}
use datagenie.Catalog.Models.{IngestionJob, JobStatus, Instant, seconds}
use datagenie.Ingestion.Retries.Ready.{Ready}
use datagenie.Ingestion.Worker.{run_ingestion_job}
use datagenie.Prelude.Exec.{ok, Result}
use datagenie.Ingestion.Worker.Settled.{run_ingestion_job-returns}

-- Whatever the connectors, the database and the clock do, a task is run at most once more than the
-- retries that the settings allow.
pub run_task-ends :
    (s : RetrySettings) (workers : ℕ → Worker) (fuel retries : ℕ) (id : String) (db : Db)
    → s.connector_max_retries < retries + fuel
    → retries ≤ s.connector_max_retries
    → (run_task s workers fuel retries id db).0 ≢ none
unfolding run_task
run_task-ends s workers zero retries id db enough start = absurd (omega arith)
run_task-ends s workers (suc fuel) retries id db enough start =
    after s workers fuel retries id (run_connector_job s (workers retries) retries id db).0
      (run_connector_job s (workers retries) retries id db).1
      (λ c e. (run_connector_job-retry s (workers retries) retries c id db e).0)
      (λ t p. run_task-ends s workers fuel (retries + 1) id t (omega arith) p)
  where
    after :
        (s : RetrySettings) (workers : ℕ → Worker) (fuel retries : ℕ) (id : String) (end : TaskEnd)
        (t : Db)
        → ((c : ℕ) → end ≡ retry_in c → retries + 1 ≤ s.connector_max_retries)
        → ((u : Db)
            → retries + 1 ≤ s.connector_max_retries
            → (run_task s workers fuel (retries + 1) id u).0 ≢ none)
        → (next_run (run_task s workers fuel (retries + 1) id) (end, t)).0 ≢ none
    after s workers fuel retries id (retry_in c) t allowed rest = rest (closed t) (allowed c refl)
    after s workers fuel retries id (returned status) t allowed rest = λ h. ground arith
    after s workers fuel retries id crashed t allowed rest = λ h. ground arith

run_ingestion_job-ok :
    (w : Worker) (id : String) (job : IngestionJob) (db : Db)
    → Ready id job db
    → (k : IngestionJob) × ((run_ingestion_job w id db).0 ≡ ok k)
run_ingestion_job-ok w id job db (found, (source, from), calm) =
    elim (run_ingestion_job-returns w id job source db found from calm) [
      | inl (_, e) ↦ (job, ap (λ (x : Result Error IngestionJob × Db). x.0) e)
      | inr (_, (k, e, _)) ↦ (k, e)
    ]

-- How one task ends for a job that is ready.
abbrev Goes : TaskEnd → Type 0
Goes end =
    ((status : JobStatus) × (end ≡ returned status) × (is_failed status ≡ false))
    ⊎ ((c : ℕ) × (end ≡ retry_in c))

bury_job-Goes :
    (now : Instant) (k : IngestionJob) (t : Db) → t.faults ≡ [] → Goes (bury_job now k t).0
unfolding bury_job
bury_job-Goes now k t calm = inl (JobStatus.dead_letter, ground arith, refl)

schedule_retry-Goes :
    (s : RetrySettings) (now : Instant) (retries : ℕ) (k : IngestionJob) (t : Db)
    → t.faults ≡ []
    → grants s.celery_max_retries (retries + 1) ≡ true
    → Goes (schedule_retry s now retries k t).0
unfolding schedule_retry
schedule_retry-Goes s now retries k t calm granted = inr (countdown s retries, ground arith)

-- Celery grants the retries below one that it grants.
grants_mono : (limit : Option ℕ) (m n : ℕ) → grants limit n ≡ true → m ≤ n → grants limit m ≡ true
grants_mono none m n h le = refl
grants_mono (some limit) m n h le = ground arith

module _ (s : RetrySettings)
    (granted : grants s.celery_max_retries s.connector_max_retries ≡ true) where
  after_run-Goes :
      (now : Instant) (retries : ℕ) (k : IngestionJob) (t : Db)
      → (k.status ≡ JobStatus.failed → t.faults ≡ [])
      → Goes (after_run s now retries (ok k, t)).0
  unfolding after_run
  after_run-Goes now retries k t calm = elim (Bool-cases (is_failed k.status)) [
    | inr e ↦ inl (k.status, ground arith, e)
    | inl e ↦
        let quiet = calm (is_failed-eq k.status e) in
        elim (Bool-cases (ltb s.connector_max_retries (retries + 1))) [
          | inl over ↦ subst Goes (ground arith) (bury_job-Goes now k t quiet)
          | inr under ↦ subst Goes (ground arith) (
              schedule_retry-Goes s now retries k t quiet (
                grants_mono s.celery_max_retries (retries + 1) s.connector_max_retries granted
                  (ground arith)))
        ]
  ]

  run_connector_job-Goes :
      (w : Worker) (retries : ℕ) (id : String) (job : IngestionJob) (db : Db)
      → Ready id job db
      → Goes (run_connector_job s w retries id db).0
  unfolding run_connector_job
  run_connector_job-Goes w retries id job db ready =
      let (k, e) = run_ingestion_job-ok w id job db ready in
      let t : Db = (run_ingestion_job w id db).1 in
      let same : (run_connector_job s w retries id db).0
          ≡ (after_run s w.completed retries (ok k, t)).0 =
        ap (λ r. (after_run s w.completed retries (r, t)).0) e in
      subst Goes (sym same) (
        after_run-Goes w.completed retries k t
          (λ f. (run_ingestion_job-Ready w id job k db ready e f).2))

  -- With the job and its source on record, a database without faults, and Celery granting as many
  -- retries as the settings allow, a task comes to its end within one run more than these retries,
  -- whatever the connectors do: it returns a status, and that is not "failed".
  pub run_task-returns :
      (workers : ℕ → Worker) (fuel retries : ℕ) (id : String) (job : IngestionJob) (db : Db)
      → s.connector_max_retries < retries + fuel
      → retries ≤ s.connector_max_retries
      → Ready id job db
      → (status : JobStatus) × ((run_task s workers fuel retries id db).0 ≡ some (returned status))
        × (is_failed status ≡ false)
  unfolding run_task
  run_task-returns workers zero retries id job db enough start ready = absurd (omega arith)
  run_task-returns workers (suc fuel) retries id job db enough start ready =
      let w : Worker = workers retries in
      let out : TaskEnd × Db = run_connector_job s w retries id db in
      elim (run_connector_job-Goes w retries id job db ready) [
        | inl (status, e, done) ↦ (
          status,
          ap (λ r. (next_run (run_task s workers fuel (retries + 1) id) (r, out.1)).0) e,
          done,
        )
        | inr (c, e) ↦
            let (below, again) = run_connector_job-retry s w retries c id db e in
            let (j, ready') = again job ready in
            let (status, f, done) =
              run_task-returns workers fuel (retries + 1) id j (closed out.1) (omega arith) below
                ready' in
            (
              status,
              ap (λ r. (next_run (run_task s workers fuel (retries + 1) id) (r, out.1)).0) e ∙ f,
              done,
            )
      ]

-- Where Celery grants fewer retries than the settings, a run that fails with none left ends its
-- task by an exception: the job is committed as it was but for the time of a retry that does not
-- come, still failed, and not in the dead letters.
pub run_connector_job-crashed :
    (s : RetrySettings) (w : Worker) (limit retries : ℕ) (id : String) (k : IngestionJob) (db : Db)
    → s.celery_max_retries ≡ some limit
    → limit ≤ retries
    → retries + 1 ≤ s.connector_max_retries
    → (run_ingestion_job w id db).0 ≡ ok k
    → k.status ≡ JobStatus.failed
    → (run_ingestion_job w id db).1.faults ≡ []
    → let out : TaskEnd × Db = run_connector_job s w retries id db in
      let at : Instant = w.completed + seconds (countdown s retries) in
      (out.0 ≡ crashed)
      × (out.1.saved.jobs
          ≡ put_row
              (λ j. j.id)
              (record k { next_retry_at = some at })
              (run_ingestion_job w id db).1.work.jobs)
unfolding run_connector_job
run_connector_job-crashed s w limit retries id k db granted none_left allowed ran failed calm =
    let t : Db = (run_ingestion_job w id db).1 in
    let out = beyond s w.completed limit retries k t granted none_left allowed failed calm in
    subst
      (λ r.
        let x : TaskEnd × Db = after_run s w.completed retries (r, t) in
        (x.0 ≡ crashed)
        × (x.1.saved.jobs
            ≡ put_row (λ j. j.id) (scheduled (w.completed + seconds (countdown s retries)) k)
                t.work.jobs))
      (sym ran) out
  where
    beyond :
        (s : RetrySettings) (now : Instant) (limit retries : ℕ) (k : IngestionJob) (t : Db)
        → s.celery_max_retries ≡ some limit
        → limit ≤ retries
        → retries + 1 ≤ s.connector_max_retries
        → k.status ≡ JobStatus.failed
        → t.faults ≡ []
        → ((after_run s now retries (ok k, t)).0 ≡ crashed)
          × ((after_run s now retries (ok k, t)).1.saved.jobs
              ≡ put_row (λ j. j.id) (scheduled (now + seconds (countdown s retries)) k) t.work.jobs)
    beyond s now limit retries k t granted none_left allowed failed calm =
        (ground arith, ground arith)
