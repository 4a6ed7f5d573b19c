-- ===== src/Ingestion/Retries/Again.antt =====
-- After a failed run, and the writing of its retry, the job is ready in the session of the next
-- run: run_connector_job of apps/catalog-api/app/workers/tasks.py.
use datagenie.Catalog.Session.{Db, Error, Tables}
use datagenie.Ingestion.Worker.{
  run_leased, run_ingestion_job, lease_job, is_left_alone, attempt, caught, put_job,
  asked_meanwhile,
}
use datagenie.Ingestion.Retries.{
  schedule_retry, run_connector_job, RetrySettings, retry_in, closed, scheduled, countdown,
  after_run, is_failed, bury_job, TaskEnd, returned,
}
use datagenie.Ingestion.Synchronize.{Worker}
use datagenie.Catalog.Models.{IngestionJob, Instant, DataSource, JobStatus, seconds}
use datagenie.Prelude.{
  String, ℕ, ◌≡◌, some, ◌+◌, ◌≤◌, Bool-cases, inl, arith, ap, ◌∙◌, refl, inr, subst, put_row, sym,
  Bool, true, ◌≢◌, ltb, if◌then◌else◌, false,
}
use datagenie.Ingestion.Retries.Ready.{Ready, rewritten-Ready, caught-Ready}
use datagenie.Ingestion.Jobs.{get_source}
use datagenie.Prelude.Exec.{ok, Result, raised}
use datagenie.Ingestion.Worker.Runs.{lease_job-ok}
use datagenie.Ingestion.Transitions.{get_job-find}
use datagenie.Catalog.SearchIndex.{Failure}
use datagenie.Ingestion.Worker.Settled.{left_alone-failed}
use datagenie.Ingestion.Worker.Outcomes.{attempt-Ended}
use datagenie.Ingestion.Worker.Calm.{attempt-saved, Calm-trans, attempt-Calm}

run_leased-Ready :
    (w : Worker) (job k : IngestionJob) (source : DataSource) (db : Db)
    → Ready job.id job db
    → get_source job.source_id db ≡ some source
    → (run_leased w job db).0 ≡ ok k
    → k.status ≡ JobStatus.failed
    → Ready job.id k (run_leased w job db).1
unfolding run_leased
run_leased-Ready w job k source db ready from h failed =
    let (j, e, same, tenant, rows, c, origin, sources) = lease_job-ok w source job db ready.2 in
    let t : Db = (lease_job w source job db).1 in
    let out : Result Failure IngestionJob × Db = attempt w source j t in
    let opened : run_leased w job db ≡ caught w job.id source.id (out.0, out.1) = ground arith in
    rw (ap (λ (x : Result Error IngestionJob × Db). x.1) opened) (
      caught-Ready w job source db ready from j k out.0 out.1 same tenant origin
        (λ i f. attempt-Ended w source j i t f)
        (λ x f.
          let kept = attempt-saved w source j x t f in
          (
            ap (λ (y : Tables). y.jobs) kept ∙ ap (put_row (λ i. i.id) (asked_meanwhile w j)) rows,
            ap (λ (y : Tables). y.sources) kept ∙ sources,
          ))
        (Calm-trans db t out.1 c (attempt-Calm w source j t))
        (sym (ap (λ (x : Result Error IngestionJob × Db). x.0) opened) ∙ h) failed)

pub run_ingestion_job-Ready :
    (w : Worker) (id : String) (job k : IngestionJob) (db : Db)
    → Ready id job db
    → (run_ingestion_job w id db).0 ≡ ok k
    → k.status ≡ JobStatus.failed
    → Ready id k (run_ingestion_job w id db).1
unfolding run_ingestion_job
run_ingestion_job-Ready w id job k db ready h failed =
    let (found, (source, from), calm) = ready in
    let (_, same) = get_job-find id db found in
    elim (Bool-cases (is_left_alone w.started job)) [
      | inl a ↦
          let here : job ≡ k = ground arith in
          absurd (
            ground (
              arith,
              left_alone-failed w.started job (ap (λ (x : IngestionJob). x.status) here ∙ failed),
            ))
      | inr a ↦ elim (Bool-cases job.cancel_requested) [
        | inl c ↦ absurd (ground arith)
        | inr c ↦
            let opened : run_ingestion_job w id db ≡ run_leased w job db = ground arith in
            let own : Ready job.id job db = subst (λ i. Ready i job db) (sym same) ready in
            let after =
              run_leased-Ready w job k source db own from
                (sym (ap (λ (x : Result Error IngestionJob × Db). x.0) opened) ∙ h) failed in
            rw (ap (λ (x : Result Error IngestionJob × Db). x.1) opened)
              (subst (λ i. Ready i k (run_leased w job db).1) same after)
      ]
    ]

schedule_retry-Ready :
    (s : RetrySettings) (now : Instant) (retries c : ℕ) (id : String) (k : IngestionJob) (db : Db)
    → Ready id k db
    → (schedule_retry s now retries k db).0 ≡ retry_in c
    → (j : IngestionJob) × Ready id j (closed (schedule_retry s now retries k db).1)
unfolding schedule_retry
schedule_retry-Ready s now retries c id k db ready h =
    let j : IngestionJob = scheduled (now + seconds (countdown s retries)) k in
    let put : Tables = put_job j db.work in
    let t : Db = record db { work = put; saved = put } in
    let calm = ready.2 in
    let written : closed (schedule_retry s now retries k db).1 ≡ t = ground arith in
    (
      j,
      subst (Ready id j) (sym written)
          (rewritten-Ready id k j db t ready refl refl refl refl refl calm refl refl),
    )

pub is_failed-eq : (s : JobStatus) → is_failed s ≡ true → s ≡ JobStatus.failed
is_failed-eq s h = ground arith

bury_job-end :
    (now : Instant) (k : IngestionJob) (c : ℕ) (db : Db) → (bury_job now k db).0 ≢ retry_in c
unfolding bury_job
bury_job-end now k c db h = ground arith

by_tests :
    (failed over : Bool) (s : RetrySettings) (now : Instant) (retries c : ℕ) (id : String)
    (k : IngestionJob) (t : Db)
    → let out : TaskEnd × Db =
        if failed
        then (if over then bury_job now k t else schedule_retry s now retries k t)
        else (returned k.status, t) in
      out.0 ≡ retry_in c
      → (failed ≡ true → Ready id k t)
      → (j : IngestionJob) × Ready id j (closed out.1)
by_tests false over s now retries c id k t h ready = absurd (ground arith)
by_tests true true s now retries c id k t h ready = absurd (bury_job-end now k c t h)
by_tests true false s now retries c id k t h ready =
    schedule_retry-Ready s now retries c id k t (ready refl) h

-- A run whose task is to be tried again is one of those that the settings allow, and leaves the
-- job ready for the next.
pub run_connector_job-retry :
    (s : RetrySettings) (w : Worker) (retries c : ℕ) (id : String) (db : Db)
    → (run_connector_job s w retries id db).0 ≡ retry_in c
    → (retries + 1 ≤ s.connector_max_retries)
      × ((job : IngestionJob)
          → Ready id job db
          → (j : IngestionJob) × Ready id j (closed (run_connector_job s w retries id db).1))
unfolding run_connector_job
run_connector_job-retry s w retries c id db h = (
  allowed s w.completed retries c (run_ingestion_job w id db).0 (run_ingestion_job w id db).1 h,
  λ job ready.
      next s w.completed retries c id (run_ingestion_job w id db).0 (run_ingestion_job w id db).1 h
        (λ k e f. run_ingestion_job-Ready w id job k db ready e f),
)
  where
    allowed :
        (s : RetrySettings) (now : Instant) (retries c : ℕ) (r : Result Error IngestionJob) (t : Db)
        → (after_run s now retries (r, t)).0 ≡ retry_in c
        → retries + 1 ≤ s.connector_max_retries
    allowed s now retries c (raised e) t h = absurd (ground arith)
    allowed s now retries c (ok k) t h = ground arith

    next :
        (s : RetrySettings) (now : Instant) (retries c : ℕ) (id : String)
        (r : Result Error IngestionJob) (t : Db)
        → (after_run s now retries (r, t)).0 ≡ retry_in c
        → ((k : IngestionJob) → r ≡ ok k → k.status ≡ JobStatus.failed → Ready id k t)
        → (j : IngestionJob) × Ready id j (closed (after_run s now retries (r, t)).1)
    next s now retries c id (raised e) t h ready = absurd (ground arith)
    next s now retries c id (ok k) t h ready =
        by_tests (is_failed k.status) (ltb s.connector_max_retries (retries + 1)) s now retries c id
          k t h (λ f. ready k refl (is_failed-eq k.status f))
