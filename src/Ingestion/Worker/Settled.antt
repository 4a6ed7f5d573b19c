-- ===== src/Ingestion/Worker/Settled.antt =====
-- The runs of run_ingestion_job in apps/catalog-api/app/services/ingestion_service.py as a whole.
use datagenie.Catalog.Session.{Db, Error, Tables}
use datagenie.Ingestion.Worker.{
  run_leased, run_ingestion_job, is_left_alone, lease_job, caught, attempt, cancelled_job,
  asked_meanwhile,
}
use datagenie.Ingestion.Synchronize.{Worker}
use datagenie.Catalog.Models.{IngestionJob, DataSource, JobStatus, Instant}
use datagenie.Prelude.{
  String, ◌≡◌, some, [], true, ◌⊎◌, false, arith, ap, ◌∙◌, Bool-cases, inl, inr, put_row,
  Option-cases, sym, refl,
}
use datagenie.Ingestion.Jobs.{get_job, get_source}
use datagenie.Prelude.Exec.{ok, Result, raised, Result-cases}
use datagenie.Ingestion.Worker.Failed.{discovered_in, attempt-discovered, lease_job-discovered}
use datagenie.Ingestion.Worker.Runs.{Finished, lease_job-ok, caught-ok}
use datagenie.Ingestion.Transitions.{get_job-find}
use datagenie.Catalog.SearchIndex.{Failure}
use datagenie.Ingestion.Worker.Outcomes.{attempt-Ended, fail_attempt-ended}
use datagenie.Ingestion.Worker.Calm.{attempt-saved, Calm-trans, attempt-Calm}

pub run_leased-returns :
    (w : Worker) (job : IngestionJob) (source : DataSource) (db : Db)
    → get_job job.id db ≡ some job
    → get_source job.source_id db ≡ some source
    → db.faults ≡ []
    → (k : IngestionJob) × ((run_leased w job db).0 ≡ ok k) × Finished k
unfolding run_leased
run_leased-returns w job source db found from calm =
    let (j, e, same, tenant, rows, c, _, _) = lease_job-ok w source job db calm in
    let t : Db = (lease_job w source job db).1 in
    let out : Result Failure IngestionJob × Db = attempt w source j t in
    let (k, r, finished) =
      caught-ok w source.id job j db t out.0 out.1 found same tenant
        (λ k h. attempt-Ended w source j k t h)
        (λ x h.
          ap (λ (y : Tables). y.jobs) (attempt-saved w source j x t h)
          ∙ ap (put_row (λ i. i.id) (asked_meanwhile w j)) rows)
        (Calm-trans db t out.1 c (attempt-Calm w source j t)) calm in
    (k, opened w job source j db from e ∙ r, finished)
  where
    opened :
        (w : Worker) (job : IngestionJob) (source : DataSource) (j : IngestionJob) (db : Db)
        → get_source job.source_id db ≡ some source
        → (lease_job w source job db).0 ≡ ok j
        → (run_leased w job db).0
          ≡ (caught w job.id source.id (attempt w source j (lease_job w source job db).1)).0
    opened w job source j db from e = ground arith

-- With the job and its source on record and a database without faults, every run returns a job,
-- whatever the connector does, and whether or not a cancellation comes in while it works. A job
-- that is settled, or that another worker holds by a live lease, is returned as it was, and the
-- session too; any other ends succeeded, cancelled or failed, without a lease.
pub run_ingestion_job-returns :
    (w : Worker) (id : String) (job : IngestionJob) (source : DataSource) (db : Db)
    → get_job id db ≡ some job
    → get_source job.source_id db ≡ some source
    → db.faults ≡ []
    → ((is_left_alone w.started job ≡ true) × (run_ingestion_job w id db ≡ (ok job, db)))
      ⊎ ((is_left_alone w.started job ≡ false)
          × ((k : IngestionJob) × ((run_ingestion_job w id db).0 ≡ ok k) × Finished k))
unfolding run_ingestion_job
run_ingestion_job-returns w id job source db found from calm =
    let (_, same) = get_job-find id db found in
    let leased =
      run_leased-returns w job source db (ap (λ i. get_job i db) same ∙ found) from calm in
    elim (Bool-cases (is_left_alone w.started job)) [
      | inl a ↦ inl (a, ground arith)
      | inr a ↦ elim (Bool-cases job.cancel_requested) [
        | inl c ↦ inr (a, (cancelled_job w.started job, ground arith, (inl (inr refl), refl)))
        | inr c ↦ inr (a, (leased.0, ground (arith, leased.1), leased.2))
      ]
    ]

caught-failed :
    (w : Worker) (source : DataSource) (job j k : IngestionJob) (db t : Db)
    (r : Result Failure IngestionJob) (u : Db)
    → attempt w source j t ≡ (r, u)
    → discovered_in t.saved ≡ discovered_in db.work
    → (caught w job.id source.id (r, u)).0 ≡ ok k
    → k.status ≡ JobStatus.failed
    → discovered_in (caught w job.id source.id (r, u)).1.saved ≡ discovered_in db.work
caught-failed w source job j k db t (ok i) u e start h failed =
    let (settled, _) =
      attempt-Ended w source j i t (ap (λ (x : Result Failure IngestionJob × Db). x.0) e) in
    absurd (ground arith)
caught-failed w source job j k db t (raised x) u e start h failed =
    (fail_attempt-ended w x job.id source.id k u h).2
    ∙ sym (ap (λ (y : Result Failure IngestionJob × Db). discovered_in y.1.saved) e)
    ∙ attempt-discovered w source j x t (ap (λ (y : Result Failure IngestionJob × Db). y.0) e)
    ∙ start

run_leased-failed :
    (w : Worker) (job k : IngestionJob) (db : Db)
    → (run_leased w job db).0 ≡ ok k
    → k.status ≡ JobStatus.failed
    → discovered_in (run_leased w job db).1.saved ≡ discovered_in db.work
unfolding run_leased
run_leased-failed w job k db h failed = elim (Option-cases (get_source job.source_id db)) [
  | inl e ↦ absurd (ground arith)
  | inr (source, e) ↦
      let out : Result Error IngestionJob × Db = lease_job w source job db in
      elim (Result-cases out.0) [
        | inr (x, f) ↦ absurd (ground arith)
        | inl (j, f) ↦
            let start : discovered_in out.1.saved ≡ discovered_in db.work =
              lease_job-discovered w source job j db f in
            let run : Result Failure IngestionJob × Db = attempt w source j out.1 in
            let same : run_leased w job db ≡ caught w job.id source.id (run.0, run.1) =
              ground arith in
            ap (λ (y : Result Error IngestionJob × Db). discovered_in y.1.saved) same
            ∙ caught-failed w source job j k db out.1 run.0 run.1 refl start
                (sym (ap (λ (y : Result Error IngestionJob × Db). y.0) same) ∙ h) failed
      ]
]

-- A failed job is no job that a run leaves alone.
pub left_alone-failed :
    (now : Instant) (k : IngestionJob) → k.status ≡ JobStatus.failed → is_left_alone now k ≡ false
left_alone-failed now k failed = ground arith

-- A run that ends failed, whatever the database's faults were, has taken over nothing of what was
-- discovered: the committed assets with their columns, the version rows and the search documents
-- are those that the session started from.
pub run_ingestion_job-failed :
    (w : Worker) (id : String) (k : IngestionJob) (db : Db)
    → (run_ingestion_job w id db).0 ≡ ok k
    → k.status ≡ JobStatus.failed
    → discovered_in (run_ingestion_job w id db).1.saved ≡ discovered_in db.work
unfolding run_ingestion_job
run_ingestion_job-failed w id k db h failed = elim (Option-cases (get_job id db)) [
  | inl e ↦ absurd (ground arith)
  | inr (job, e) ↦ elim (Bool-cases (is_left_alone w.started job)) [
    | inl a ↦
        let same : job ≡ k = ground arith in
        absurd (
          ground (
            arith,
            left_alone-failed w.started job (ap (λ (x : IngestionJob). x.status) same ∙ failed),
          ))
    | inr a ↦ elim (Bool-cases job.cancel_requested) [
      | inl c ↦ absurd (ground arith)
      | inr c ↦
          let same : run_ingestion_job w id db ≡ run_leased w job db = ground arith in
          ap (λ (y : Result Error IngestionJob × Db). discovered_in y.1.saved) same
          ∙ run_leased-failed w job k db
              (sym (ap (λ (y : Result Error IngestionJob × Db). y.0) same) ∙ h) failed
    ]
  ]
]
