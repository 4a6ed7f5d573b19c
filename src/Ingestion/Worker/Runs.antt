-- ===== src/Ingestion/Worker/Runs.antt =====
-- Every run of a job comes to an end of its own, and a failed one leaves no half of a discovery:
-- run_ingestion_job of apps/catalog-api/app/services/ingestion_service.py.
use datagenie.Catalog.Session.{Db, in_scope}
use datagenie.Ingestion.Jobs.{get_job, get_source, get_sync_state}
use datagenie.Ingestion.Worker.{
  fail_attempt, lease_job, failed_job, leased_job, asked_meanwhile, caught,
}
use datagenie.Ingestion.Apply.{get_or_create_sync_state, new_sync_state}
use datagenie.Prelude.{
  String, ◌≡◌, [], some, find_row, Option-cases, put_row, Bool, if◌then◌else◌, inl, none, arith,
  inr, refl, ap, ◌⊎◌, find_row-put_at,
}
use datagenie.Ingestion.Synchronize.{Worker}
use datagenie.Catalog.Models.{IngestionJob, DataSource, SourceSyncState, JobStatus}
use datagenie.Catalog.SearchIndex.{Failure}
use datagenie.Prelude.Exec.{ok, Result, raised}
use datagenie.Ingestion.Worker.Calm.{Calm, get_or_create-Calm}
use datagenie.Ingestion.Worker.Outcomes.{Ended}
use datagenie.Ingestion.Transitions.{get_job-find}

-- A row that stands for the job in a session of the same tenant is read.
pub get_job-again :
    (id : String) (db t : Db) (job j : IngestionJob)
    → get_job id db ≡ some job
    → t.tenant ≡ db.tenant
    → t.isolation ≡ db.isolation
    → find_row (λ x. x.id) id t.work.jobs ≡ some j
    → j.tenant_id ≡ job.tenant_id
    → get_job id t ≡ some j
unfolding get_job
get_job-again id db t job j h tenant isolation found same =
    elim (Option-cases (find_row (λ x. x.id) id db.work.jobs)) [
      | inl e ↦ absurd (ground arith)
      | inr (q, e) ↦ rw (found, tenant, isolation) (seen q job j (in_scope db) same (rw e at h))
    ]
  where
    seen :
        (q job j : IngestionJob) (visible : String → Bool)
        → j.tenant_id ≡ job.tenant_id
        → (if visible q.tenant_id then some q else none) ≡ some job
        → (if visible j.tenant_id then some j else none) ≡ some j
    seen q job j visible same h = ground (arith, ap visible same)

pub fail_attempt-ok :
    (w : Worker) (e : Failure) (job_id source_id : String) (j : IngestionJob) (db : Db)
    → db.faults ≡ []
    → get_job job_id (record db { work = db.saved }) ≡ some j
    → (fail_attempt w e job_id source_id db).0 ≡ ok (failed_job w.completed e j)
unfolding fail_attempt
fail_attempt-ok w e job_id source_id j db calm h =
    elim (Option-cases (get_source source_id (record db { work = db.saved }))) [
      | inl g ↦ ground arith
      | inr (s, g) ↦ ground arith
    ]

get_or_create-ok :
    (id : String) (db : Db)
    → db.faults ≡ []
    → (s : SourceSyncState) × ((get_or_create_sync_state id db).0 ≡ ok s)
      × ((get_or_create_sync_state id db).1.work.jobs ≡ db.work.jobs)
      × ((get_or_create_sync_state id db).1.work.sources ≡ db.work.sources)
unfolding get_or_create_sync_state
get_or_create-ok id db calm = elim (Option-cases (get_sync_state id db)) [
  | inl e ↦ (new_sync_state db.tenant id, ground arith, ground arith, ground arith)
  | inr (s, e) ↦ (s, ground arith, ground arith, ground arith)
]

pub lease_job-ok :
    (w : Worker) (source : DataSource) (job : IngestionJob) (db : Db)
    → db.faults ≡ []
    → (j : IngestionJob) × ((lease_job w source job db).0 ≡ ok j)
      × (j.id ≡ job.id)
      × (j.tenant_id ≡ job.tenant_id)
      × ((lease_job w source job db).1.saved.jobs ≡ put_row (λ x. x.id) j db.work.jobs)
      × Calm db (lease_job w source job db).1
      × (j.source_id ≡ job.source_id)
      × ((lease_job w source job db).1.saved.sources ≡ db.work.sources)
unfolding lease_job
lease_job-ok w source job db calm =
    let (s, e, rows, kept) = get_or_create-ok source.id db calm in
    let t : Db = (get_or_create_sync_state source.id db).1 in
    let c = get_or_create-Calm source.id db in
    let none_left = c.faults calm in
    (
      leased_job w s.cursor job,
      ground arith,
      refl,
      refl,
      ground (arith, rows),
      record {
        tenant = ground (arith, c.tenant);
        isolation = ground (arith, c.isolation);
        faults = λ h. ground arith;
      },
      refl,
      ground (arith, kept),
    )

-- What the run of a job that is not left alone comes to.
abbrev pub Finished : IngestionJob → Type 0
Finished k =
    (((k.status ≡ JobStatus.succeeded) ⊎ (k.status ≡ JobStatus.cancelled))
      ⊎ (k.status ≡ JobStatus.failed))
    × (k.lease_expires_at ≡ none)

pub caught-ok :
    (w : Worker) (source_id : String) (job j : IngestionJob) (db t : Db)
    (r : Result Failure IngestionJob) (u : Db)
    → get_job job.id db ≡ some job
    → j.id ≡ job.id
    → j.tenant_id ≡ job.tenant_id
    → ((k : IngestionJob) → r ≡ ok k → Ended k)
    → ((e : Failure)
        → r ≡ raised e
        → u.saved.jobs
          ≡ put_row (λ x. x.id) (asked_meanwhile w j) (put_row (λ x. x.id) j db.work.jobs))
    → Calm db u
    → db.faults ≡ []
    → (k : IngestionJob) × ((caught w job.id source_id (r, u)).0 ≡ ok k) × Finished k
caught-ok w source_id job j db t (ok k) u found same tenant ended rows c calm =
    (k, refl, (inl (ended k refl).0, (ended k refl).1))
caught-ok w source_id job j db t (raised e) u found same tenant ended rows c calm =
    let asked : IngestionJob = asked_meanwhile w j in
    let asked_id : asked.id ≡ job.id = ground arith in
    let asked_tenant : asked.tenant_id ≡ job.tenant_id = ground arith in
    let (row, _) = get_job-find job.id db found in
    let once : find_row (λ x. x.id) job.id (put_row (λ x. x.id) j db.work.jobs) ≡ some j =
      find_row-put_at (λ x. x.id) job.id j job db.work.jobs same row in
    let twice : find_row (λ x. x.id) job.id u.saved.jobs ≡ some asked =
      rw (rows e refl) (find_row-put_at (λ x. x.id) job.id asked j _ asked_id once) in
    let again =
      get_job-again job.id db (record u { work = u.saved }) job asked found c.tenant c.isolation
        twice asked_tenant in
    (
      failed_job w.completed e asked,
      fail_attempt-ok w e job.id source_id asked u (c.faults calm) again,
      (inr refl, refl),
    )
