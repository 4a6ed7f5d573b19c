-- ===== src/Ingestion/Transitions.antt =====
-- What the operators' routes may do to the jobs that are there.
-- The changes of status that an operator can bring about.
use datagenie.Catalog.Models.{JobStatus, IngestionJob}
use datagenie.Prelude.{
  find_row-put_at, List, String, find_row, ◌≡◌, some, none, put_row, ◌++◌, Bool-cases, arith, ◌∷◌,
  ◌==◌, [], [], find_row-put_ne, inl, eq_iff, ap, ◌∙◌, subst, sym, inr, ◌≢◌, Option-cases,
  if◌then◌else◌, find_row-key, find_row-append,
}
use datagenie.Ingestion.Jobs.{
  get_job, cancel_active, request_cancel, is_queued, cancel_asked, is_active,
}
use datagenie.Catalog.Session.{Request, Db}
use datagenie.Catalog.Principals.{Principal}

pub data MayBecome : JobStatus → JobStatus → Type 0 where
  stays : {s : JobStatus} → MayBecome s s
  cancels : MayBecome JobStatus.queued JobStatus.cancelled
  replays : MayBecome JobStatus.dead_letter JobStatus.queued

-- Every job of the first table is in the second, in the same status or a permitted one.
abbrev pub JobsStep : List IngestionJob → List IngestionJob → Type 0
JobsStep jobs jobs' =
    (k : String) (j : IngestionJob)
    → find_row (λ x. x.id) k jobs ≡ some j
    → (j' : IngestionJob) × (find_row (λ x. x.id) k jobs' ≡ some j') × MayBecome j.status j'.status

pub JobsStep-refl : (jobs jobs' : List IngestionJob) → jobs' ≡ jobs → JobsStep jobs jobs'
JobsStep-refl jobs jobs' e k j h = (j, rw e h, stays)

pub JobsStep-put :
    (k : String) (job job' : IngestionJob) (jobs jobs' : List IngestionJob)
    → find_row (λ x. x.id) k jobs ≡ some job
    → job'.id ≡ k
    → MayBecome job.status job'.status
    → jobs' ≡ put_row (λ x. x.id) job' jobs
    → JobsStep jobs jobs'
JobsStep-put k job job' jobs jobs' found same step e i j h = elim (Bool-cases (i == k)) [
  | inl b ↦
      let ik : i ≡ k = ground (arith, eq_iff i k) in
      let same_row : j ≡ job = ground (arith, ap (λ x. find_row (λ y. y.id) x jobs) ik) in
      (
        job',
        rw (e, ik) (find_row-put_at (λ x. x.id) k job' job jobs same found),
        subst (λ x. MayBecome x.status job'.status) (sym same_row) step,
      )
  | inr b ↦
      let ne : i ≢ k = ground (arith, eq_iff i k) in
      (j, rw e (find_row-put_ne (λ x. x.id) i job' jobs (λ p. ne (p ∙ same)) ∙ h), stays)
]

-- A row that is added under a new key, and written again.
pub JobsStep-added :
    (n n' : IngestionJob) (jobs : List IngestionJob)
    → find_row (λ x. x.id) n'.id jobs ≡ none
    → JobsStep jobs (put_row (λ x. x.id) n' (jobs ++ n ∷ []))
JobsStep-added n n' jobs fresh k j h = (
  j,
  find_row-put_ne (λ x. x.id) k n' (jobs ++ n ∷ [])
        (λ e. ground (arith, ap (λ x. find_row (λ y. y.id) x jobs) e))
      ∙ find_row-append (λ x. x.id) k jobs (n ∷ []) j h,
  stays,
)

pub get_job-find :
    (id : String) (db : Db) {j : IngestionJob}
    → get_job id db ≡ some j
    → (find_row (λ q. q.id) id db.work.jobs ≡ some j) × (j.id ≡ id)
unfolding get_job
get_job-find id db {j = j} h = elim (Option-cases (find_row (λ q. q.id) id db.work.jobs)) [
  | inl e ↦ absurd (ground arith)
  | inr (q, e) ↦ (ground arith, ground (arith, find_row-key (λ r. r.id) id db.work.jobs j))
]

module _ (req : Request) (principal : Principal) (id : String) (db : Db) where
  cancelled-MayBecome :
      (s : JobStatus) → MayBecome s (if is_queued s then JobStatus.cancelled else s)
  cancelled-MayBecome JobStatus.queued = cancels
  cancelled-MayBecome JobStatus.running = stays
  cancelled-MayBecome JobStatus.succeeded = stays
  cancelled-MayBecome JobStatus.failed = stays
  cancelled-MayBecome JobStatus.cancelled = stays
  cancelled-MayBecome JobStatus.dead_letter = stays

  cancel_active-jobs :
      (job : IngestionJob)
      → (cancel_active req principal job db).1.work.jobs
        ≡ put_row (λ x. x.id) (cancel_asked job) db.work.jobs
  unfolding cancel_active
  cancel_active-jobs job = ground arith

  pub request_cancel-JobsStep :
      JobsStep db.work.jobs (request_cancel req principal id db).1.work.jobs
  unfolding request_cancel
  request_cancel-JobsStep = elim (Option-cases (get_job id db)) [
    | inl e ↦ JobsStep-refl db.work.jobs _ (ground arith)
    | inr (job, e) ↦
        let (row, same) = get_job-find id db e in
        elim (Bool-cases (is_active job.status)) [
          | inl a ↦
              JobsStep-put id job (cancel_asked job) db.work.jobs _ row same
                (cancelled-MayBecome job.status) (ground (arith, cancel_active-jobs job))
          | inr a ↦ JobsStep-refl db.work.jobs _ (ground arith)
        ]
  ]

pub JobsStep-append :
    (jobs added jobs' : List IngestionJob) → jobs' ≡ jobs ++ added → JobsStep jobs jobs'
JobsStep-append jobs added jobs' e k j h =
    (j, rw e (find_row-append (λ x. x.id) k jobs added j h), stays)
