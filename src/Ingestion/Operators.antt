-- ===== src/Ingestion/Operators.antt =====
-- What a retry and a replay do to the jobs that are there, whatever the queue and the database
-- answer.
use Prim.Native.String.{◌++◌ as concat}
use datagenie.Catalog.Models.{JobStatus, IngestionJob, DataSource, SyncMode}
use datagenie.Ingestion.Jobs.{
  Queue, is_dead_letter, audit_and_commit, submit, replay_dead_letter, get_job, requeued,
  create_ingestion_job, retry_ingestion_job, is_retryable, new_job, cursor_of, get_source,
  get_sync_state, submit_retry,
}
use datagenie.Catalog.Session.{Request, Db, Error}
use datagenie.Prelude.{
  ◌≡◌, true, String, Option, subst, put_row, sym, arith, some, Option-cases, inl, inr, refl,
  Bool-cases, ◌∙◌, find_row, none, ◌++◌, ◌∷◌, ap, [], ◌⊎◌,
}
use datagenie.Catalog.Principals.{Principal}
use datagenie.Ingestion.Transitions.{
  MayBecome, JobsStep, replays, JobsStep-refl, get_job-find, JobsStep-put, JobsStep-append,
  JobsStep-added,
}
use datagenie.Prelude.Json.{Value, object, field, text_or_null, end, text}
use datagenie.Prelude.Exec.{Result, Result-cases, ok, raised}

dead_letter-MayBecome :
    (s t : JobStatus) → is_dead_letter s ≡ true → t ≡ JobStatus.queued → MayBecome s t
dead_letter-MayBecome JobStatus.dead_letter t h e =
    subst (λ x. MayBecome JobStatus.dead_letter x) (sym e) replays
dead_letter-MayBecome JobStatus.queued t h e = absurd (ground arith)
dead_letter-MayBecome JobStatus.running t h e = absurd (ground arith)
dead_letter-MayBecome JobStatus.succeeded t h e = absurd (ground arith)
dead_letter-MayBecome JobStatus.failed t h e = absurd (ground arith)
dead_letter-MayBecome JobStatus.cancelled t h e = absurd (ground arith)

module _ (queue : Queue) (req : Request) (principal : Principal) where
  pub audit_and_commit-jobs :
      (action : String) (id : Option String) (v : Value) (db : Db)
      → (audit_and_commit req principal action id v db).1.work.jobs ≡ db.work.jobs
  unfolding audit_and_commit
  audit_and_commit-jobs action id v db = ground arith

  submit-jobs :
      (j : IngestionJob) (db : Db)
      → (j' : IngestionJob) × ((submit queue principal j db).1.work.jobs
          ≡ put_row (λ x. x.id) j' db.work.jobs)
        × (j'.id ≡ j.id)
        × (j'.status ≡ j.status)
  unfolding submit
  submit-jobs j db = elim (Result-cases (queue j.id principal.tenant_id)) [
    | inl (t, e) ↦ (record j { task_id = some t }, ground arith, refl, refl)
    | inr (n, e) ↦ (
      record j { error_message = some (concat "queue_submission_failed: " n) },
      ground arith,
      refl,
      refl,
    )
  ]

  submit_retry-jobs :
      (job : IngestionJob) (source : DataSource) (n : IngestionJob) (db : Db)
      → let submitted = submit queue principal (record n { retry_of_job_id = some job.id }) db in
        (submit_retry queue req principal job source n db).1.work.jobs ≡ submitted.1.work.jobs
  unfolding submit_retry
  submit_retry-jobs job source n db =
      let submitted : Result Error IngestionJob × Db =
        submit queue principal (record n { retry_of_job_id = some job.id }) db in
      elim (Result-cases submitted.0) [
        | inr (x, h) ↦ ground arith
        | inl (s, h) ↦ ground (
          arith,
          audit_and_commit-jobs "ingestion_job.retry" (some s.id)
              (object (
                field "retry_of_job_id" (text job.id) (
                  field "source_id" (text source.id)
                    (field "task_id" (text_or_null s.task_id) end))))
              submitted.1,
        )
      ]

  module _ (id : String) (db : Db) where
    replayed-jobs :
        (job : IngestionJob)
        → get_job id db ≡ some job
        → is_dead_letter job.status ≡ true
        → (replay_dead_letter queue req principal id db).1.work.jobs
          ≡ (submit queue principal (requeued job) db).1.work.jobs
    unfolding replay_dead_letter
    replayed-jobs job e a = elim (Result-cases (submit queue principal (requeued job) db).0) [
      | inr (x, f) ↦ ground arith
      | inl (s, f) ↦ ground (
        arith,
        audit_and_commit-jobs "ingestion_job.replay" (some s.id)
            (object (field "task_id" (text_or_null s.task_id) end))
            (submit queue principal (requeued job) db).1,
      )
    ]

    pub replay_dead_letter-JobsStep :
        JobsStep db.work.jobs (replay_dead_letter queue req principal id db).1.work.jobs
    unfolding replay_dead_letter
    replay_dead_letter-JobsStep = elim (Option-cases (get_job id db)) [
      | inl e ↦ JobsStep-refl db.work.jobs _ (ground arith)
      | inr (job, e) ↦
          let (row, same) = get_job-find id db e in
          elim (Bool-cases (is_dead_letter job.status)) [
            | inl a ↦
                let (j', rows, ids, status) = submit-jobs (requeued job) db in
                JobsStep-put id job j' db.work.jobs _ row (ids ∙ same)
                  (dead_letter-MayBecome job.status j'.status a status)
                  (replayed-jobs job e a ∙ rows)
            | inr a ↦ JobsStep-refl db.work.jobs _ (ground arith)
          ]
    ]

    created-jobs :
        (source : DataSource) (mode : SyncMode)
        → let n = new_job req db.tenant source mode (cursor_of (get_sync_state source.id db)) in
          let created = create_ingestion_job req source mode db in
          (created.1.work.jobs ≡ db.work.jobs ++ n ∷ [])
          × ((created.0 ≡ ok n) ⊎ ((e : Error) × (created.0 ≡ raised e)))
    unfolding create_ingestion_job
    created-jobs source mode = elim (Result-cases (create_ingestion_job req source mode db).0) [
      | inl (c, e) ↦ (ground arith, inl (ground arith))
      | inr (x, e) ↦ (ground arith, inr (x, e))
    ]

    pub retry_ingestion_job-JobsStep :
        find_row (λ x. x.id) req.new_id db.work.jobs ≡ none
        → JobsStep db.work.jobs (retry_ingestion_job queue req principal id db).1.work.jobs
    unfolding retry_ingestion_job new_job
    retry_ingestion_job-JobsStep fresh = elim (Option-cases (get_job id db)) [
      | inl e ↦ JobsStep-refl db.work.jobs _ (ground arith)
      | inr (job, e) ↦ elim (Bool-cases (is_retryable job.status)) [
        | inr a ↦ JobsStep-refl db.work.jobs _ (ground arith)
        | inl a ↦ elim (Option-cases (get_source job.source_id db)) [
          | inl f ↦ JobsStep-refl db.work.jobs _ (ground arith)
          | inr (source, f) ↦
              let (rows, ended) = created-jobs source job.requested_sync_mode in
              let t : Db = (create_ingestion_job req source job.requested_sync_mode db).1 in
              let n : IngestionJob =
                new_job req db.tenant source job.requested_sync_mode
                  (cursor_of (get_sync_state source.id db)) in
              elim ended [
                | inr (x, g) ↦
                    JobsStep-append db.work.jobs (n ∷ [])
                      (retry_ingestion_job queue req principal id db).1.work.jobs
                      (ground (arith, rows))
                | inl g ↦
                    let (j', put, ids, _) =
                      submit-jobs (record n { retry_of_job_id = some job.id }) t in
                    let last : (retry_ingestion_job queue req principal id db).1.work.jobs
                        ≡ (submit_retry queue req principal job source n t).1.work.jobs =
                      ground arith in
                    subst (JobsStep db.work.jobs)
                      (sym (
                        last
                        ∙ submit_retry-jobs job source n t
                        ∙ put
                        ∙ ap (put_row (λ x. x.id) j') rows))
                      (JobsStep-added n j' db.work.jobs (rw ids fresh))
              ]
        ]
      ]
    ]
