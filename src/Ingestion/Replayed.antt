-- ===== src/Ingestion/Replayed.antt =====
-- A replay that succeeds.
use datagenie.Ingestion.Jobs.{
  Queue, submit, audit_and_commit, replay_dead_letter, requeued, get_job,
}
use datagenie.Catalog.Session.{Request, Db, Error}
use datagenie.Catalog.Principals.{Principal}
use datagenie.Prelude.{
  String, Option, ◌≡◌, some, arith, put_row, Option-cases, find_row, false, inl, none, inr,
  find_row-put_at, ap, ◌∙◌,
}
use datagenie.Catalog.Models.{IngestionJob, JobStatus}
use datagenie.Prelude.Json.{Value, object, field, text_or_null, end}
use datagenie.Prelude.Exec.{Result, ok, Result-cases}
use datagenie.Ingestion.Transitions.{get_job-find}
use datagenie.Ingestion.Operators.{audit_and_commit-jobs}

module _ (queue : Queue) (req : Request) (principal : Principal) where
  submit-ok :
      (j : IngestionJob) (db : Db) {s : IngestionJob}
      → (submit queue principal j db).0 ≡ ok s
      → (t : String) × (queue j.id principal.tenant_id ≡ ok t)
        × (s ≡ record j { task_id = some t })
        × ((submit queue principal j db).1.work.jobs ≡ put_row (λ x. x.id) s db.work.jobs)
  unfolding submit
  submit-ok j db h = elim (Result-cases (queue j.id principal.tenant_id)) [
    | inl (t, e) ↦ (t, e, ground arith, ground arith)
    | inr (n, e) ↦ absurd (ground arith)
  ]

  audit_and_commit-ok :
      (action : String) (id : Option String) (v : Value) (db : Db)
      → let done = audit_and_commit req principal action id v db in
        done.0 ≡ ok tt → done.1.saved ≡ done.1.work
  unfolding audit_and_commit
  audit_and_commit-ok action id v db h = ground arith

  module _ (id : String) (db : Db) where
    abbrev replayed : Result Error IngestionJob × Db
    replayed = replay_dead_letter queue req principal id db

    abbrev submitted : IngestionJob → Result Error IngestionJob × Db
    submitted job = submit queue principal (requeued job) db

    replay_dead_letter-guards :
        {j' : IngestionJob}
        → replayed.0 ≡ ok j'
        → (job : IngestionJob) × (get_job id db ≡ some job)
          × (job.status ≡ JobStatus.dead_letter)
          × ((submitted job).0 ≡ ok j')
          × (replayed.1.work.jobs ≡ (submitted job).1.work.jobs)
          × (replayed.1.saved ≡ replayed.1.work)
    unfolding replay_dead_letter
    replay_dead_letter-guards {j' = j'} h = elim (Option-cases (get_job id db)) [
      | inl e ↦ absurd (ground arith)
      | inr (job, e) ↦ elim (Result-cases (submitted job).0) [
        | inr (x, f) ↦ absurd (ground arith)
        | inl (s, f) ↦
            let v : Value = object (field "task_id" (text_or_null s.task_id) end) in
            let kept =
              audit_and_commit-jobs queue req principal "ingestion_job.replay" (some s.id) v
                (submitted job).1 in
            let saved =
              audit_and_commit-ok "ingestion_job.replay" (some s.id) v (submitted job).1 in
            (job, e, ground arith, ground arith, ground (arith, kept), ground (arith, saved))
      ]
    ]

    -- A replay that succeeds was of a dead-lettered job that the session sees. The job has been
    -- handed to the queue for the caller's tenant, and is committed as queued, with the task that the
    -- queue gave, without an error and without a request to cancel it; its attempts are kept.
    pub replay_dead_letter-ok :
        {j' : IngestionJob}
        → replayed.0 ≡ ok j'
        → (job : IngestionJob) × (t : String) × (get_job id db ≡ some job)
          × (job.status ≡ JobStatus.dead_letter)
          × (queue job.id principal.tenant_id ≡ ok t)
          × (find_row (λ x. x.id) id replayed.1.saved.jobs ≡ some j')
          × (j'.status ≡ JobStatus.queued)
          × (j'.task_id ≡ some t)
          × (j'.cancel_requested ≡ false)
          × (j'.error_message ≡ none)
          × (j'.attempt_count ≡ job.attempt_count)
    replay_dead_letter-ok {j' = j'} h =
        let (job, found, status, sent, kept, saved) = replay_dead_letter-guards h in
        let (t, asked, written, rows) = submit-ok (requeued job) db sent in
        let (row, same) = get_job-find id db found in
        (
          job,
          t,
          found,
          status,
          asked,
          rw (saved, kept, rows)
              (find_row-put_at (λ x. x.id) id j' job db.work.jobs (ap (λ x. x.id) written ∙ same)
                row),
          ap (λ x. x.status) written,
          ap (λ x. x.task_id) written,
          ap (λ x. x.cancel_requested) written,
          ap (λ x. x.error_message) written,
          ap (λ x. x.attempt_count) written,
        )
