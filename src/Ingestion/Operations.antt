-- ===== src/Ingestion/Operations.antt =====
-- The routes of apps/catalog-api/app/api/v1/ingestion_jobs.py together.
use datagenie.Prelude.{Option, String, find_row, ◌≡◌, arith, none}
use datagenie.Ingestion.Jobs.{
  Queue, list_ingestion_jobs, get_ingestion_job, retry_ingestion_job, audit_and_commit,
  get_job_or_404, replay_dead_letter, request_cancel,
}
use datagenie.Catalog.Session.{Request, Db}
use datagenie.Catalog.Principals.{Principal}
use datagenie.Ingestion.Transitions.{JobsStep, JobsStep-refl, request_cancel-JobsStep}
use datagenie.Ingestion.Operators.{retry_ingestion_job-JobsStep, replay_dead_letter-JobsStep}

pub data Operation : Type 0 where
  list_jobs : Option String → Operation
  read_job : String → Operation
  retry_job : String → Operation
  replay_job : String → Operation
  cancel_job : String → Operation

-- The session that a request leaves, whether it is answered or refused.
abbrev pub operate : Queue → Request → Principal → Operation → Db → Db
operate queue req principal (list_jobs source_id) db =
    (list_ingestion_jobs req principal source_id db).1
operate queue req principal (read_job id) db = (get_ingestion_job req principal id db).1
operate queue req principal (retry_job id) db = (retry_ingestion_job queue req principal id db).1
operate queue req principal (replay_job id) db = (replay_dead_letter queue req principal id db).1
operate queue req principal (cancel_job id) db = (request_cancel req principal id db).1

module _ (queue : Queue) (req : Request) (principal : Principal) (db : Db) where
  list_ingestion_jobs-jobs :
      (source_id : Option String)
      → (list_ingestion_jobs req principal source_id db).1.work.jobs ≡ db.work.jobs
  unfolding list_ingestion_jobs audit_and_commit
  list_ingestion_jobs-jobs source_id = ground arith

  get_ingestion_job-jobs :
      (id : String) → (get_ingestion_job req principal id db).1.work.jobs ≡ db.work.jobs
  unfolding get_ingestion_job get_job_or_404 audit_and_commit
  get_ingestion_job-jobs id = ground arith

  -- Whatever an operator asks for, and whatever the queue and the database answer, no job is lost,
  -- and the status of a job that was there stays as it is, but for a queued job that may be
  -- cancelled and a dead-lettered one that may be queued again; a running, a succeeded and a failed
  -- job keep theirs. The identifier drawn for a retry is that of no job.
  pub operate-JobsStep :
      (op : Operation)
      → find_row (λ x. x.id) req.new_id db.work.jobs ≡ none
      → JobsStep db.work.jobs (operate queue req principal op db).work.jobs
  operate-JobsStep (list_jobs source_id) fresh =
      JobsStep-refl db.work.jobs _ (list_ingestion_jobs-jobs source_id)
  operate-JobsStep (read_job id) fresh = JobsStep-refl db.work.jobs _ (get_ingestion_job-jobs id)
  operate-JobsStep (retry_job id) fresh =
      retry_ingestion_job-JobsStep queue req principal id db fresh
  operate-JobsStep (replay_job id) fresh = replay_dead_letter-JobsStep queue req principal id db
  operate-JobsStep (cancel_job id) fresh = request_cancel-JobsStep req principal id db
