-- ===== src/Ingestion/Retries.antt =====
-- run_connector_job of apps/catalog-api/app/workers/tasks.py: one run of a job, and what follows a
-- failed one: a retry after a growing delay, or the dead letter. Celery is a parameter by the
-- number of retries that it grants a task (`Task.max_retries`; `none`: no limit), beyond which
-- `self.retry` raises the exception that it is given.
pub mod Ready
pub mod Again
pub mod Liveness
use datagenie.Catalog.Session.{Db, Error, commit}
use Prim.Native.Nat.{zero, suc}
use datagenie.Prelude.{
  ℕ, Option, Bool, if◌then◌else◌, ◌*◌, some, true, ◌+◌, none, ◌^◌, String, false, leb, ltb,
}
use datagenie.Catalog.Models.{JobStatus, Instant, IngestionJob, seconds}
use datagenie.Prelude.Exec.{Result, ◌>>◌, ok, raised}
use datagenie.Ingestion.Jobs.{write_job}
use datagenie.Ingestion.Worker.{run_ingestion_job}
use datagenie.Ingestion.Synchronize.{Worker}

pub record RetrySettings : Type 0 where
  pub connector_max_retries : ℕ
  pub connector_retry_backoff_seconds : ℕ
  pub celery_max_retries : Option ℕ

-- How a task ends: with the status that it returns, with an exception, or to be run again.
pub data TaskEnd : Type 0 where
  returned : JobStatus → TaskEnd
  crashed : TaskEnd
  retry_in : ℕ → TaskEnd

abbrev pub is_failed : JobStatus → Bool
is_failed JobStatus.failed = true
is_failed _ = false

abbrev pub grants : Option ℕ → ℕ → Bool
grants none n = true
grants (some limit) n = leb n limit

-- `self.retry`
abbrev pub celery_retry : RetrySettings → ℕ → ℕ → TaskEnd
celery_retry s retries countdown =
    if grants s.celery_max_retries (retries + 1) then retry_in countdown else crashed

abbrev pub ended_by : {A : Type 0} → TaskEnd → Result Error A × Db → TaskEnd × Db
ended_by end (ok a, db) = (end, db)
ended_by end (raised e, db) = (crashed, db)

abbrev pub dead_lettered : Instant → IngestionJob → IngestionJob
dead_lettered now job = record job {
  status = JobStatus.dead_letter;
  dead_lettered_at = some now;
  next_retry_at = none;
}

unfoldable pub bury_job : Instant → IngestionJob → Db → TaskEnd × Db
unfolding write_job commit
bury_job now job db =
    ended_by (returned JobStatus.dead_letter) ((write_job (dead_lettered now job) >> commit) db)

-- `backoff * (2 ** retries)`
abbrev pub countdown : RetrySettings → ℕ → ℕ
countdown s retries = s.connector_retry_backoff_seconds * 2 ^ retries

abbrev pub scheduled : Instant → IngestionJob → IngestionJob
scheduled at job = record job { next_retry_at = some at }

unfoldable pub schedule_retry : RetrySettings → Instant → ℕ → IngestionJob → Db → TaskEnd × Db
unfolding write_job commit
schedule_retry s now retries job db =
    ended_by (celery_retry s retries (countdown s retries))
      ((write_job (scheduled (now + seconds (countdown s retries)) job) >> commit) db)

unfoldable pub after_run :
    RetrySettings → Instant → ℕ → Result Error IngestionJob × Db → TaskEnd × Db
unfolding bury_job schedule_retry
after_run s now retries (raised e, db) = (crashed, db)
after_run s now retries (ok job, db) =
    if is_failed job.status
    then (if ltb s.connector_max_retries (retries + 1)
        then bury_job now job db
        else schedule_retry s now retries job db)
    else (returned job.status, db)

unfoldable pub run_connector_job : RetrySettings → Worker → ℕ → String → Db → TaskEnd × Db
unfolding run_ingestion_job after_run
run_connector_job s w retries job_id db =
    after_run s w.completed retries (run_ingestion_job w job_id db)

-- `db.close()`: the next run has a session of its own.
abbrev pub closed : Db → Db
closed db = record db { work = db.saved }

abbrev pub next_run : (Db → Option TaskEnd × Db) → TaskEnd × Db → Option TaskEnd × Db
next_run again (retry_in seconds, db) = again (closed db)
next_run again (returned status, db) = (some (returned status), closed db)
next_run again (crashed, db) = (some crashed, closed db)

-- The runs of one task from its `retries`-th retry on, each with a worker of its own; `none` means
-- that more than `fuel` runs are needed.
unfoldable pub run_task : RetrySettings → (ℕ → Worker) → ℕ → ℕ → String → Db → Option TaskEnd × Db
unfolding run_connector_job
run_task s workers zero retries job_id db = (none, db)
run_task s workers (suc fuel) retries job_id db =
    next_run (run_task s workers fuel (retries + 1) job_id)
      (run_connector_job s (workers retries) retries job_id db)
