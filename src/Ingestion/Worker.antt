-- ===== src/Ingestion/Worker.antt =====
-- run_ingestion_job of apps/catalog-api/app/services/ingestion_service.py: a job is leased, its
-- connector is run, and what it discovers is taken over in one commit, or nothing of it.
pub mod Failed
pub mod Outcomes
pub mod Calm
pub mod Runs
pub mod Settled
use Prim.Native.String.{◌++◌ as concat}
use datagenie.Catalog.Session.{Db, rollback, Action, commit, Tables, Error, other}
use datagenie.Catalog.Models.{error, Instant, DataSource, JobStatus, IngestionJob, seconds}
use Prim.Native.Nat.{suc, zero}
use datagenie.Prelude.{
  String, ℕ, Option, some, Bool, ◌+◌, if◌then◌else◌, none, true, false, ◌||◌, put_row, ltb, ◌&&◌,
  [],
}
use datagenie.Ingestion.Jobs.{
  write_job, get_source, get_job_or_404, get_job, cancel_asked, found_or_404,
}
use datagenie.Ingestion.Synchronize.{Worker, Job}
use datagenie.Prelude.Json.{Fields}
use datagenie.Ingestion.Discovery.{DiscoveryResult}
use datagenie.Catalog.SearchIndex.{Failure}
use datagenie.Prelude.Exec.{Result, ok, ◌>>◌, ◌>>=◌, pure, raised, gets, raise}
use datagenie.Ingestion.Apply.{
  get_or_create_sync_state, inside, apply_successful_discovery, write_source,
}

abbrev pub is_settled : JobStatus → Bool
is_settled JobStatus.succeeded = true
is_settled JobStatus.cancelled = true
is_settled JobStatus.dead_letter = true
is_settled _ = false

abbrev pub is_running : JobStatus → Bool
is_running JobStatus.running = true
is_running _ = false

abbrev pub is_after : Instant → Option Instant → Bool
is_after now none = false
is_after now (some t) = ltb now t

-- Both early returns: nothing is to be done, or another worker holds the lease.
abbrev pub is_left_alone : Instant → IngestionJob → Bool
is_left_alone now job =
    is_settled job.status || is_running job.status && is_after now job.lease_expires_at

abbrev pub cancelled_job : Instant → IngestionJob → IngestionJob
cancelled_job now job = record job {
  status = JobStatus.cancelled;
  completed_at = some now;
  lease_expires_at = none;
}

unfoldable pub cancel_run : Instant → IngestionJob → Action IngestionJob
unfolding write_job commit
cancel_run now job = write_job (cancelled_job now job) >> commit >> pure (cancelled_job now job)

abbrev pub leased_job : Worker → Fields → IngestionJob → IngestionJob
leased_job w cursor job = record job {
  cursor_before = cursor;
  status = JobStatus.running;
  attempt_count = job.attempt_count + 1;
  started_at = some w.started;
  lease_expires_at = some (w.started + seconds w.lease_seconds);
  next_retry_at = none;
  error_message = none;
  warnings = [];
}

-- From the state of the source to the first commit.
unfoldable pub lease_job : Worker → DataSource → IngestionJob → Action IngestionJob
unfolding get_or_create_sync_state write_job commit
lease_job w source job = do
  state ← get_or_create_sync_state source.id
  write_job (leased_job w state.cursor job)
  commit
  pure (leased_job w state.cursor job)

-- What another session has committed to the job's row while the connector worked: a cancellation
-- that an operator asked for (`request_cancel`).
abbrev pub asked_meanwhile : Worker → IngestionJob → IngestionJob
asked_meanwhile w job = if w.cancel_meanwhile then cancel_asked job else job

abbrev pub put_job : IngestionJob → Tables → Tables
put_job job t = record t { jobs = put_row (λ j. j.id) job t.jobs }

unfoldable pub meanwhile : Worker → IngestionJob → Job (Unit {0})
meanwhile w job db =
    let asked = asked_meanwhile w job in
    (ok tt, record db { work = put_job asked db.work; saved = put_job asked db.saved })

-- `connector.validate` and `connector.discover`
unfoldable pub call_connector : Worker → DataSource → IngestionJob → Result Failure DiscoveryResult
call_connector w source job =
    let connector = w.connector source.source_type in
    elim (connector.validate source) [
      | raised e ↦ raised e
      | ok _ ↦ connector.discover source job.requested_sync_mode job.cursor_before
    ]

abbrev pub released : IngestionJob → IngestionJob
released job = record job { lease_expires_at = none; next_retry_at = none }

-- The last two assignments and the commit.
unfoldable pub finish_attempt : Worker → IngestionJob → Job IngestionJob
unfolding write_job commit
finish_attempt w job = inside w (write_job (released job) >> commit >> pure (released job))

unfoldable pub take_over : Worker → DataSource → IngestionJob → DiscoveryResult → Job IngestionJob
unfolding cancel_run apply_successful_discovery finish_attempt
take_over w source job result =
    if job.cancel_requested
    then inside w (cancel_run w.completed job)
    else apply_successful_discovery w source job result >>= finish_attempt w

-- The body of the `try`.
unfoldable pub attempt : Worker → DataSource → IngestionJob → Job IngestionJob
unfolding meanwhile call_connector take_over
attempt w source job = do
  meanwhile w job
  result ← λ db. (call_connector w source job, db)
  take_over w source (asked_meanwhile w job) result

-- `text[:n]`
abbrev pub take_chars : ℕ → String → String
take_chars zero s = String.[]
take_chars (suc n) String.[] = String.[]
take_chars (suc n) (String.◌∷◌ c s) = String.◌∷◌ c (take_chars n s)

unfoldable pub failure_text : Failure → String
failure_text e = concat e.type_name (concat ": " (take_chars 500 e.message))

abbrev pub failed_job : Instant → Failure → IngestionJob → IngestionJob
failed_job now e job = record job {
  status = JobStatus.failed;
  completed_at = some now;
  lease_expires_at = none;
  error_message = some (failure_text e);
}

-- `if source: source.status = SourceStatus.ERROR`
abbrev pub mark_source : Option DataSource → Action (Unit {0})
mark_source none = pure tt
mark_source (some s) = write_source (record s { status = error })

-- The body of the `except`. With no job the last `db.refresh` raises.
abbrev pub record_failure :
    Worker → Failure → Option IngestionJob → Option DataSource → Action IngestionJob
record_failure w e none source = mark_source source >> commit >> raise other
record_failure w e (some job) source = do
  write_job (failed_job w.completed e job)
  mark_source source
  commit
  pure (failed_job w.completed e job)

unfoldable pub fail_attempt : Worker → Failure → String → String → Action IngestionJob
unfolding rollback get_job get_source write_job write_source commit failure_text
fail_attempt w e job_id source_id = do
  rollback
  job ← gets (get_job job_id)
  source ← gets (get_source source_id)
  record_failure w e job source

-- The `try` with its `except`.
abbrev pub caught :
    Worker → String → String → Result Failure IngestionJob × Db → Result Error IngestionJob × Db
caught w job_id source_id (ok job, db) = (ok job, db)
caught w job_id source_id (raised e, db) = fail_attempt w e job_id source_id db

unfoldable pub run_leased : Worker → IngestionJob → Action IngestionJob
unfolding get_source lease_job attempt fail_attempt
run_leased w job = do
  source ← found_or_404 "Data source not found for ingestion job." (get_source job.source_id)
  running ← lease_job w source job
  λ db. caught w job.id source.id (attempt w source running db)

unfoldable pub run_ingestion_job : Worker → String → Action IngestionJob
unfolding get_job_or_404 cancel_run run_leased
run_ingestion_job w job_id = do
  job ← get_job_or_404 job_id
  if is_left_alone w.started job
      then pure job
      else if job.cancel_requested
      then cancel_run w.started job
      else run_leased w job
