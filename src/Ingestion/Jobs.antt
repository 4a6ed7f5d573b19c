-- ===== src/Ingestion/Jobs.antt =====
-- apps/catalog-api/app/api/v1/ingestion_jobs.py with create_ingestion_job and get_job_or_404 of
-- app/services/catalog_service.py. The caller has passed `require_roles`. The Celery queue is a
-- parameter: from the ids of the job and the tenant it gives the id of a task, or raises an
-- exception of the given type name.
use Prim.Native.String.{◌++◌ as concat}
use datagenie.Prelude.{
  String, Option, Bool, false, true, List, none, if◌then◌else◌, some, find_row, put_row, ◌==◌, [],
  ◌++◌, ◌||◌, keep, not, ◌∷◌, ◌&&◌, length,
}
use datagenie.Catalog.Session.{
  scoped, Request, commit, Db, Action, in_scope, update_tables, raise_if, http,
}
use datagenie.Catalog.Models.{IngestionJob, JobStatus, DataSource, SourceSyncState, SyncMode}
use datagenie.Catalog.Audit.{record_audit_event}
use datagenie.Prelude.Exec.{Result, ok, ◌>>=◌, ◌>>◌, raised, gets, pure, raise}
use datagenie.Catalog.Principals.{Principal}
use datagenie.Prelude.Json.{Fields, Value, end, object, field, text, text_or_null, int}

abbrev pub Queue : Type 0
Queue = String → String → Result String String

unfoldable pub get_job : String → Db → Option IngestionJob
unfolding scoped
get_job k db = scoped (λ j. j.tenant_id) (in_scope db) (find_row (λ j. j.id) k db.work.jobs)

unfoldable pub get_source : String → Db → Option DataSource
unfolding scoped
get_source k db = scoped (λ s. s.tenant_id) (in_scope db) (find_row (λ s. s.id) k db.work.sources)

unfoldable pub get_sync_state : String → Db → Option SourceSyncState
unfolding scoped
get_sync_state k db =
    scoped (λ s. s.tenant_id) (in_scope db) (find_row (λ s. s.source_id) k db.work.sync_states)

abbrev pub found_or_404 : {A : Type 0} → String → (Db → Option A) → Action A
found_or_404 detail look db = elim (look db) [
  | none ↦ (raised (http 404 detail), db)
  | some a ↦ (ok a, db)
]

unfoldable pub get_job_or_404 : String → Action IngestionJob
unfolding get_job
get_job_or_404 job_id = found_or_404 "Ingestion job not found." (get_job job_id)

unfoldable pub write_job : IngestionJob → Action (Unit {0})
write_job j = update_tables λ t. record t { jobs = put_row (λ k. k.id) j t.jobs }

abbrev pub status_text : JobStatus → String
status_text JobStatus.queued = "queued"
status_text JobStatus.running = "running"
status_text JobStatus.succeeded = "succeeded"
status_text JobStatus.failed = "failed"
status_text JobStatus.cancelled = "cancelled"
status_text JobStatus.dead_letter = "dead_letter"

unfoldable pub new_job : Request → String → DataSource → SyncMode → Fields → IngestionJob
new_job req tenant source sync_mode cursor = record {
  id = req.new_id;
  tenant_id = tenant;
  source_id = source.id;
  status = JobStatus.queued;
  attempt_count = 0;
  retry_of_job_id = none;
  task_id = none;
  cancel_requested = false;
  dead_lettered_at = none;
  next_retry_at = none;
  lease_expires_at = none;
  requested_sync_mode = sync_mode;
  effective_sync_mode = none;
  cursor_before = cursor;
  cursor_after = end;
  connector_strategy = none;
  warnings = [];
  discovery_stats = end;
  error_message = none;
  started_at = none;
  completed_at = none;
}

-- `dict(sync_state.cursor) if sync_state else {}`
abbrev pub cursor_of : Option SourceSyncState → Fields
cursor_of none = end
cursor_of (some s) = s.cursor

unfoldable pub create_ingestion_job : Request → DataSource → SyncMode → Action IngestionJob
unfolding new_job commit get_sync_state
create_ingestion_job req source sync_mode = do
  cursor ← gets (λ db. cursor_of (get_sync_state source.id db))
  tenant ← gets (λ db. db.tenant)
  update_tables λ t. record t { jobs = t.jobs ++ new_job req tenant source sync_mode cursor ∷ [] }
  commit
  pure (new_job req tenant source sync_mode cursor)

-- The submission: a queue that raises leaves its name on the job, which is committed, and is a 503.
unfoldable pub submit : Queue → Principal → IngestionJob → Action IngestionJob
unfolding write_job commit
submit queue principal job = elim (queue job.id principal.tenant_id) [
  | ok task ↦
      write_job (record job { task_id = some task }) >> pure (record job { task_id = some task })
  | raised name ↦
      (write_job (record job { error_message = some (concat "queue_submission_failed: " name) })
        >> commit)
      >> raise (http 503 "connector_queue_unavailable")
]

-- `record_audit_event` with the fields that the routes share, then the commit.
unfoldable pub audit_and_commit :
    Request → Principal → String → Option String → Value → Action (Unit {0})
unfolding record_audit_event commit
audit_and_commit req principal action resource_id metadata =
    record_audit_event (some principal) req.event_id action "ingestion_job" resource_id "success"
      req.request_id metadata
    >> commit

-- `if source_id: statement.where(…)`: the empty text is no filter.
abbrev pub is_from : Option String → IngestionJob → Bool
is_from none j = true
is_from (some s) j = s == "" || j.source_id == s

unfoldable pub list_ingestion_jobs :
    Request → Principal → Option String → Action (List IngestionJob)
unfolding audit_and_commit
list_ingestion_jobs req principal source_id = do
  jobs ← gets (λ db. keep (λ j. in_scope db j.tenant_id && is_from source_id j) db.work.jobs)
  audit_and_commit req principal "ingestion_job.list" none (
      object
        (field "source_id" (text_or_null source_id) (field "result_count" (int (length jobs)) end)))
  pure jobs

unfoldable pub get_ingestion_job : Request → Principal → String → Action IngestionJob
unfolding get_job_or_404 audit_and_commit
get_ingestion_job req principal job_id = do
  job ← get_job_or_404 job_id
  audit_and_commit req principal "ingestion_job.read" (some job.id) (
      object (
        field "source_id" (text job.source_id)
          (field "status" (text (status_text job.status)) end)))
  pure job

abbrev pub is_retryable : JobStatus → Bool
is_retryable JobStatus.failed = true
is_retryable JobStatus.cancelled = true
is_retryable _ = false

abbrev pub is_dead_letter : JobStatus → Bool
is_dead_letter JobStatus.dead_letter = true
is_dead_letter _ = false

abbrev pub is_queued : JobStatus → Bool
is_queued JobStatus.queued = true
is_queued _ = false

abbrev pub is_active : JobStatus → Bool
is_active JobStatus.queued = true
is_active JobStatus.running = true
is_active _ = false

-- From the submission on.
unfoldable pub submit_retry :
    Queue → Request → Principal → IngestionJob → DataSource → IngestionJob → Action IngestionJob
unfolding submit audit_and_commit
submit_retry queue req principal prior_job source retry_job = do
  submitted ← submit queue principal (record retry_job { retry_of_job_id = some prior_job.id })
  audit_and_commit req principal "ingestion_job.retry" (some submitted.id) (
      object (
        field "retry_of_job_id" (text prior_job.id) (
          field "source_id" (text source.id)
            (field "task_id" (text_or_null submitted.task_id) end))))
  pure submitted

unfoldable pub retry_ingestion_job : Queue → Request → Principal → String → Action IngestionJob
unfolding get_job_or_404 get_source create_ingestion_job submit_retry
retry_ingestion_job queue req principal job_id = do
  prior_job ← get_job_or_404 job_id
  raise_if (not (is_retryable prior_job.status)) (http 409 "job_not_retryable")
  source ← found_or_404 "Data source not found for ingestion job." (get_source prior_job.source_id)
  retry_job ← create_ingestion_job req source prior_job.requested_sync_mode
  submit_retry queue req principal prior_job source retry_job

abbrev pub requeued : IngestionJob → IngestionJob
requeued job = record job {
  status = JobStatus.queued;
  cancel_requested = false;
  dead_lettered_at = none;
  error_message = none;
  next_retry_at = none;
}

unfoldable pub replay_dead_letter : Queue → Request → Principal → String → Action IngestionJob
unfolding get_job_or_404 submit audit_and_commit
replay_dead_letter queue req principal job_id = do
  job ← get_job_or_404 job_id
  raise_if (not (is_dead_letter job.status)) (http 409 "job_not_dead_lettered")
  submitted ← submit queue principal (requeued job)
  audit_and_commit req principal "ingestion_job.replay" (some submitted.id)
      (object (field "task_id" (text_or_null submitted.task_id) end))
  pure submitted

abbrev pub cancel_asked : IngestionJob → IngestionJob
cancel_asked job = record job {
  cancel_requested = true;
  status = if is_queued job.status then JobStatus.cancelled else job.status;
}

-- The body of the `if`. The event's `previous_status` is read after the status has been set.
unfoldable pub cancel_active : Request → Principal → IngestionJob → Action IngestionJob
unfolding write_job audit_and_commit
cancel_active req principal job = do
  write_job (cancel_asked job)
  audit_and_commit req principal "ingestion_job.cancel" (some job.id)
      (object (field "previous_status" (text (status_text (cancel_asked job).status)) end))
  pure (cancel_asked job)

unfoldable pub request_cancel : Request → Principal → String → Action IngestionJob
unfolding get_job_or_404 cancel_active
request_cancel req principal job_id = do
  job ← get_job_or_404 job_id
  if is_active job.status then cancel_active req principal job else pure job
