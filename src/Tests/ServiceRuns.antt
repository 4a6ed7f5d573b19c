-- ===== src/Tests/ServiceRuns.antt =====
-- Idempotency keys and ingestion jobs on the small catalog.
use datagenie.Idempotency.{IdempotencyContext, find_record, store_response, replay_response}
use datagenie.Catalog.Session.{Request, Db, flush, commit, http, get_asset, write_asset}
use datagenie.Catalog.Models.{
  IngestionJob, JobStatus, seconds, SyncMode, CertificationRequest, UsageDecisionStatus, Asset,
  LifecycleStatus,
}
use datagenie.Ingestion.Jobs.{
  Queue, replay_dead_letter, get_job_or_404, get_job, submit, audit_and_commit, write_job,
}
use datagenie.Prelude.{
  find_row, ◌∷◌, [], none, some, false, ◌≡◌, String, if◌then◌else◌, refl, ◌==◌, arith, put_row,
  true, ◌⊎◌,
}
use datagenie.Tests.Fixtures.{req, db, steward}
use datagenie.Prelude.Exec.{ok, raised}
use datagenie.Ingestion.Transitions.{JobsStep}
use datagenie.Ingestion.Operations.{operate, replay_job, operate-JobsStep}
use datagenie.Prelude.Json.{text, end, null}
use datagenie.Ingestion.Replayed.{replay_dead_letter-ok}
use datagenie.Idempotency.Replay.{replay_response-store_response}
use datagenie.Catalog.Certification.{
  decide_certification_request, certify, decide_certification_request-ok,
}

abbrev context : IdempotencyContext
context = record {
  key = 107 ∷ 49 ∷ [];
  principal_subject = "sue";
  method = "POST";
  path = "/assets";
  request_hash = "h1";
}

abbrev later : Request
later = record req { now = seconds 1000010 }

replay_response-store_response_example :
    replay_response later
      (some (record context { request_hash = "h2" }))
      (store_response req (some context) (text "done") 201 60 db).1
    ≡ (
      if "h1" == "h2"
          then ok (some (record { status_code = 201; content = text "done" }))
          else raised (http 409 "idempotency_conflict"),
      (store_response req (some context) (text "done") 201 60 db).1,
    )
unfolding find_record store_response flush commit
replay_response-store_response_example =
    replay_response-store_response req context (text "done") 201 60 db refl refl later "h2"
      (omega arith)

abbrev dead_job : IngestionJob
dead_job = record {
  id = "j-1";
  tenant_id = "acme";
  source_id = "s-1";
  status = JobStatus.dead_letter;
  attempt_count = 4;
  retry_of_job_id = none;
  task_id = some "t-0";
  cancel_requested = false;
  dead_lettered_at = some 5;
  next_retry_at = none;
  lease_expires_at = none;
  requested_sync_mode = SyncMode.full;
  effective_sync_mode = none;
  cursor_before = end;
  cursor_after = end;
  connector_strategy = none;
  warnings = [];
  discovery_stats = end;
  error_message = some "timeout";
  started_at = some 1;
  completed_at = some 4;
}

abbrev job_db : Db
job_db = record db {
  work = record (db.work) { jobs = dead_job ∷ [] };
  saved = record (db.saved) { jobs = dead_job ∷ [] };
}

abbrev queue : Queue
queue job_id tenant_id = ok "t-1"

operate-JobsStep_example :
    JobsStep (dead_job ∷ []) (operate queue req steward (replay_job "j-1") job_db).work.jobs
unfolding find_row
operate-JobsStep_example = operate-JobsStep queue req steward job_db (replay_job "j-1") refl

abbrev replayed_job : IngestionJob
replayed_job = record dead_job {
  status = JobStatus.queued;
  task_id = some "t-1";
  dead_lettered_at = none;
  error_message = none;
}

replay_dead_letter-ok_example :
    (job : IngestionJob) × (t : String) × (get_job "j-1" job_db ≡ some job)
    × (job.status ≡ JobStatus.dead_letter)
    × (queue job.id steward.tenant_id ≡ ok t)
    × (find_row (λ x. x.id) "j-1" (replay_dead_letter queue req steward "j-1" job_db).1.saved.jobs
        ≡ some replayed_job)
    × (replayed_job.status ≡ JobStatus.queued)
    × (replayed_job.task_id ≡ some t)
    × (replayed_job.cancel_requested ≡ false)
    × (replayed_job.error_message ≡ none)
    × (replayed_job.attempt_count ≡ job.attempt_count)
unfolding replay_dead_letter get_job_or_404 get_job find_row submit audit_and_commit write_job
    commit
replay_dead_letter-ok_example =
    replay_dead_letter-ok queue req steward "j-1" job_db {j' = replayed_job} refl

abbrev certification : CertificationRequest
certification = record {
  id = "c-1";
  tenant_id = "acme";
  asset_id = "a-1";
  requested_by = "ann";
  status = UsageDecisionStatus.pending;
  decision_by = none;
  decision_note = null;
  decided_at = none;
}

abbrev certification_db : Db
certification_db = record db { work = record (db.work) { certifications = certification ∷ [] } }

abbrev certified_request : CertificationRequest
certified_request = record certification {
  status = UsageDecisionStatus.approved;
  decision_by = some "sue";
  decision_note = null;
  decided_at = some req.now;
}

decide_certification_request-ok_example :
    let call =
      decide_certification_request req certification UsageDecisionStatus.approved none "sue"
        certification_db in
    (false ≡ false)
    × (certified_request ≡ certified_request)
    × (call.1.saved.certifications ≡ put_row (λ d. d.id) certified_request (certification ∷ []))
    × (((true ≡ false) × (call.1.saved.assets ≡ certification_db.work.assets))
        ⊎ ((asset : Asset) × (true ≡ true)
            × (get_asset "a-1" certification_db ≡ some asset)
            × (call.1.saved.assets
                ≡ put_row
                    (λ a. a.id)
                    (record asset { lifecycle_status = LifecycleStatus.certified })
                    certification_db.work.assets)))
unfolding decide_certification_request get_asset find_row put_row certify commit write_asset
decide_certification_request-ok_example =
    decide_certification_request-ok req certification UsageDecisionStatus.approved none "sue"
      certification_db {request' = certified_request} refl
