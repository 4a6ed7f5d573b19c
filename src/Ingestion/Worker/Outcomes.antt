-- ===== src/Ingestion/Worker/Outcomes.antt =====
-- How a run of run_ingestion_job in apps/catalog-api/app/services/ingestion_service.py ends.
use datagenie.Catalog.Session.{Db, Error}
use datagenie.Catalog.Models.{IngestionJob, Instant, DataSource, JobStatus}
use datagenie.Ingestion.Worker.{
  cancel_run, finish_attempt, take_over, attempt, fail_attempt, asked_meanwhile, call_connector,
  meanwhile,
}
use datagenie.Prelude.Exec.{Result, ok, continue, raised, Result-cases, ◌>>=◌}
use datagenie.Ingestion.Apply.{
  record_success, apply_successful_discovery, inside, succeeded_job, get_or_create_sync_state,
  with_discovery,
}
use datagenie.Ingestion.Synchronize.{Worker, SyncStats, Job, synchronize_discovery}
use datagenie.Catalog.SearchIndex.{Failure, or_failure}
use datagenie.Prelude.{
  ◌≡◌, String, true, none, arith, Bool, Option-cases, if◌then◌else◌, ap, inl, inr, refl, ◌⊎◌,
}
use datagenie.Ingestion.Discovery.{DiscoveryResult}
use datagenie.Ingestion.Jobs.{write_job, get_job, get_source}
use datagenie.Ingestion.Worker.Failed.{discovered_in}
use mathlib.Core.Bool.{false}

-- An attempt that returns a job has brought it to success or cancelled it, and has given its lease
-- up.
abbrev pub Ended : IngestionJob → Type 0
Ended j =
    ((j.status ≡ JobStatus.succeeded) ⊎ (j.status ≡ JobStatus.cancelled))
    × (j.lease_expires_at ≡ none)

pub cancel_run-Ended :
    (w : Worker) (now : Instant) (j k : IngestionJob) (db : Db)
    → (inside w (cancel_run now j) db).0 ≡ ok k
    → Ended k
unfolding cancel_run
cancel_run-Ended w now j k db h = (inr (ground arith), ground arith)

abbrev IsSucceeded : Result Failure IngestionJob → Type 0
IsSucceeded (ok j) = j.status ≡ JobStatus.succeeded
IsSucceeded (raised e) = Unit

record_success-status :
    (w : Worker) (source : DataSource) (j k : IngestionJob) (result : DiscoveryResult) (db : Db)
    → (record_success w source j result db).0 ≡ ok k
    → k ≡ succeeded_job w.completed j
unfolding record_success
record_success-status w source j k result db h =
    let t : Db = (write_job j db).1 in
    elim (Result-cases (get_or_create_sync_state source.id t).0) [
      | inl (s, e) ↦ ground arith
      | inr (x, e) ↦ absurd (ground arith)
    ]

apply-status :
    (w : Worker) (source : DataSource) (j k : IngestionJob) (result : DiscoveryResult) (db : Db)
    → (apply_successful_discovery w source j result db).0 ≡ ok k
    → k.status ≡ JobStatus.succeeded
unfolding apply_successful_discovery
apply-status w source j k result db h =
    then_recorded w source j k result (synchronize_discovery w source result.assets db).0
      (synchronize_discovery w source result.assets db).1 h
  where
    inside-ok :
        (w : Worker) (r : Result Error IngestionJob) (t : Db) (k : IngestionJob)
        → (or_failure w.broken (r, t)).0 ≡ ok k
        → r ≡ ok k
    inside-ok w (ok j) t k h = ground arith
    inside-ok w (raised e) t k h = absurd (ground arith)

    then_recorded :
        (w : Worker) (source : DataSource) (j k : IngestionJob) (result : DiscoveryResult)
        (r : Result Failure SyncStats) (t : Db)
        → (continue
            (λ stats. inside w (record_success w source (with_discovery result stats j) result))
            r
            t).0
          ≡ ok k
        → k.status ≡ JobStatus.succeeded
    then_recorded w source j k result (raised e) t h = absurd (ground arith)
    then_recorded w source j k result (ok stats) t h =
        let j' : IngestionJob = with_discovery result stats j in
        ap (λ (x : IngestionJob). x.status)
          (record_success-status w source j' k result t (
            inside-ok w (record_success w source j' result t).0
              (record_success w source j' result t).1 k h))

finish_attempt-Ended :
    (w : Worker) (j k : IngestionJob) (db : Db)
    → (finish_attempt w j db).0 ≡ ok k
    → j.status ≡ JobStatus.succeeded
    → Ended k
unfolding finish_attempt
finish_attempt-Ended w j k db h s = (inl (ground arith), ground arith)

take_over-Ended :
    (w : Worker) (source : DataSource) (j k : IngestionJob) (result : DiscoveryResult) (db : Db)
    → (take_over w source j result db).0 ≡ ok k
    → Ended k
unfolding take_over
take_over-Ended w source j k result db h = by_test j.cancel_requested w source j k result db h
  where
    finished :
        (w : Worker) (r : Result Failure IngestionJob) (t : Db) (k : IngestionJob)
        → (continue (finish_attempt w) r t).0 ≡ ok k
        → ((j : IngestionJob) → r ≡ ok j → j.status ≡ JobStatus.succeeded)
        → Ended k
    finished w (raised x) t k h s = absurd (ground arith)
    finished w (ok j) t k h s = finish_attempt-Ended w j k t h (s j refl)

    by_test :
        (cancel : Bool) (w : Worker) (source : DataSource) (j k : IngestionJob)
        (result : DiscoveryResult) (db : Db)
        → let run : Job IngestionJob =
            if cancel
            then inside w (cancel_run w.completed j)
            else apply_successful_discovery w source j result >>= finish_attempt w in
          (run db).0 ≡ ok k → Ended k
    by_test true w source j k result db h = cancel_run-Ended w w.completed j k db h
    by_test false w source j k result db h =
        finished w (apply_successful_discovery w source j result db).0
          (apply_successful_discovery w source j result db).1 k h
          (λ i e. apply-status w source j i result db e)

pub attempt-Ended :
    (w : Worker) (source : DataSource) (j k : IngestionJob) (db : Db)
    → (attempt w source j db).0 ≡ ok k
    → Ended k
unfolding attempt
attempt-Ended w source j k db h =
    after w source j k (call_connector w source j) (meanwhile w j db).1 h
  where
    after :
        (w : Worker) (source : DataSource) (j k : IngestionJob) (r : Result Failure DiscoveryResult)
        (t : Db)
        → (continue (take_over w source (asked_meanwhile w j)) r t).0 ≡ ok k
        → Ended k
    after w source j k (raised x) t h = absurd (ground arith)
    after w source j k (ok result) t h = take_over-Ended w source (asked_meanwhile w j) k result t h

-- What is committed of a failure is on top of what was committed before.
pub fail_attempt-ended :
    (w : Worker) (e : Failure) (job_id source_id : String) (k : IngestionJob) (db : Db)
    → (fail_attempt w e job_id source_id db).0 ≡ ok k
    → (k.status ≡ JobStatus.failed)
      × (k.lease_expires_at ≡ none)
      × (discovered_in (fail_attempt w e job_id source_id db).1.saved ≡ discovered_in db.saved)
unfolding fail_attempt
fail_attempt-ended w e job_id source_id k db h =
    let t : Db = record db { work = db.saved } in
    elim (Option-cases (get_job job_id t)) [
      | inl f ↦ elim (Option-cases (get_source source_id t)) [
        | inl g ↦ absurd (ground arith)
        | inr (s, g) ↦ absurd (ground arith)
      ]
      | inr (job, f) ↦ elim (Option-cases (get_source source_id t)) [
        | inl g ↦ (ground arith, ground arith, ground arith)
        | inr (s, g) ↦ (ground arith, ground arith, ground arith)
      ]
    ]
