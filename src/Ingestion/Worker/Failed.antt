-- ===== src/Ingestion/Worker/Failed.antt =====
-- A run that fails takes over nothing of what its connector discovered:
-- run_ingestion_job of apps/catalog-api/app/services/ingestion_service.py.
use datagenie.Catalog.Session.{Db, Tables, commit, Error, Action}
use datagenie.Prelude.{
  List, ◌≡◌, String, arith, Option-cases, inl, inr, refl, ◌∙◌, ap, Bool, if◌then◌else◌, true,
}
use datagenie.Ingestion.Apply.{
  create_sync_state, get_or_create_sync_state, inside, record_success, apply_successful_discovery,
  with_discovery,
}
use datagenie.Ingestion.Worker.{
  lease_job, finish_attempt, cancel_run, take_over, attempt, asked_meanwhile, call_connector,
  meanwhile,
}
use datagenie.Catalog.Models.{
  Asset, AssetMetadataVersion, DataSource, IngestionJob, Instant, SearchDocument, SourceSyncState,
}
use datagenie.Ingestion.Synchronize.{Worker, SyncStats, synchronize_discovery, Job}
use datagenie.Prelude.Exec.{ok, Result, raised, Result-cases, continue, ◌>>=◌}
use datagenie.Ingestion.Jobs.{get_sync_state, write_job}
use datagenie.Catalog.SearchIndex.{Failure, or_failure}
use datagenie.Ingestion.Discovery.{DiscoveryResult}
use datagenie.Ingestion.Synchronize.Frame.{synchronize_discovery-Frame}
use mathlib.Core.Bool.{false}

-- The tables of discovered metadata.
pub record Discovered : Type 0 where
  pub assets : List Asset
  pub versions : List AssetMetadataVersion
  pub documents : List SearchDocument

abbrev pub discovered_in : Tables → Discovered
discovered_in t = record { assets = t.assets; versions = t.versions; documents = t.documents }

commit_discovered :
    (db : Db) → (commit db).0 ≡ ok tt → discovered_in (commit db).1.saved ≡ discovered_in db.work
unfolding commit
commit_discovered db h = ground arith

create_sync_state-discovered :
    (id : String) (db : Db) → discovered_in (create_sync_state id db).1.work ≡ discovered_in db.work
unfolding create_sync_state
create_sync_state-discovered id db = ground arith

get_or_create-discovered :
    (id : String) (db : Db)
    → discovered_in (get_or_create_sync_state id db).1.work ≡ discovered_in db.work
unfolding get_or_create_sync_state
get_or_create-discovered id db = elim (Option-cases (get_sync_state id db)) [
  | inl e ↦ rw (e, get_or_create_sync_state) (create_sync_state-discovered id db)
  | inr (s, e) ↦ rw (e, get_or_create_sync_state)
]

-- The first commit saves what the session had, and the lease.
pub lease_job-discovered :
    (w : Worker) (source : DataSource) (job j : IngestionJob) (db : Db)
    → (lease_job w source job db).0 ≡ ok j
    → discovered_in (lease_job w source job db).1.saved ≡ discovered_in db.work
unfolding lease_job
lease_job-discovered w source job j db h =
    let out : Result Error SourceSyncState × Db = get_or_create_sync_state source.id db in
    elim (Result-cases out.0) [
      | inr (x, e) ↦ absurd (ground arith)
      | inl (s, e) ↦ ground (arith, get_or_create-discovered source.id db)
    ]

finish_attempt-saved :
    (w : Worker) (j : IngestionJob) (e : Failure) (db : Db)
    → (finish_attempt w j db).0 ≡ raised e
    → (finish_attempt w j db).1.saved ≡ db.saved
unfolding finish_attempt
finish_attempt-saved w j e db h = ground arith

cancel_run-saved :
    (w : Worker) (now : Instant) (j : IngestionJob) (e : Failure) (db : Db)
    → (inside w (cancel_run now j) db).0 ≡ raised e
    → (inside w (cancel_run now j) db).1.saved ≡ db.saved
unfolding cancel_run
cancel_run-saved w now j e db h = ground arith

get_or_create-saved : (id : String) (db : Db) → (get_or_create_sync_state id db).1.saved ≡ db.saved
unfolding get_or_create_sync_state
get_or_create-saved id db = elim (Option-cases (get_sync_state id db)) [
  | inl e ↦ rw (e, get_or_create_sync_state) (created id db)
  | inr (s, e) ↦ rw (e, get_or_create_sync_state)
]
  where
    created : (id : String) (db : Db) → (create_sync_state id db).1.saved ≡ db.saved
    created id db = ground arith

record_success-saved :
    (w : Worker) (source : DataSource) (j : IngestionJob) (result : DiscoveryResult) (db : Db)
    → (record_success w source j result db).1.saved ≡ db.saved
unfolding record_success
record_success-saved w source j result db =
    let t : Db = (write_job j db).1 in
    elim (Result-cases (get_or_create_sync_state source.id t).0) [
      | inl (s, e) ↦ ground (arith, get_or_create-saved source.id t)
      | inr (x, e) ↦ ground (arith, get_or_create-saved source.id t)
    ]

inside-saved :
    (w : Worker) (m : Action IngestionJob) (db : Db) → (inside w m db).1.saved ≡ (m db).1.saved
inside-saved w m db = kept w (m db).0 (m db).1
  where
    kept :
        (w : Worker) (r : Result Error IngestionJob) (t : Db)
        → (or_failure w.broken (r, t)).1.saved ≡ t.saved
    kept w (ok j) t = refl
    kept w (raised e) t = refl

apply-saved :
    (w : Worker) (source : DataSource) (j : IngestionJob) (result : DiscoveryResult) (db : Db)
    → (apply_successful_discovery w source j result db).1.saved ≡ db.saved
unfolding apply_successful_discovery
apply-saved w source j result db =
    then_recorded w source j result (synchronize_discovery w source result.assets db).0
      (synchronize_discovery w source result.assets db).1
    ∙ (synchronize_discovery-Frame w source result.assets db).saved
  where
    then_recorded :
        (w : Worker) (source : DataSource) (j : IngestionJob) (result : DiscoveryResult)
        (r : Result Failure SyncStats) (t : Db)
        → (continue
            (λ stats. inside w (record_success w source (with_discovery result stats j) result))
            r
            t).1.saved
          ≡ t.saved
    then_recorded w source j result (raised e) t = refl
    then_recorded w source j result (ok stats) t =
        inside-saved w (record_success w source (with_discovery result stats j) result) t
        ∙ record_success-saved w source (with_discovery result stats j) result t

pub take_over-saved :
    (w : Worker) (source : DataSource) (j : IngestionJob) (result : DiscoveryResult) (e : Failure)
    (db : Db)
    → (take_over w source j result db).0 ≡ raised e
    → (take_over w source j result db).1.saved ≡ db.saved
unfolding take_over
take_over-saved w source j result e db h = by_test j.cancel_requested w source j result e db h
  where
    finished :
        (w : Worker) (r : Result Failure IngestionJob) (t : Db) (e : Failure)
        → (continue (finish_attempt w) r t).0 ≡ raised e
        → (continue (finish_attempt w) r t).1.saved ≡ t.saved
    finished w (raised x) t e h = refl
    finished w (ok j) t e h = finish_attempt-saved w j e t h

    by_test :
        (cancel : Bool) (w : Worker) (source : DataSource) (j : IngestionJob)
        (result : DiscoveryResult) (e : Failure) (db : Db)
        → let run : Job IngestionJob =
            if cancel
            then inside w (cancel_run w.completed j)
            else apply_successful_discovery w source j result >>= finish_attempt w in
          (run db).0 ≡ raised e → (run db).1.saved ≡ db.saved
    by_test true w source j result e db h = cancel_run-saved w w.completed j e db h
    by_test false w source j result e db h =
        finished w (apply_successful_discovery w source j result db).0
          (apply_successful_discovery w source j result db).1 e h
        ∙ apply-saved w source j result db

-- Of the committed tables a failed attempt leaves those of discovered metadata as they were.
pub attempt-discovered :
    (w : Worker) (source : DataSource) (j : IngestionJob) (e : Failure) (db : Db)
    → (attempt w source j db).0 ≡ raised e
    → discovered_in (attempt w source j db).1.saved ≡ discovered_in db.saved
unfolding attempt
attempt-discovered w source j e db h =
    after w source j e (call_connector w source j) (meanwhile w j db).1 h
  where
    after :
        (w : Worker) (source : DataSource) (j : IngestionJob) (e : Failure)
        (r : Result Failure DiscoveryResult) (t : Db)
        → (continue (take_over w source (asked_meanwhile w j)) r t).0 ≡ raised e
        → discovered_in (continue (take_over w source (asked_meanwhile w j)) r t).1.saved
          ≡ discovered_in t.saved
    after w source j e (raised x) t h = refl
    after w source j e (ok result) t h =
        ap discovered_in (take_over-saved w source (asked_meanwhile w j) result e t h)
