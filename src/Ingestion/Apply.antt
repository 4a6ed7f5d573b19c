-- ===== src/Ingestion/Apply.antt =====
-- _get_or_create_sync_state and _apply_successful_discovery of
-- apps/catalog-api/app/services/ingestion_service.py: a discovery is taken over, with its
-- cursor and its figures.
use datagenie.Catalog.Session.{flush, Action, update_tables}
use datagenie.Catalog.Models.{
  full, incremental, active, SyncMode, Instant, DataSource, SourceSyncState, JobStatus,
  IngestionJob,
}
use datagenie.Prelude.{String, some, Bool, if◌then◌else◌, none, true, false, put_row, [], ◌++◌, ◌∷◌}
use datagenie.Ingestion.Jobs.{get_sync_state, write_job}
use datagenie.Ingestion.Synchronize.{SyncStats, Worker, synchronize_discovery, Job}
use datagenie.Prelude.Json.{Fields, end, field, int, put_field}
use datagenie.Ingestion.Discovery.{DiscoveryResult}
use datagenie.Catalog.SearchIndex.{or_failure}
use datagenie.Prelude.Exec.{ok, ◌>>◌, ◌>>=◌, pure, gets}

unfoldable pub new_sync_state : String → String → SourceSyncState
new_sync_state tenant source_id = record {
  source_id = source_id;
  tenant_id = tenant;
  cursor = end;
  last_successful_job_id = none;
  last_successful_at = none;
  last_full_sync_at = none;
  last_incremental_sync_at = none;
}

-- The branch for a source that has no state.
unfoldable pub create_sync_state : String → Action SourceSyncState
unfolding new_sync_state flush
create_sync_state source_id = do
  tenant ← gets (λ db. db.tenant)
  update_tables
      λ t. record t { sync_states = t.sync_states ++ new_sync_state tenant source_id ∷ [] }
  flush
  pure (new_sync_state tenant source_id)

unfoldable pub get_or_create_sync_state : String → Action SourceSyncState
unfolding get_sync_state create_sync_state
get_or_create_sync_state source_id db = elim (get_sync_state source_id db) [
  | none ↦ create_sync_state source_id db
  | some s ↦ (ok s, db)
]

abbrev pub stats_fields : SyncStats → Fields
stats_fields s = field "assets_discovered" (int s.assets_discovered) (
    field "assets_created" (int s.assets_created) (
      field "assets_updated" (int s.assets_updated) (
        field "assets_unchanged" (int s.assets_unchanged)
          (field "columns_discovered" (int s.columns_discovered) end))))

-- `stats.update(statistics)`
abbrev pub update_fields : Fields → Fields → Fields
update_fields fs end = fs
update_fields fs (field k v gs) = update_fields (put_field k v fs) gs

abbrev pub with_discovery : DiscoveryResult → SyncStats → IngestionJob → IngestionJob
with_discovery result stats job = record job {
  discovery_stats = update_fields (stats_fields stats) result.statistics;
  effective_sync_mode = some result.effective_sync_mode;
  connector_strategy = some result.strategy;
  warnings = result.warnings;
  cursor_after = result.next_cursor;
}

abbrev pub is_full : SyncMode → Bool
is_full full = true
is_full incremental = false

abbrev pub synced_state :
    Instant → IngestionJob → DiscoveryResult → SourceSyncState → SourceSyncState
synced_state now job result s = record s {
  cursor = result.next_cursor;
  last_successful_job_id = some job.id;
  last_successful_at = some now;
  last_full_sync_at = if is_full result.effective_sync_mode then some now else s.last_full_sync_at;
  last_incremental_sync_at =
      if is_full result.effective_sync_mode then s.last_incremental_sync_at else some now;
}

abbrev pub succeeded_job : Instant → IngestionJob → IngestionJob
succeeded_job now job = record job { status = JobStatus.succeeded; completed_at = some now }

unfoldable pub write_source : DataSource → Action (Unit {0})
write_source s = update_tables λ t. record t { sources = put_row (λ x. x.id) s t.sources }

unfoldable pub write_sync_state : SourceSyncState → Action (Unit {0})
write_sync_state s =
    update_tables λ t. record t { sync_states = put_row (λ x. x.source_id) s t.sync_states }

-- An action of the session inside the `try`: what the database raises has the driver's text.
abbrev pub inside : {A : Type 0} → Worker → Action A → Job A
inside w m db = or_failure w.broken (m db)

-- From the state of the source on.
unfoldable pub record_success :
    Worker → DataSource → IngestionJob → DiscoveryResult → Action IngestionJob
unfolding write_job get_or_create_sync_state write_sync_state write_source
record_success w source job result = do
  write_job job
  state ← get_or_create_sync_state source.id
  write_sync_state (synced_state w.completed job result state)
  write_source (record source { status = active; last_synced_at = some w.completed })
  write_job (succeeded_job w.completed job)
  pure (succeeded_job w.completed job)

unfoldable pub apply_successful_discovery :
    Worker → DataSource → IngestionJob → DiscoveryResult → Job IngestionJob
unfolding synchronize_discovery record_success
apply_successful_discovery w source job result = do
  stats ← synchronize_discovery w source result.assets
  inside w (record_success w source (with_discovery result stats job) result)
