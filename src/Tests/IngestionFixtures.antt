-- ===== src/Tests/IngestionFixtures.antt =====
-- A small catalog for the worker: a source with one asset, and a job that is queued for it.
use datagenie.Catalog.Session.{Db, Tables}
use datagenie.Catalog.Models.{
  postgresql, active, incremental, full, DataSource, IngestionJob, JobStatus, AssetType, seconds,
}
use datagenie.Ingestion.Discovery.{DiscoveredColumn, DiscoveredAsset, DiscoveryResult}
use datagenie.Catalog.SearchIndex.{Failure}
use datagenie.Prelude.Exec.{Result, ok, raised}
use datagenie.Ingestion.Synchronize.{Worker}
use datagenie.Tests.Fixtures.{db_with, tables_with, orders}
use datagenie.Ingestion.Retries.{RetrySettings}
use datagenie.Prelude.{none, false, ◌∷◌, Bool, [], some}
use datagenie.Prelude.Json.{end, null, field, int}

abbrev pub warehouse : DataSource
warehouse = record {
  id = "s-1";
  tenant_id = "acme";
  name = "warehouse";
  source_type = postgresql;
  status = active;
  last_synced_at = none;
}

abbrev pub sync_job : IngestionJob
sync_job = record {
  id = "j-1";
  tenant_id = "acme";
  source_id = "s-1";
  status = JobStatus.queued;
  attempt_count = 0;
  retry_of_job_id = none;
  task_id = some "t-1";
  cancel_requested = false;
  dead_lettered_at = none;
  next_retry_at = none;
  lease_expires_at = none;
  requested_sync_mode = incremental;
  effective_sync_mode = none;
  cursor_before = end;
  cursor_after = end;
  connector_strategy = none;
  warnings = [];
  discovery_stats = end;
  error_message = none;
  started_at = none;
  completed_at = none;
}

abbrev pub total : DiscoveredColumn
total = record {
  name = "total";
  ordinal_position = 1;
  data_type = "integer";
  is_nullable = false;
  default_value = none;
  technical_description = none;
}

abbrev pub found_orders : DiscoveredAsset
found_orders = record {
  asset_type = AssetType.table;
  qualified_name = "shop.orders";
  name = "orders";
  database_name = some "shop";
  schema_name = none;
  technical_description = some "From the comments";
  technical_metadata = null;
  row_count = some 12;
  freshness_at = none;
  columns = total ∷ [];
}

abbrev pub found_customers : DiscoveredAsset
found_customers = record found_orders { qualified_name = "shop.customers"; name = "customers" }

abbrev pub discovery_result : DiscoveryResult
discovery_result = record {
  assets = found_orders ∷ found_customers ∷ [];
  next_cursor = field "page" (int 2) end;
  effective_sync_mode = full;
  strategy = "full_snapshot";
  warnings = [];
  statistics = end;
}

abbrev pub failure : Failure
failure = record { type_name = "TimeoutError"; message = "no answer" }

abbrev pub worker_with : Result Failure DiscoveryResult → Bool → Worker
worker_with answer cancelled = record {
  connector = λ t. record { validate = λ s. ok tt; discover = λ s m c. answer };
  started = seconds 100;
  discovered = seconds 110;
  completed = seconds 120;
  new_id = λ n. "n-2";
  lease_seconds = 1860;
  broken = record { type_name = "OperationalError"; message = "database" };
  cancel_meanwhile = cancelled;
}

abbrev pub worker : Worker
worker = worker_with (ok discovery_result) false

abbrev pub failing : Worker
failing = worker_with (raised failure) false

abbrev pub sync_tables : Tables
sync_tables = record (tables_with (orders ∷ []) []) {
  sources = warehouse ∷ [];
  jobs = sync_job ∷ [];
}

abbrev pub sync_db : Db
sync_db = db_with sync_tables []

-- Retries of one task: three by Celery's default, two by the settings.
abbrev pub settings : RetrySettings
settings = record {
  connector_max_retries = 2;
  connector_retry_backoff_seconds = 30;
  celery_max_retries = some 3;
}

abbrev pub longer_settings : RetrySettings
longer_settings = record settings { connector_max_retries = 5 }
