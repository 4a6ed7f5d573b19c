-- ===== src/Tests/IngestionRuns.antt =====
-- The worker at the small catalog: runs, and the theorems about it.
use datagenie.Catalog.Session.{Db, Error}
use datagenie.Catalog.Models.{AssetColumn, IngestionJob, JobStatus, seconds, Instant}
use datagenie.Ingestion.Discovery.{sync_columns, column_of, by_name, discovered_column_snapshot}
use datagenie.Prelude.Exec.{Result, ok, raised}
use datagenie.Ingestion.Synchronize.{SyncStats, synchronize_discovery, is_of_source}
use datagenie.Ingestion.Retries.{
  run_task, returned, crashed, TaskEnd, run_connector_job, is_failed, countdown,
}
use datagenie.Ingestion.Worker.{run_ingestion_job, is_left_alone}
use datagenie.Prelude.{
  List, none, false, ◌∷◌, [], some, map, find_row, Option, ◌≡◌, put_row, true, refl, String, ◌≢◌,
  ◌+◌, length, arith, ◌⊎◌,
}
use datagenie.Ingestion.Technical.{same_asset_type}
use datagenie.Ingestion.Synchronize.Curated.{Kept}
use datagenie.Ingestion.Jobs.{get_job, get_source}
use datagenie.Ingestion.Worker.Failed.{discovered_in}
use datagenie.Ingestion.Worker.Settled.{run_ingestion_job-failed, run_ingestion_job-returns}
use datagenie.Ingestion.Retries.Liveness.{
  run_task-ends, run_task-returns, run_connector_job-crashed,
}
use datagenie.Ingestion.Synchronize.Synchronized.{synchronize_discovery-Kept}
use datagenie.Ingestion.Synchronize.Accounted.{synchronize_discovery-stats}
use datagenie.Ingestion.Discovery.Columns.{Named}
use datagenie.Ingestion.Worker.Runs.{Finished}
use datagenie.Ingestion.Discovery.Loops.{sync_columns_lem}
use datagenie.Tests.IngestionFixtures.{
  total, worker, worker_with, settings, longer_settings, sync_db, found_orders, sync_job, failing,
  discovery_result, warehouse, found_customers,
}

abbrev status_of : Result Error IngestionJob → Option JobStatus
status_of (ok j) = some j.status
status_of (raised e) = none

sync_columns_runs : map (λ c. c.name) (sync_columns [] (total ∷ total ∷ [])).columns ≡ "total" ∷ []
unfolding sync_columns find_row
sync_columns_runs = refl

run_succeeds : status_of (run_ingestion_job worker "j-1" sync_db).0 ≡ some JobStatus.succeeded
unfolding run_ingestion_job find_row put_row same_asset_type
run_succeeds = refl

run_is_cancelled :
    status_of (run_ingestion_job (worker_with (ok discovery_result) true) "j-1" sync_db).0
    ≡ some JobStatus.cancelled
unfolding run_ingestion_job find_row put_row
run_is_cancelled = refl

task_is_buried :
    (run_task settings (λ n. failing) 3 0 "j-1" sync_db).0 ≡ some (returned JobStatus.dead_letter)
unfolding run_task find_row put_row
task_is_buried = refl

-- With Celery's default of three retries and five in the settings the task is given up.
task_is_given_up : (run_task longer_settings (λ n. failing) 9 0 "j-1" sync_db).0 ≡ some crashed
unfolding run_task find_row put_row
task_is_given_up = refl

-- A column that has changed its type, and one that is gone from the source.
abbrev old_columns : List AssetColumn
old_columns =
    record (discovered_column_snapshot total) { data_type = "text" }
    ∷ record (discovered_column_snapshot total) { name = "note" }
    ∷ []

sync_columns_updates :
    (sync_columns old_columns (total ∷ [])).columns ≡ discovered_column_snapshot total ∷ []
unfolding sync_columns find_row put_row
sync_columns_updates = refl

old_columns-Named : Named old_columns
unfolding find_row discovered_column_snapshot
old_columns-Named = (refl, (refl, tt))

sync_columns_lem_example :
    ((k : String)
      → column_of k (sync_columns old_columns (total ∷ [])).columns
        ≡ column_of k (by_name (map discovered_column_snapshot (total ∷ []))))
    × Named (sync_columns old_columns (total ∷ [])).columns
sync_columns_lem_example = sync_columns_lem old_columns (total ∷ []) old_columns-Named

synchronize_discovery-Kept_example :
    Kept
      (is_of_source sync_db warehouse)
      sync_db.work.assets
      (synchronize_discovery worker warehouse
        (found_orders ∷ found_customers ∷ [])
        sync_db).1.work.assets
unfolding find_row
synchronize_discovery-Kept_example =
    synchronize_discovery-Kept worker warehouse (found_orders ∷ found_customers ∷ []) sync_db
      (refl, tt)

abbrev synced_stats : SyncStats
synced_stats = record {
  assets_discovered = 2;
  assets_created = 1;
  assets_updated = 1;
  assets_unchanged = 0;
  columns_discovered = 2;
}

synchronize_discovery-stats_example :
    (synced_stats.assets_created + synced_stats.assets_updated + synced_stats.assets_unchanged
      ≡ length (found_orders ∷ found_customers ∷ []))
    × (length
          (synchronize_discovery worker warehouse
            (found_orders ∷ found_customers ∷ [])
            sync_db).1.work.versions
        ≡ length sync_db.work.versions + synced_stats.assets_created + synced_stats.assets_updated)
unfolding synchronize_discovery find_row put_row same_asset_type
synchronize_discovery-stats_example =
    synchronize_discovery-stats worker warehouse (found_orders ∷ found_customers ∷ []) synced_stats
      sync_db refl

run_ingestion_job-returns_example :
    ((is_left_alone worker.started sync_job ≡ true)
      × (run_ingestion_job worker "j-1" sync_db ≡ (ok sync_job, sync_db)))
    ⊎ ((is_left_alone worker.started sync_job ≡ false)
        × ((k : IngestionJob) × ((run_ingestion_job worker "j-1" sync_db).0 ≡ ok k) × Finished k))
unfolding get_job get_source find_row
run_ingestion_job-returns_example =
    run_ingestion_job-returns worker "j-1" sync_job warehouse sync_db refl refl refl

abbrev failed_run : IngestionJob
failed_run = record sync_job {
  status = JobStatus.failed;
  attempt_count = 1;
  started_at = some (seconds 100);
  completed_at = some (seconds 120);
  error_message = some "TimeoutError: no answer";
}

run_ingestion_job-failed_example :
    discovered_in (run_ingestion_job failing "j-1" sync_db).1.saved ≡ discovered_in sync_db.work
unfolding run_ingestion_job find_row put_row
run_ingestion_job-failed_example =
    run_ingestion_job-failed failing "j-1" failed_run sync_db refl refl

run_task-ends_example : (run_task settings (λ n. failing) 3 0 "j-1" sync_db).0 ≢ none
run_task-ends_example =
    run_task-ends settings (λ n. failing) 3 0 "j-1" sync_db (omega arith) (omega arith)

run_task-returns_example :
    (status : JobStatus) × ((run_task settings (λ n. failing) 3 0 "j-1" sync_db).0
      ≡ some (returned status))
    × (is_failed status ≡ false)
unfolding get_job get_source find_row
run_task-returns_example =
    run_task-returns settings refl (λ n. failing) 3 0 "j-1" sync_job sync_db (omega arith)
      (omega arith) (refl, (warehouse, refl), refl)

run_connector_job-crashed_example :
    let out : TaskEnd × Db = run_connector_job longer_settings failing 3 "j-1" sync_db in
    let at : Instant = failing.completed + seconds (countdown longer_settings 3) in
    (out.0 ≡ crashed)
    × (out.1.saved.jobs
        ≡ put_row
            (λ j. j.id)
            (record failed_run { next_retry_at = some at })
            (run_ingestion_job failing "j-1" sync_db).1.work.jobs)
unfolding run_ingestion_job find_row put_row
run_connector_job-crashed_example =
    run_connector_job-crashed longer_settings failing 3 3 "j-1" failed_run sync_db refl
      (omega arith) (omega arith) refl refl refl
