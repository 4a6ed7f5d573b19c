-- ===== src/Ingestion/Synchronize.antt =====
-- synchronize_discovery of apps/catalog-api/app/services/ingestion_service.py: the technical fields
-- and the columns of a source's assets are brought to what a connector discovered. The clock is
-- read once for a whole synchronisation.
pub mod Curated
pub mod Synchronized
pub mod Accounted
pub mod Frame
use Prim.Native.String.{◌++◌ as concat}
use datagenie.Catalog.Models.{
  SourceType, AssetType, Instant, DataSource, AssetMetadataVersion, Asset, discovery, postgresql,
  snowflake,
}
use datagenie.Prelude.Exec.{Exec, ok, ◌>>◌, pure, ◌>>=◌, gets}
use datagenie.Prelude.{
  ℕ, Option, Bool, List, String, if◌then◌else◌, some, ◌++◌, map, ◌+◌, ◌==◌, none, ◌∷◌, put_row,
  length, ◌&&◌, none, [], keep, [], [],
}
use datagenie.Ingestion.Discovery.{DiscoveredAsset, Connector}
use datagenie.Prelude.Json.{Value, field, object, end}
use datagenie.Catalog.Session.{Tables, Db, flush, in_scope}
use datagenie.Catalog.SearchIndex.{index_asset, Failure, or_failure}
use datagenie.Ingestion.Technical.{
  same_asset_type, discovered_asset, synced_asset, discovered_asset_fields, asset_changes,
  has_no_entries,
}

-- What a run is given: the connectors, the clock at its start, in its middle and at its end, the
-- identifiers of new assets, the failure that the driver raises, and whether another session asks
-- for a cancellation while the connector works.
pub record Worker : Type 0 where
  pub connector : SourceType → Connector
  pub started : Instant
  pub discovered : Instant
  pub completed : Instant
  pub new_id : ℕ → String
  pub lease_seconds : ℕ
  pub broken : Failure
  pub cancel_meanwhile : Bool

abbrev pub Job : Type 0 → Type 0
Job A = Exec Db Failure A

pub record SyncStats : Type 0 where
  pub assets_discovered : ℕ
  pub assets_created : ℕ
  pub assets_updated : ℕ
  pub assets_unchanged : ℕ
  pub columns_discovered : ℕ

-- `existing_by_key.get(key)`: of two assets of one key the dictionary holds the last.
unfoldable pub existing_for : AssetType → String → List Asset → Option Asset
existing_for t q [] = none
existing_for t q (a ∷ assets) = elim (existing_for t q assets) [
  | some b ↦ some b
  | none ↦ if same_asset_type a.asset_type t && a.qualified_name == q then some a else none
]

abbrev pub source_type_value : SourceType → String
source_type_value postgresql = "postgresql"
source_type_value snowflake = "snowflake"

abbrev pub discovery_version : DataSource → String → Value → AssetMetadataVersion
discovery_version source asset_id changes = record {
  asset_id = asset_id;
  change_source = discovery;
  actor = concat "connector:" (source_type_value source.source_type);
  changed_fields = changes;
}

abbrev pub change_tables : (Tables → Tables) → Job (Unit {0})
change_tables f db = (ok tt, record db { work = f db.work })

unfoldable pub add_metadata_version : AssetMetadataVersion → Job (Unit {0})
add_metadata_version v = change_tables λ t. record t { versions = t.versions ++ v ∷ [] }

-- The branch for an asset that is new.
unfoldable pub create_asset : Worker → DataSource → ℕ → DiscoveredAsset → Job (Unit {0})
unfolding discovered_asset discovered_asset_fields add_metadata_version index_asset flush
create_asset w source n d = do
  asset ← gets (λ db. discovered_asset w.discovered (w.new_id n) db.tenant source d)
  change_tables λ t. record t { assets = t.assets ++ asset ∷ [] }
  λ db. or_failure w.broken (flush db)
  add_metadata_version (
      discovery_version source asset.id
        (object (field "created" (object (discovered_asset_fields d)) end)))
  index_asset w.discovered asset

-- The branch for an asset that is there.
unfoldable pub update_asset : Worker → DataSource → Asset → DiscoveredAsset → Job (Unit {0})
unfolding synced_asset asset_changes add_metadata_version index_asset
update_asset w source a d = do
  change_tables
      λ t. record t { assets = put_row (λ b. b.id) (synced_asset w.discovered a d) t.assets }
  if has_no_entries (asset_changes a d)
      then pure tt
      else add_metadata_version (discovery_version source a.id (object (asset_changes a d)))
  index_asset w.discovered (synced_asset w.discovered a d)

-- Every reference to the object sees what is set on it.
abbrev pub replace_asset : Asset → List Asset → List Asset
replace_asset a assets = map (λ b. if b.id == a.id then a else b) assets

pub record SyncProgress : Type 0 where
  pub existing : List Asset  -- the values of `existing_by_key`
  pub stats : SyncStats

abbrev pub count_created : ℕ → SyncStats → SyncStats
count_created columns s = record s {
  assets_created = s.assets_created + 1;
  columns_discovered = s.columns_discovered + columns;
}

abbrev pub count_existing : Bool → ℕ → SyncStats → SyncStats
count_existing unchanged columns s = record s {
  assets_updated = if unchanged then s.assets_updated else s.assets_updated + 1;
  assets_unchanged = if unchanged then s.assets_unchanged + 1 else s.assets_unchanged;
  columns_discovered = s.columns_discovered + columns;
}

-- One round of the loop, by what the dictionary holds under the key.
unfoldable pub sync_asset :
    Worker → DataSource → ℕ → DiscoveredAsset → Option Asset → SyncProgress → Job SyncProgress
unfolding create_asset update_asset
sync_asset w source n d none p =
    create_asset w source n d
    >> pure (record p { stats = count_created (length d.columns) p.stats })
sync_asset w source n d (some a) p =
    update_asset w source a d
    >> pure (record {
      existing = replace_asset (synced_asset w.discovered a d) p.existing;
      stats = count_existing (has_no_entries (asset_changes a d)) (length d.columns) p.stats;
    })

unfoldable pub sync_assets :
    Worker → DataSource → ℕ → List DiscoveredAsset → SyncProgress → Job SyncProgress
unfolding sync_asset existing_for
sync_assets w source n [] p = pure p
sync_assets w source n (d ∷ ds) p =
    sync_asset w source n d (existing_for d.asset_type d.qualified_name p.existing) p
    >>= sync_assets w source (n + 1) ds

-- `select(Asset).where(Asset.source_id == source.id)` in the tenant's scope.
abbrev pub is_of_source : Db → DataSource → Asset → Bool
is_of_source db source a = in_scope db a.tenant_id && a.source_id == source.id

abbrev pub no_stats : ℕ → SyncStats
no_stats n = record {
  assets_discovered = n;
  assets_created = 0;
  assets_updated = 0;
  assets_unchanged = 0;
  columns_discovered = 0;
}

unfoldable pub synchronize_discovery : Worker → DataSource → List DiscoveredAsset → Job SyncStats
unfolding sync_assets
synchronize_discovery w source ds = do
  existing ← gets (λ db. keep (is_of_source db source) db.work.assets)
  progress ←
      sync_assets w source 0 ds (record { existing = existing; stats = no_stats (length ds) })
  pure progress.stats
