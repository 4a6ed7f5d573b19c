-- ===== src/Ingestion/Technical.antt =====
-- The technical fields of an asset as synchronize_discovery of
-- apps/catalog-api/app/services/ingestion_service.py compares and sets them, one asset at a time.
pub mod Versions
use mathlib.Core.Logic.{ite}
use Prim.Native.String.{◌++◌ as concat}
use datagenie.Catalog.Models.{AssetType, Instant, DataSource, Asset, under_review}
use datagenie.Prelude.{
  ℕ, Option, Bool, List, String, same_number, if◌then◌else◌, true, some, map, ◌+◌, ◌==◌, none,
  same_text, false, ◌∷◌, none, [], [], [],
}
use datagenie.Ingestion.Discovery.{DiscoveredAsset, sync_columns, discovered_column_snapshot}
use datagenie.Prelude.Json.{
  same_value, Fields, Value, field, null, text, put_field, int, text_or_null, object, array, end,
  nil,
}
use datagenie.Catalog.SearchIndex.{asset_type_value}

unfoldable pub AssetType-discrete : Discrete AssetType
AssetType-discrete = hlevel

unfoldable pub same_asset_type : AssetType → AssetType → Bool
unfolding AssetType-discrete
same_asset_type s t = ite (AssetType-discrete s t) true false

abbrev pub number_or_null : Option ℕ → Value
number_or_null none = null
number_or_null (some n) = int n

unfoldable pub discovered_asset_fields : DiscoveredAsset → Fields
discovered_asset_fields d = field "asset_type" (text (asset_type_value d.asset_type)) (
    field "qualified_name" (text d.qualified_name) (
      field "name" (text d.name) (
        field "database_name" (text_or_null d.database_name) (
          field "schema_name" (text_or_null d.schema_name) (
            field "technical_description" (text_or_null d.technical_description) (
              field "technical_metadata" d.technical_metadata
                (field "row_count" (number_or_null d.row_count) end)))))))

-- One field of the loop that compares: whether the two values are equal, and both.
pub record FieldComparison : Type 0 where
  pub name : String
  pub same : Bool
  pub before : Value
  pub after : Value

unfoldable pub field_comparisons : Asset → DiscoveredAsset → List FieldComparison
unfolding same_value
field_comparisons a d =
    record {
      name = "asset_type";
      same = same_asset_type a.asset_type d.asset_type;
      before = text (asset_type_value a.asset_type);
      after = text (asset_type_value d.asset_type);
    }
    ∷ record {
      name = "qualified_name";
      same = a.qualified_name == d.qualified_name;
      before = text a.qualified_name;
      after = text d.qualified_name;
    }
    ∷ record { name = "name"; same = a.name == d.name; before = text a.name; after = text d.name }
    ∷ record {
      name = "database_name";
      same = same_text a.database_name d.database_name;
      before = text_or_null a.database_name;
      after = text_or_null d.database_name;
    }
    ∷ record {
      name = "schema_name";
      same = same_text a.schema_name d.schema_name;
      before = text_or_null a.schema_name;
      after = text_or_null d.schema_name;
    }
    ∷ record {
      name = "technical_description";
      same = same_text a.technical_description d.technical_description;
      before = text_or_null a.technical_description;
      after = text_or_null d.technical_description;
    }
    ∷ record {
      name = "technical_metadata";
      same = same_value a.technical_metadata d.technical_metadata;
      before = a.technical_metadata;
      after = d.technical_metadata;
    }
    ∷ record {
      name = "row_count";
      same = same_number a.row_count d.row_count;
      before = number_or_null a.row_count;
      after = number_or_null d.row_count;
    }
    ∷ []

abbrev pub compare_field : FieldComparison → Fields → Fields
compare_field c changes =
    if c.same
    then changes
    else put_field c.name (object (field "before" c.before (field "after" c.after end))) changes

unfoldable pub compare_fields : List FieldComparison → Fields → Fields
compare_fields [] changes = changes
compare_fields (c ∷ cs) changes = compare_fields cs (compare_field c changes)

unfoldable pub technical_changes : Asset → DiscoveredAsset → Fields
unfolding field_comparisons compare_fields
technical_changes a d = compare_fields (field_comparisons a d) end

-- Where two values compare equal the asset keeps its own, which matters for metadata alone.
unfoldable pub set_technical : Asset → DiscoveredAsset → Asset
unfolding same_value
set_technical a d = record a {
  asset_type = d.asset_type;
  qualified_name = d.qualified_name;
  name = d.name;
  database_name = d.database_name;
  schema_name = d.schema_name;
  technical_description = d.technical_description;
  technical_metadata =
      if same_value a.technical_metadata d.technical_metadata
      then a.technical_metadata
      else d.technical_metadata;
  row_count = d.row_count;
}

abbrev pub has_no_entries : Fields → Bool
has_no_entries end = true
has_no_entries (field k v fs) = false

-- `changed_fields` of the version row: nothing has changed where it is empty.
unfoldable pub asset_changes : Asset → DiscoveredAsset → Fields
unfolding technical_changes sync_columns
asset_changes a d =
    let columns = (sync_columns a.columns d.columns).changes in
    if has_no_entries columns
    then technical_changes a d
    else put_field "columns" (object columns) (technical_changes a d)

-- `discovered.freshness_at or utc_now()`
abbrev pub freshness : Instant → Option Instant → Option Instant
freshness now none = some now
freshness now (some t) = some t

unfoldable pub synced_asset : Instant → Asset → DiscoveredAsset → Asset
unfolding set_technical asset_changes sync_columns
synced_asset now a d = record (set_technical a d) {
  columns = (sync_columns a.columns d.columns).columns;
  last_discovered_at = now;
  freshness_at = freshness now d.freshness_at;
  technical_version =
      if has_no_entries (asset_changes a d) then a.technical_version else a.technical_version + 1;
}

unfoldable pub discovered_asset : Instant → String → String → DataSource → DiscoveredAsset → Asset
unfolding discovered_column_snapshot
discovered_asset now id tenant source d = record {
  id = id;
  tenant_id = tenant;
  source_id = source.id;
  asset_type = d.asset_type;
  qualified_name = d.qualified_name;
  name = d.name;
  database_name = d.database_name;
  schema_name = d.schema_name;
  technical_description = d.technical_description;
  technical_metadata = d.technical_metadata;
  row_count = d.row_count;
  last_discovered_at = now;
  freshness_at = freshness now d.freshness_at;
  technical_version = 1;
  description = none;
  tags = array nil;
  owner = none;
  classification = none;
  domain_id = none;
  quality_score = none;
  quality_explainable_at = none;
  lifecycle_status = under_review;
  curated_at = none;
  columns = map discovered_column_snapshot d.columns;
}
