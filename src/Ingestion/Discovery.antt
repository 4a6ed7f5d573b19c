-- ===== src/Ingestion/Discovery.antt =====
-- What a connector discovers, apps/catalog-api/app/connectors/base.py, and how its columns are
-- taken over: the first half of app/services/ingestion_service.py. A connector is a parameter:
-- it raises, or returns what it found.
pub mod Columns
pub mod Loops
use datagenie.Prelude.{
  String, List, Option, ℕ, Bool, ◌∷◌, [], find_row, ◌++◌, map, some, ◌==◌, if◌then◌else◌, ◌&&◌,
  put_row, eqb, same_bool, same_text,
}
use datagenie.Catalog.Models.{AssetType, DataSource, AssetColumn, Instant, SyncMode}
use datagenie.Prelude.Json.{
  Items, Value, Fields, object, cons, put_field, end, array, field, nil, get_field, text, int, bool,
  text_or_null,
}
use datagenie.Prelude.Exec.{Result}
use datagenie.Catalog.SearchIndex.{Failure}
use mathlib.Core.Option.{none}

pub record DiscoveredColumn : Type 0 where
  pub name : String
  pub ordinal_position : ℕ
  pub data_type : String
  pub is_nullable : Bool
  pub default_value : Option String
  pub technical_description : Option String

pub record DiscoveredAsset : Type 0 where
  pub asset_type : AssetType
  pub qualified_name : String
  pub name : String
  pub database_name : Option String
  pub schema_name : Option String
  pub technical_description : Option String
  pub technical_metadata : Value
  pub row_count : Option ℕ
  pub freshness_at : Option Instant
  pub columns : List DiscoveredColumn

pub record DiscoveryResult : Type 0 where
  pub assets : List DiscoveredAsset
  pub next_cursor : Fields
  pub effective_sync_mode : SyncMode
  pub strategy : String
  pub warnings : List String
  pub statistics : Fields

pub record Connector : Type 0 where
  pub validate : DataSource → Result Failure (Unit {0})
  pub discover : DataSource → SyncMode → Fields → Result Failure DiscoveryResult

-- The row that `AssetColumn(**snapshot)` makes, and the fields that `setattr` sets one by one.
unfoldable pub discovered_column_snapshot : DiscoveredColumn → AssetColumn
discovered_column_snapshot column = record {
  name = column.name;
  ordinal_position = column.ordinal_position;
  data_type = column.data_type;
  is_nullable = column.is_nullable;
  default_value = column.default_value;
  technical_description = column.technical_description;
}

-- The snapshot of a column as the version row records it.
unfoldable pub column_snapshot : AssetColumn → Value
column_snapshot column = object (
    field "name" (text column.name) (
      field "ordinal_position" (int column.ordinal_position) (
        field "data_type" (text column.data_type) (
          field "is_nullable" (bool column.is_nullable) (
            field "default_value" (text_or_null column.default_value)
              (field "technical_description" (text_or_null column.technical_description) end))))))

-- `==` of two snapshots.
unfoldable pub same_column : AssetColumn → AssetColumn → Bool
same_column c d =
    c.name == d.name
    && eqb c.ordinal_position d.ordinal_position
    && c.data_type == d.data_type
    && same_bool c.is_nullable d.is_nullable
    && same_text c.default_value d.default_value
    && same_text c.technical_description d.technical_description

-- `{column.name: column for column in columns}`: a name keeps its first place and its last value.
unfoldable pub put_named : AssetColumn → List AssetColumn → List AssetColumn
put_named c [] = c ∷ []
put_named c (d ∷ ds) = if d.name == c.name then c ∷ ds else d ∷ put_named c ds

unfoldable pub by_name_from : List AssetColumn → List AssetColumn → List AssetColumn
unfolding put_named
by_name_from named [] = named
by_name_from named (c ∷ cs) = by_name_from (put_named c named) cs

unfoldable pub by_name : List AssetColumn → List AssetColumn
unfolding by_name_from
by_name cs = by_name_from [] cs

abbrev pub column_of : String → List AssetColumn → Option AssetColumn
column_of name cs = find_row (λ c. c.name) name cs

-- The columns of the asset and the changes found so far.
pub record ColumnSync : Type 0 where
  pub columns : List AssetColumn
  pub changes : Fields

abbrev pub append_item : Items → Value → Items
append_item nil v = cons v nil
append_item (cons w ws) v = cons w (append_item ws v)

abbrev pub appended : Option Value → Value → Value
appended (some (array vs)) v = array (append_item vs v)
appended _ v = array (cons v nil)

-- `changes.setdefault(key, []).append(v)`
unfoldable pub add_change : String → Value → Fields → Fields
add_change key v changes = put_field key (appended (get_field key changes) v) changes

abbrev pub updated_entry : AssetColumn → AssetColumn → Value
updated_entry old new = object (
    field "name" (text new.name)
      (field "before" (column_snapshot old) (field "after" (column_snapshot new) end)))

-- One round of the first loop: `old` is the column of that name before the loops.
unfoldable pub sync_incoming : Option AssetColumn → AssetColumn → ColumnSync → ColumnSync
unfolding add_change column_snapshot same_column
sync_incoming none incoming s = record {
  columns = s.columns ++ incoming ∷ [];
  changes = add_change "created" (column_snapshot incoming) s.changes;
}
sync_incoming (some old) incoming s = if same_column old incoming then s else record {
  columns = put_row (λ c. c.name) incoming s.columns;
  changes = add_change "updated" (updated_entry old incoming) s.changes;
}

unfoldable pub sync_all_incoming : List AssetColumn → List AssetColumn → ColumnSync → ColumnSync
unfolding sync_incoming
sync_all_incoming existing [] s = s
sync_all_incoming existing (c ∷ cs) s =
    sync_all_incoming existing cs (sync_incoming (column_of c.name existing) c s)

-- `asset.columns.remove(existing)`
unfoldable pub remove_column : String → List AssetColumn → List AssetColumn
remove_column name [] = []
remove_column name (c ∷ cs) = if c.name == name then cs else c ∷ remove_column name cs

-- One round of the second loop.
unfoldable pub sync_missing : Option AssetColumn → AssetColumn → ColumnSync → ColumnSync
unfolding remove_column add_change column_snapshot
sync_missing (some _) existing s = s
sync_missing none existing s = record {
  columns = remove_column existing.name s.columns;
  changes = add_change "removed" (column_snapshot existing) s.changes;
}

unfoldable pub sync_all_missing : List AssetColumn → List AssetColumn → ColumnSync → ColumnSync
unfolding sync_missing
sync_all_missing incoming [] s = s
sync_all_missing incoming (c ∷ cs) s =
    sync_all_missing incoming cs (sync_missing (column_of c.name incoming) c s)

unfoldable pub sync_columns : List AssetColumn → List DiscoveredColumn → ColumnSync
unfolding by_name sync_all_incoming sync_all_missing discovered_column_snapshot
sync_columns columns discovered =
    let existing = by_name columns in
    let incoming = by_name (map discovered_column_snapshot discovered) in
    sync_all_missing incoming existing
      (sync_all_incoming existing incoming (record { columns = columns; changes = end }))
