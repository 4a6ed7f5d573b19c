-- ===== src/Ingestion/Technical/Versions.antt =====
-- The technical version of an asset stands for its technical fields and its columns: what
-- synchronize_discovery of app/services/ingestion_service.py changes shows in it.
use datagenie.Prelude.{
  String, Option, List, ◌≡◌, true, ◌+◌, arith, ◌∷◌, Bool-cases, some, false, map, same_number-eq,
  inl, ◌∙◌, same_text-eq, inr, ◌==◌, subst, eq_iff, ap, refl, [], [],
}
use datagenie.Ingestion.Discovery.{
  sync_incoming, sync_all_incoming, sync_missing, sync_all_missing, sync_columns, DiscoveredAsset,
  ColumnSync, DiscoveredColumn, by_name, appended, column_of, discovered_column_snapshot,
  column_snapshot, same_column, updated_entry,
}
use datagenie.Catalog.Models.{AssetType, Asset, Instant, AssetColumn}
use datagenie.Ingestion.Technical.{
  technical_changes, asset_changes, synced_asset, same_asset_type, set_technical, has_no_entries,
  compare_field, freshness, FieldComparison, compare_fields, field_comparisons,
}
use datagenie.Prelude.Json.{Value, Fields, put_field, object, field, get_field, end}
use mathlib.Core.Option.{none}

put_field-has_no_entries :
    (k : String) (v : Value) (fs : Fields) → has_no_entries (put_field k v fs) ≡ false
put_field-has_no_entries k v end = refl
put_field-has_no_entries k v (field j w fs) = elim (Bool-cases (j == k)) [
  | inl e ↦ rw e
  | inr e ↦ rw e
]

abbrev AllSame : List FieldComparison → Type 0
AllSame [] = Unit
AllSame (c ∷ cs) = (c.same ≡ true) × AllSame cs

compare_fields-has_no_entries :
    (cs : List FieldComparison) (fs : Fields)
    → has_no_entries (compare_fields cs fs) ≡ true
    → AllSame cs × (has_no_entries fs ≡ true)
unfolding compare_fields
compare_fields-has_no_entries [] fs h = (tt, h)
compare_fields-has_no_entries (c ∷ cs) fs h =
    let (later, start) = compare_fields-has_no_entries cs (compare_field c fs) h in
    elim (Bool-cases c.same) [
      | inl e ↦ ((e, later), rw e at start)
      | inr e ↦ absurd (
          ground (
            arith,
            put_field-has_no_entries c.name
                (object (field "before" c.before (field "after" c.after end))) fs,
          ))
    ]

sync_incoming-has_no_entries :
    (old : Option AssetColumn) (c : AssetColumn) (s : ColumnSync)
    → has_no_entries (sync_incoming old c s).changes ≡ true
    → sync_incoming old c s ≡ s
unfolding sync_incoming
sync_incoming-has_no_entries none c s h = absurd (
    ground (
      arith,
      put_field-has_no_entries "created"
          (appended (get_field "created" s.changes) (column_snapshot c)) s.changes,
    ))
sync_incoming-has_no_entries (some old) c s h = elim (Bool-cases (same_column old c)) [
  | inl e ↦ rw e
  | inr e ↦ absurd (
      ground (
        arith,
        put_field-has_no_entries "updated"
            (appended (get_field "updated" s.changes) (updated_entry old c)) s.changes,
      ))
]

sync_all_incoming-has_no_entries :
    (existing cs : List AssetColumn) (s : ColumnSync)
    → has_no_entries (sync_all_incoming existing cs s).changes ≡ true
    → sync_all_incoming existing cs s ≡ s
unfolding sync_all_incoming
sync_all_incoming-has_no_entries existing [] s h = refl
sync_all_incoming-has_no_entries existing (c ∷ cs) s h =
    let s' : ColumnSync = sync_incoming (column_of c.name existing) c s in
    let later = sync_all_incoming-has_no_entries existing cs s' h in
    later
    ∙ sync_incoming-has_no_entries (column_of c.name existing) c s
        (subst (λ t. has_no_entries t.changes ≡ true) later h)

sync_missing-has_no_entries :
    (found : Option AssetColumn) (c : AssetColumn) (s : ColumnSync)
    → has_no_entries (sync_missing found c s).changes ≡ true
    → sync_missing found c s ≡ s
unfolding sync_missing
sync_missing-has_no_entries (some d) c s h = refl
sync_missing-has_no_entries none c s h = absurd (
    ground (
      arith,
      put_field-has_no_entries "removed"
          (appended (get_field "removed" s.changes) (column_snapshot c)) s.changes,
    ))

sync_all_missing-has_no_entries :
    (incoming cs : List AssetColumn) (s : ColumnSync)
    → has_no_entries (sync_all_missing incoming cs s).changes ≡ true
    → sync_all_missing incoming cs s ≡ s
unfolding sync_all_missing
sync_all_missing-has_no_entries incoming [] s h = refl
sync_all_missing-has_no_entries incoming (c ∷ cs) s h =
    let s' : ColumnSync = sync_missing (column_of c.name incoming) c s in
    let later = sync_all_missing-has_no_entries incoming cs s' h in
    later
    ∙ sync_missing-has_no_entries (column_of c.name incoming) c s
        (subst (λ t. has_no_entries t.changes ≡ true) later h)

-- Where the synchronisation records no change the columns are as they were.
sync_columns-has_no_entries :
    (columns : List AssetColumn) (discovered : List DiscoveredColumn)
    → has_no_entries (sync_columns columns discovered).changes ≡ true
    → (sync_columns columns discovered).columns ≡ columns
unfolding sync_columns
sync_columns-has_no_entries columns discovered h =
    let existing : List AssetColumn = by_name columns in
    let incoming : List AssetColumn = by_name (map discovered_column_snapshot discovered) in
    let start : ColumnSync = record { columns = columns; changes = end } in
    let s : ColumnSync = sync_all_incoming existing incoming start in
    let last = sync_all_missing-has_no_entries incoming existing s h in
    ap (λ t. t.columns)
      (last
        ∙ sync_all_incoming-has_no_entries existing incoming start
            (subst (λ t. has_no_entries t.changes ≡ true) last h))

same_asset_type-eq : (s t : AssetType) → same_asset_type s t ≡ true → s ≡ t
unfolding same_asset_type
same_asset_type-eq s t h = ground arith

-- Where no field differs the technical fields are as they were.
technical_changes-has_no_entries :
    (a : Asset) (d : DiscoveredAsset)
    → has_no_entries (technical_changes a d) ≡ true
    → set_technical a d ≡ a
unfolding technical_changes set_technical
technical_changes-has_no_entries a d h =
    let (
      (typed, (qualified, (named, (databases, (schemas, (described, (metadata, (rows, _)))))))),
      _,
    ) =
      compare_fields-has_no_entries (field_comparisons a d) end h in
    ground (
      arith,
      metadata,
      same_number-eq a.row_count d.row_count rows,
      same_text-eq a.technical_description d.technical_description described,
      same_text-eq a.schema_name d.schema_name schemas,
      same_text-eq a.database_name d.database_name databases,
      (eq_iff a.name d.name).0 named,
      (eq_iff a.qualified_name d.qualified_name).0 qualified,
      same_asset_type-eq a.asset_type d.asset_type typed,
    )

asset_changes-has_no_entries :
    (a : Asset) (d : DiscoveredAsset)
    → has_no_entries (asset_changes a d) ≡ true
    → ((sync_columns a.columns d.columns).columns ≡ a.columns) × (set_technical a d ≡ a)
unfolding asset_changes
asset_changes-has_no_entries a d h =
    let changes : Fields = (sync_columns a.columns d.columns).changes in
    elim (Bool-cases (has_no_entries changes)) [
      | inl e ↦ (
        sync_columns-has_no_entries a.columns d.columns e,
        technical_changes-has_no_entries a d (rw e at h),
      )
      | inr e ↦ absurd (
          ground
            (arith, put_field-has_no_entries "columns" (object changes) (technical_changes a d)))
    ]

pub synced_asset-same :
    (now : Instant) (a : Asset) (d : DiscoveredAsset)
    → has_no_entries (asset_changes a d) ≡ true
    → synced_asset now a d
      ≡ record a { last_discovered_at = now; freshness_at = freshness now d.freshness_at }
unfolding synced_asset
synced_asset-same now a d e =
    let (columns, rest) = asset_changes-has_no_entries a d e in
    let dated : Asset → Asset =
      λ b. record b { last_discovered_at = now; freshness_at = freshness now d.freshness_at } in
    rw (e, columns) (ground (arith, ap dated rest))

pub synced_asset-next :
    (now : Instant) (a : Asset) (d : DiscoveredAsset)
    → has_no_entries (asset_changes a d) ≡ false
    → (synced_asset now a d).technical_version ≡ a.technical_version + 1
unfolding synced_asset
synced_asset-next now a d e = rw e
