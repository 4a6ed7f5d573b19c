-- ===== src/Ingestion/Synchronize/Accounted.antt =====
-- A synchronisation accounts for what it does, in its figures and in the version rows.
use datagenie.Catalog.Session.{Db}
use datagenie.Ingestion.Synchronize.{
  create_asset, update_asset, Worker, sync_asset, sync_assets, synchronize_discovery, SyncStats,
  SyncProgress, discovery_version, is_of_source, existing_for, no_stats, replace_asset,
  count_existing,
}
use datagenie.Ingestion.Technical.{
  synced_asset, has_no_entries, discovered_asset, asset_changes, discovered_asset_fields,
}
use datagenie.Prelude.{
  ℕ, ◌+◌, List, ◌≡◌, Option, if◌then◌else◌, length, ◌++◌, arith, keep, ◌∷◌, inr, inl, [], some,
  Bool-cases, length-append, ap, none, sym, ◌∙◌, Bool, subst, true, refl,
}
use datagenie.Catalog.Models.{DataSource, Asset, AssetMetadataVersion}
use datagenie.Ingestion.Discovery.{DiscoveredAsset}
use datagenie.Prelude.Exec.{ok, Result-cases, Result, continue, pure, raised}
use datagenie.Prelude.Json.{object, field, end}
use datagenie.Catalog.SearchIndex.{Failure}
use mathlib.Core.Bool.{false}

create_asset-versions :
    (w : Worker) (source : DataSource) (n : ℕ) (d : DiscoveredAsset) (db : Db)
    → (create_asset w source n d db).0 ≡ ok tt
    → length (create_asset w source n d db).1.work.versions ≡ length db.work.versions + 1
unfolding create_asset
create_asset-versions w source n d db h =
    let asset : Asset = discovered_asset w.discovered (w.new_id n) db.tenant source d in
    let row : AssetMetadataVersion =
      discovery_version source asset.id
        (object (field "created" (object (discovered_asset_fields d)) end)) in
    ground (arith, length-append db.work.versions (row ∷ []))

update_asset-rows :
    (w : Worker) (source : DataSource) (a : Asset) (d : DiscoveredAsset) (db : Db)
    → (update_asset w source a d db).1.work.versions ≡ (
        if has_no_entries (asset_changes a d)
        then db.work.versions
        else db.work.versions ++ discovery_version source a.id (object (asset_changes a d)) ∷ [])
unfolding update_asset
update_asset-rows w source a d db = elim (Bool-cases (has_no_entries (asset_changes a d))) [
  | inl e ↦ ground arith
  | inr e ↦ ground arith
]

-- `n` more assets have been dealt with, and each that was new or has changed has a version row.
abbrev Accounted : ℕ → SyncStats → ℕ → SyncStats → ℕ → Type 0
Accounted n s rows t rows' =
    (t.assets_created + t.assets_updated + t.assets_unchanged
      ≡ s.assets_created + s.assets_updated + s.assets_unchanged + n)
    × (rows' + s.assets_created + s.assets_updated ≡ rows + t.assets_created + t.assets_updated)

pure-ended :
    (p q : SyncProgress) (r : Result Failure (Unit {0})) (t : Db)
    → (continue (λ _. pure p) r t).0 ≡ ok q
    → (p ≡ q) × ((continue (λ _. pure p) r t).1 ≡ t)
pure-ended p q (ok u) t h = (ground arith, refl)
pure-ended p q (raised e) t h = absurd (ground arith)

updated-Accounted :
    (unchanged : Bool) (columns : ℕ) (s : SyncStats) (rows : List AssetMetadataVersion)
    (row : AssetMetadataVersion)
    → Accounted 1 s
        (length rows)
        (count_existing unchanged columns s)
        (length (if unchanged then rows else rows ++ row ∷ []))
updated-Accounted true columns s rows row = omega arith
updated-Accounted false columns s rows row = omega (arith, length-append rows (row ∷ []))

sync_asset-Accounted :
    (w : Worker) (source : DataSource) (n : ℕ) (d : DiscoveredAsset) (o : Option Asset)
    (p q : SyncProgress) (db : Db)
    → (sync_asset w source n d o p db).0 ≡ ok q
    → Accounted 1 p.stats
        (length db.work.versions)
        q.stats
        (length (sync_asset w source n d o p db).1.work.versions)
unfolding sync_asset
sync_asset-Accounted w source n d none p q db h =
    elim (Result-cases (create_asset w source n d db).0) [
      | inr (x, e) ↦ absurd (ground arith)
      | inl (t, e) ↦ ground (arith, create_asset-versions w source n d db e)
    ]
sync_asset-Accounted w source n d (some a) p q db h =
    let unchanged = has_no_entries (asset_changes a d) in
    let p' : SyncProgress = record {
      existing = replace_asset (synced_asset w.discovered a d) p.existing;
      stats = count_existing unchanged (length d.columns) p.stats;
    } in
    let row = discovery_version source a.id (object (asset_changes a d)) in
    let (same, last) =
      pure-ended p' q (update_asset w source a d db).0 (update_asset w source a d db).1 h in
    subst
      (λ x.
        Accounted 1 p.stats (length db.work.versions) x.stats
          (length (sync_asset w source n d (some a) p db).1.work.versions))
      same
      (subst (λ x. Accounted 1 p.stats (length db.work.versions) p'.stats (length x))
        (sym (ap (λ (t : Db). t.work.versions) last ∙ update_asset-rows w source a d db))
        (updated-Accounted unchanged (length d.columns) p.stats db.work.versions row))

sync_assets-Accounted :
    (w : Worker) (source : DataSource) (n : ℕ) (ds : List DiscoveredAsset) (p q : SyncProgress)
    (db : Db)
    → (sync_assets w source n ds p db).0 ≡ ok q
    → Accounted
        (length ds)
        p.stats
        (length db.work.versions)
        q.stats
        (length (sync_assets w source n ds p db).1.work.versions)
unfolding sync_assets
sync_assets-Accounted w source n [] p q db h = ground arith
sync_assets-Accounted w source n (d ∷ ds) p q db h =
    let o : Option Asset = existing_for d.asset_type d.qualified_name p.existing in
    let out : Result Failure SyncProgress × Db = sync_asset w source n d o p db in
    elim (Result-cases out.0) [
      | inr (x, e) ↦ absurd (ground arith)
      | inl (r, e) ↦
          let one = sync_asset-Accounted w source n d o p r db e in
          let same : sync_assets w source n (d ∷ ds) p db
              ≡ sync_assets w source (n + 1) ds r out.1 =
            ground arith in
          let more =
            sync_assets-Accounted w source (n + 1) ds r q out.1
              (ap (λ (x : Result Failure SyncProgress × Db). x.0) (sym same) ∙ h) in
          let rows : length (sync_assets w source n (d ∷ ds) p db).1.work.versions
              ≡ length (sync_assets w source (n + 1) ds r out.1).1.work.versions =
            ap (λ (x : Result Failure SyncProgress × Db). length x.1.work.versions) same in
          omega (arith, one, more, rows)
    ]

-- A synchronisation that succeeds has counted each discovered asset once, as created, updated or
-- unchanged, and has added one version row for each that was created or updated.
pub synchronize_discovery-stats :
    (w : Worker) (source : DataSource) (ds : List DiscoveredAsset) (s : SyncStats) (db : Db)
    → (synchronize_discovery w source ds db).0 ≡ ok s
    → (s.assets_created + s.assets_updated + s.assets_unchanged ≡ length ds)
      × (length (synchronize_discovery w source ds db).1.work.versions
          ≡ length db.work.versions + s.assets_created + s.assets_updated)
unfolding synchronize_discovery
synchronize_discovery-stats w source ds s db h =
    let p : SyncProgress = record {
      existing = keep (is_of_source db source) db.work.assets;
      stats = no_stats (length ds);
    } in
    elim (Result-cases (sync_assets w source 0 ds p db).0) [
      | inr (x, e) ↦ absurd (ground arith)
      | inl (q, e) ↦ ground (arith, sync_assets-Accounted w source 0 ds p q db e)
    ]
