-- ===== src/Ingestion/Synchronize/Synchronized.antt =====
-- Every synchronisation keeps what stewards curated, and accounts for each discovered asset.
use datagenie.Catalog.SearchIndex.{index_asset, index_entry, Failure}
use datagenie.Ingestion.Synchronize.{
  create_asset, update_asset, Worker, synchronize_discovery, is_of_source, SyncProgress, sync_asset,
  sync_assets, Job, SyncStats, existing_for, no_stats,
}
use datagenie.Ingestion.Technical.{synced_asset, discovered_asset, has_no_entries, asset_changes}
use datagenie.Catalog.Models.{Instant, Asset, DataSource}
use datagenie.Ingestion.Discovery.{DiscoveredAsset}
use datagenie.Prelude.{
  ℕ, ◌≡◌, ◌++◌, put_row, refl, Bool-cases, ◌∷◌, inl, [], inr, arith, List, Bool, Option, some, true,
  ◌+◌, keep, length, ap, ◌∙◌, ◌&&◌, none, ◌==◌,
}
use datagenie.Catalog.Session.{Db, in_scope}
use datagenie.Ingestion.Synchronize.Curated.{
  curation_of, Keyed, Kept, Held, Kept-refl, asset_of, Kept-trans, Kept-append, Held-existing_for,
  Held-append, Kept-put, Held-put, Curation, Held-keep,
}
use datagenie.Prelude.Exec.{Result-cases, Result, continue, ok, pure, raised}

pub index_asset-assets :
    (now : Instant) (a : Asset) (db : Db)
    → ((index_asset now a db).1.work.assets ≡ db.work.assets)
      × ((index_asset now a db).1.work.versions ≡ db.work.versions)
unfolding index_asset
index_asset-assets now a db = elim (Result-cases (index_entry a)) [
  | inl (entry, e) ↦ rw e (refl, refl)
  | inr (x, e) ↦ rw e (refl, refl)
]

synced_asset-curation :
    (now : Instant) (a : Asset) (d : DiscoveredAsset)
    → curation_of (synced_asset now a d) ≡ curation_of a
unfolding synced_asset
synced_asset-curation now a d = refl

create_asset-assets :
    (w : Worker) (source : DataSource) (n : ℕ) (d : DiscoveredAsset) (db : Db)
    → (create_asset w source n d db).1.work.assets
      ≡ db.work.assets ++ discovered_asset w.discovered (w.new_id n) db.tenant source d ∷ []
unfolding create_asset
create_asset-assets w source n d db = ground arith

pub update_asset-assets :
    (w : Worker) (source : DataSource) (a : Asset) (d : DiscoveredAsset) (db : Db)
    → (update_asset w source a d db).1.work.assets
      ≡ put_row (λ b. b.id) (synced_asset w.discovered a d) db.work.assets
unfolding update_asset
update_asset-assets w source a d db = elim (Bool-cases (has_no_entries (asset_changes a d))) [
  | inl e ↦ ground arith
  | inr e ↦ ground arith
]

-- What a step that may raise leaves of the table `xs`.
abbrev Good : (Asset → Bool) → List Asset → Result Failure SyncProgress → List Asset → Type 0
Good chosen xs (ok p) ys = Kept chosen xs ys × Held chosen ys p.existing
Good chosen xs (raised e) ys = Kept chosen xs ys

Good-pure :
    (chosen : Asset → Bool) (xs : List Asset) (p : SyncProgress) (r : Result Failure (Unit {0}))
    (t : Db)
    → Kept chosen xs t.work.assets
    → Held chosen t.work.assets p.existing
    → let out : Result Failure SyncProgress × Db = continue (λ _. pure p) r t in
      Good chosen xs out.0 out.1.work.assets
Good-pure chosen xs p (ok u) t k h = (k, h)
Good-pure chosen xs p (raised e) t k h = k

Good-then :
    (chosen : Asset → Bool) (f : SyncProgress → Job SyncProgress) (xs : List Asset)
    (r : Result Failure SyncProgress) (t : Db)
    → ((p : SyncProgress) (u : Db)
        → Held chosen u.work.assets p.existing
        → Good chosen u.work.assets (f p u).0 (f p u).1.work.assets)
    → Good chosen xs r t.work.assets
    → let out : Result Failure SyncProgress × Db = continue f r t in
      Good chosen xs out.0 out.1.work.assets
Good-then chosen f xs (raised e) t next g = g
Good-then chosen f xs (ok p) t next g =
    joined chosen xs t.work.assets (f p t).0 (f p t).1.work.assets g.0 (next p t g.1)
  where
    joined :
        (chosen : Asset → Bool) (xs ys : List Asset) (r : Result Failure SyncProgress)
        (zs : List Asset)
        → Kept chosen xs ys
        → Good chosen ys r zs
        → Good chosen xs r zs
    joined chosen xs ys (ok q) zs k g = (Kept-trans chosen xs ys zs k g.0, g.1)
    joined chosen xs ys (raised e) zs k g = Kept-trans chosen xs ys zs k g

module _ (chosen : Asset → Bool)
    (stable : (a b : Asset) → curation_of a ≡ curation_of b → chosen a ≡ chosen b) (w : Worker)
    (source : DataSource) where
  sync_asset-Good :
      (n : ℕ) (d : DiscoveredAsset) (o : Option Asset) (p : SyncProgress) (db : Db)
      → Held chosen db.work.assets p.existing
      → ((a : Asset) → o ≡ some a → (asset_of a.id db.work.assets ≡ some a) × (chosen a ≡ true))
      → let out = sync_asset w source n d o p db in
        Good chosen db.work.assets out.0 out.1.work.assets
  unfolding sync_asset
  sync_asset-Good n d none p db held known =
      let rows = create_asset-assets w source n d db in
      Good-pure chosen db.work.assets _ (create_asset w source n d db).0
        (create_asset w source n d db).1 (rw rows (Kept-append chosen db.work.assets _))
        (rw rows (Held-append chosen db.work.assets _ p.existing held))
  sync_asset-Good n d (some a) p db held known =
      let rows = update_asset-assets w source a d db in
      let a' : Asset = synced_asset w.discovered a d in
      let (found, mine) = known a refl in
      let same = synced_asset-curation w.discovered a d in
      Good-pure chosen db.work.assets _ (update_asset w source a d db).0
        (update_asset w source a d db).1
        (rw rows (Kept-put chosen a a' db.work.assets found mine same))
        (rw rows (
          Held-put chosen a a' db.work.assets p.existing found (ap (λ c. c.id) same)
            (stable a' a same ∙ mine) held))

  sync_assets-Good :
      (n : ℕ) (ds : List DiscoveredAsset) (p : SyncProgress) (db : Db)
      → Held chosen db.work.assets p.existing
      → let out = sync_assets w source n ds p db in
        Good chosen db.work.assets out.0 out.1.work.assets
  unfolding sync_assets
  sync_assets-Good n [] p db held = (Kept-refl chosen db.work.assets, held)
  sync_assets-Good n (d ∷ ds) p db held =
      let o : Option Asset = existing_for d.asset_type d.qualified_name p.existing in
      Good-then chosen (sync_assets w source (n + 1) ds) db.work.assets
        (sync_asset w source n d o p db).0 (sync_asset w source n d o p db).1
        (λ q u h. sync_assets-Good (n + 1) ds q u h)
        (sync_asset-Good n d o p db held (λ a e.
          Held-existing_for chosen d.asset_type d.qualified_name db.work.assets p.existing a held
            e))

Good-Kept :
    (chosen : Asset → Bool) (xs ys : List Asset) (r : Result Failure SyncProgress)
    → Good chosen xs r ys
    → Kept chosen xs ys
Good-Kept chosen xs ys (ok p) g = g.0
Good-Kept chosen xs ys (raised e) g = g

-- Whatever a connector discovers, and whether the synchronisation succeeds or raises in its middle,
-- every asset of the catalog is still there with its identity, its tenant, its source, its
-- description, tags, owner, classification, domain, quality figures, lifecycle status and time of
-- curation; an asset of another source or outside the tenant is not changed at all. The assets'
-- identifiers are a primary key.
pub synchronize_discovery-Kept :
    (w : Worker) (source : DataSource) (ds : List DiscoveredAsset) (db : Db)
    → Keyed db.work.assets db.work.assets
    → Kept
        (is_of_source db source)
        db.work.assets
        (synchronize_discovery w source ds db).1.work.assets
unfolding synchronize_discovery
synchronize_discovery-Kept w source ds db keyed =
    let chosen : Asset → Bool = is_of_source db source in
    let p : SyncProgress = record {
      existing = keep chosen db.work.assets;
      stats = no_stats (length ds);
    } in
    let out : Result Failure SyncProgress × Db = sync_assets w source 0 ds p db in
    ended chosen db.work.assets out.0 out.1 (
      Good-Kept chosen db.work.assets out.1.work.assets out.0 (
        sync_assets-Good chosen
          (λ a b e. ap (λ (c : Curation). in_scope db c.tenant_id && c.source_id == source.id) e) w
          source 0 ds p db (Held-keep chosen db.work.assets db.work.assets keyed)))
  where
    ended :
        (chosen : Asset → Bool) (xs : List Asset) (r : Result Failure SyncProgress) (t : Db)
        → Kept chosen xs t.work.assets
        → let out : Result Failure SyncStats × Db = continue (λ p. pure p.stats) r t in
          Kept chosen xs out.1.work.assets
    ended chosen xs (ok p) t k = k
    ended chosen xs (raised e) t k = k
