-- ===== src/Ingestion/Synchronize/Frame.antt =====
-- What a synchronisation leaves alone: the committed tables, the jobs, the sources, the session's
-- tenant, and a database without faults.
use datagenie.Catalog.Session.{Db}
use datagenie.Prelude.{
  ◌≡◌, ◌∙◌, [], refl, List, ℕ, Option, ◌∷◌, inl, arith, ◌+◌, keep, inr, some, none, Bool-cases,
  length,
}
use datagenie.Ingestion.Synchronize.{
  Job, Worker, create_asset, update_asset, sync_asset, sync_assets, synchronize_discovery,
  SyncProgress, existing_for, is_of_source, no_stats,
}
use datagenie.Ingestion.Technical.{asset_changes, has_no_entries}
use datagenie.Catalog.SearchIndex.{index_asset, Failure, index_entry}
use datagenie.Prelude.Exec.{Result, continue, Result-cases, raised, ok, pure}
use datagenie.Catalog.Models.{Instant, DataSource, Asset}
use datagenie.Ingestion.Discovery.{DiscoveredAsset}

pub record Frame (db t : Db) : Type 0 where
  pub saved : t.saved ≡ db.saved
  pub jobs : t.work.jobs ≡ db.work.jobs
  pub sources : t.work.sources ≡ db.work.sources
  pub sync_states : t.work.sync_states ≡ db.work.sync_states
  pub tenant : t.tenant ≡ db.tenant
  pub isolation : t.isolation ≡ db.isolation
  pub faults : db.faults ≡ [] → t.faults ≡ []

Frame-refl : (db : Db) → Frame db db
Frame-refl db = record {
  saved = refl;
  jobs = refl;
  sources = refl;
  sync_states = refl;
  tenant = refl;
  isolation = refl;
  faults = λ h. h;
}

Frame-trans : (a b c : Db) → Frame a b → Frame b c → Frame a c
Frame-trans a b c f g = record {
  saved = g.saved ∙ f.saved;
  jobs = g.jobs ∙ f.jobs;
  sources = g.sources ∙ f.sources;
  sync_states = g.sync_states ∙ f.sync_states;
  tenant = g.tenant ∙ f.tenant;
  isolation = g.isolation ∙ f.isolation;
  faults = λ h. g.faults (f.faults h);
}

Frame-continue :
    {A B : Type 0} (f : A → Job B) (db : Db) (r : Result Failure A) (t : Db)
    → ((a : A) (u : Db) → Frame u (f a u).1)
    → Frame db t
    → Frame db (continue f r t).1
Frame-continue f db (raised e) t each g = g
Frame-continue f db (ok a) t each g = Frame-trans db t (f a t).1 g (each a t)

index_asset-Frame : (now : Instant) (a : Asset) (db : Db) → Frame db (index_asset now a db).1
unfolding index_asset
index_asset-Frame now a db = elim (Result-cases (index_entry a)) [
  | inl (entry, e) ↦ rw e (record {
    saved = refl;
    jobs = refl;
    sources = refl;
    sync_states = refl;
    tenant = refl;
    isolation = refl;
    faults = λ h. h;
  })
  | inr (x, e) ↦ rw e (Frame-refl db)
]

module _ (w : Worker) (source : DataSource) where
  create_asset-Frame :
      (n : ℕ) (d : DiscoveredAsset) (db : Db) → Frame db (create_asset w source n d db).1
  unfolding create_asset
  create_asset-Frame n d db = record {
    saved = ground arith;
    jobs = ground arith;
    sources = ground arith;
    sync_states = ground arith;
    tenant = ground arith;
    isolation = ground arith;
    faults = λ h. ground arith;
  }

  update_asset-Frame :
      (a : Asset) (d : DiscoveredAsset) (db : Db) → Frame db (update_asset w source a d db).1
  unfolding update_asset
  update_asset-Frame a d db = elim (Bool-cases (has_no_entries (asset_changes a d))) [
    | inl e ↦ record {
      saved = ground arith;
      jobs = ground arith;
      sources = ground arith;
      sync_states = ground arith;
      tenant = ground arith;
      isolation = ground arith;
      faults = λ h. ground arith;
    }
    | inr e ↦ record {
      saved = ground arith;
      jobs = ground arith;
      sources = ground arith;
      sync_states = ground arith;
      tenant = ground arith;
      isolation = ground arith;
      faults = λ h. ground arith;
    }
  ]

  sync_asset-Frame :
      (n : ℕ) (d : DiscoveredAsset) (o : Option Asset) (p : SyncProgress) (db : Db)
      → Frame db (sync_asset w source n d o p db).1
  unfolding sync_asset
  sync_asset-Frame n d none p db =
      Frame-continue (λ _. pure _) db _ _ (λ _ u. Frame-refl u) (create_asset-Frame n d db)
  sync_asset-Frame n d (some a) p db =
      Frame-continue (λ _. pure _) db _ _ (λ _ u. Frame-refl u) (update_asset-Frame a d db)

  sync_assets-Frame :
      (n : ℕ) (ds : List DiscoveredAsset) (p : SyncProgress) (db : Db)
      → Frame db (sync_assets w source n ds p db).1
  unfolding sync_assets
  sync_assets-Frame n [] p db = Frame-refl db
  sync_assets-Frame n (d ∷ ds) p db =
      Frame-continue (sync_assets w source (n + 1) ds) db _ _
        (λ q u. sync_assets-Frame (n + 1) ds q u)
        (sync_asset-Frame n d (existing_for d.asset_type d.qualified_name p.existing) p db)

  pub synchronize_discovery-Frame :
      (ds : List DiscoveredAsset) (db : Db) → Frame db (synchronize_discovery w source ds db).1
  unfolding synchronize_discovery
  synchronize_discovery-Frame ds db =
      Frame-continue (λ (p : SyncProgress). pure p.stats) db _ _ (λ _ u. Frame-refl u)
        (sync_assets-Frame 0 ds
          (record {
            existing = keep (is_of_source db source) db.work.assets;
            stats = no_stats (length ds);
          })
          db)
