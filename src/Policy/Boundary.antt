-- ===== src/Policy/Boundary.antt =====
-- The tenant boundary of `evaluate_access`, and what each action needs of the row itself.
use datagenie.Prelude.{
  String, Option, ◌≡◌, true, ◌≢◌, some, Option-cases, none, inl, arith, eq_iff, ◌↔◌, inr, contains,
  find_row, refl,
}
use datagenie.Catalog.Session.{Env, Request, Db, get_asset}
use datagenie.Policy.Decision.{
  PolicyResource, PolicyDecision, resolve_resource, decision, resolved_as, deny,
}
use datagenie.Catalog.Principals.{Principal}
use datagenie.Policy.Access.{decide_access, is_supported}
use datagenie.Catalog.Models.{Asset}
use datagenie.Policy.Rules.{
  evaluate_rules, evaluate_asset_rules, resource_evidence, steward_actions,
}
use datagenie.Policy.Outcomes.{MayRead, MayCurate, read_iff, curate_iff, IsSteward, IsSteward-iff}

abbrev pub asset_resource : String → PolicyResource
asset_resource id = record { resource_type = "asset"; resource_id = id }

module _ (env : Env) (req : Request) (subject : Principal) (tenant action id : String)
    (purpose : Option String) (db : Db) where
  abbrev d : PolicyDecision
  d = decide_access env req subject tenant action (asset_resource id) purpose db

  found_asset :
      is_supported action "asset" ≡ true
      → d.outcome ≢ deny
      → (tenant ≡ subject.tenant_id)
        × (tenant ≡ db.tenant)
        × ((asset : Asset) × (get_asset id db ≡ some asset))
  unfolding decide_access resolve_resource evaluate_rules decision
  found_asset supported h = elim (Option-cases (get_asset id db)) [
    | inl e ↦ absurd (ground arith)
    | inr (a, e) ↦ ground (arith, eq_iff tenant subject.tenant_id, eq_iff tenant db.tenant)
  ]

  at_asset :
      is_supported action "asset" ≡ true
      → tenant ≡ subject.tenant_id
      → tenant ≡ db.tenant
      → (asset : Asset) → get_asset id db ≡ some asset
      → let resolved = resolved_as (asset_resource id) (some asset) none db in
        d
        ≡ evaluate_asset_rules subject action resolved asset purpose req.request_id req.now
            (resource_evidence env resolved)
  unfolding decide_access resolve_resource evaluate_rules
  at_asset supported own active asset found =
      ground (arith, eq_iff tenant subject.tenant_id, eq_iff tenant db.tenant)

  -- An action on an asset that is permitted by the rules exactly if `P` holds of the asset is
  -- permitted by the service exactly if the caller is in the active tenant, the asset is visible
  -- there, and `P` holds of it.
  access_iff :
      (P : Asset → Type 0)
      → is_supported action "asset" ≡ true
      → ((asset : Asset)
          → let resolved = resolved_as (asset_resource id) (some asset) none db in
            ((evaluate_asset_rules subject action resolved asset purpose req.request_id req.now
                (resource_evidence env resolved)).outcome
              ≢ deny)
            ↔ P asset)
      → (d.outcome ≢ deny) ↔ (
          (tenant ≡ subject.tenant_id)
          × (tenant ≡ db.tenant)
          × ((asset : Asset) × (get_asset id db ≡ some asset) × P asset))
  access_iff P supported rules = (
    (λ h.
        let (own, active, (asset, found)) = found_asset supported h in
        (
          own,
          active,
          (asset, found, (rules asset).0 (rw (← at_asset supported own active asset found) h)),
        )),
    λ (own, active, (asset, found, p)).
        rw (at_asset supported own active asset found) ((rules asset).1 p),
  )

module _ (env : Env) (req : Request) (subject : Principal) (tenant id : String)
    (purpose : Option String) (db : Db) where
  -- Reading an asset is permitted, with obligations or without, exactly if the caller's tenant is
  -- the active one, the asset is visible in it, the caller has a reading role, the asset is not
  -- deprecated, and a sensitive classification comes with a permitted purpose. No purpose is asked
  -- for where no classification is sensitive.
  pub access-read_iff :
      ((decide_access env req subject tenant "asset.read" (asset_resource id) purpose db).outcome
        ≢ deny)
      ↔ ((tenant ≡ subject.tenant_id)
          × (tenant ≡ db.tenant)
          × ((asset : Asset) × (get_asset id db ≡ some asset) × MayRead subject asset purpose))
  unfolding is_supported
  access-read_iff =
      access_iff env req subject tenant "asset.read" id purpose db
        (λ asset. MayRead subject asset purpose) refl
        (λ asset. read_iff subject _ asset purpose req.request_id req.now _ refl refl refl)

  -- Curating an asset is permitted exactly if the caller's tenant is the active one, the asset is
  -- visible in it, and the caller is a steward or administrator, or a data owner whom the asset
  -- names as its owner.
  pub access-curate_iff :
      ((decide_access env req subject tenant "asset.curate" (asset_resource id) purpose db).outcome
        ≢ deny)
      ↔ ((tenant ≡ subject.tenant_id)
          × (tenant ≡ db.tenant)
          × ((asset : Asset) × (get_asset id db ≡ some asset) × MayCurate subject asset))
  unfolding is_supported
  access-curate_iff =
      access_iff env req subject tenant "asset.curate" id purpose db
        (λ asset. MayCurate subject asset) refl
        (λ asset. curate_iff subject _ asset purpose req.request_id req.now _ refl refl refl)

  -- An action for stewards that is supported on assets, such as approving or executing a proposal,
  -- is permitted exactly if the caller's tenant is the active one, the asset is visible in it, and
  -- the caller is a steward or administrator.
  pub access-IsSteward_iff :
      (action : String)
      → contains action steward_actions ≡ true
      → is_supported action "asset" ≡ true
      → ((decide_access env req subject tenant action (asset_resource id) purpose db).outcome
          ≢ deny)
        ↔ ((tenant ≡ subject.tenant_id)
            × (tenant ≡ db.tenant)
            × ((asset : Asset) × (get_asset id db ≡ some asset) × IsSteward subject))
  access-IsSteward_iff action listed supported =
      access_iff env req subject tenant action id purpose db (λ asset. IsSteward subject) supported
        (λ asset.
          IsSteward-iff subject _ asset purpose req.request_id req.now _ refl refl refl action
            listed)

-- With the tenant isolation on, an asset of another tenant cannot be told from one that does not
-- exist: for every action, caller and purpose the decision, its evidence included, is the one that a
-- session of the same tenant without the asset comes to.
pub foreign_asset_hidden :
    (env : Env) (req : Request) (subject : Principal) (tenant action id : String)
    (purpose : Option String) (db absent : Db) (asset : Asset)
    → db.isolation ≡ true
    → find_row (λ a. a.id) id db.work.assets ≡ some asset
    → asset.tenant_id ≢ db.tenant
    → absent.tenant ≡ db.tenant
    → find_row (λ a. a.id) id absent.work.assets ≡ none
    → decide_access env req subject tenant action (asset_resource id) purpose db
      ≡ decide_access env req subject tenant action (asset_resource id) purpose absent
unfolding decide_access resolve_resource get_asset
foreign_asset_hidden env req subject tenant action id purpose db absent asset on row foreign same
      none_there =
    ground (arith, eq_iff asset.tenant_id db.tenant)
