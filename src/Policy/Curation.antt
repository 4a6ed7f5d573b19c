-- ===== src/Policy/Curation.antt =====
-- `can_curate_asset` of apps/catalog-api/app/core/security.py beside the policy service.
use datagenie.Catalog.Authorization.{can_curate_asset}
use datagenie.Catalog.Session.{Env, Request, Db, get_asset}
use datagenie.Catalog.Principals.{has_any_role, Principal, intersects-single, role_data_steward}
use datagenie.Catalog.Models.{Asset}
use datagenie.Prelude.{String, ◌≡◌, Option, true, ◌↔◌, some, arith, is_text_iff, ◌≢◌, subst, refl}
use datagenie.Policy.Outcomes.{MayCurate}
use datagenie.Policy.Access.{decide_access}
use datagenie.Policy.Boundary.{asset_resource, access-curate_iff}
use datagenie.Policy.Decision.{deny}

can_curate_asset-MayCurate :
    (principal : Principal) (asset : Asset)
    → (can_curate_asset principal asset.owner ≡ true) ↔ MayCurate principal asset
unfolding can_curate_asset has_any_role
can_curate_asset-MayCurate principal asset = ground (
  arith,
  is_text_iff asset.owner principal.subject,
  intersects-single principal.roles role_data_steward,
)

-- For an asset that the session of the caller's tenant sees, the shorter test on the caller and the
-- owner's name agrees with the policy service: it holds exactly if a curation is not denied.
pub access-can_curate_asset :
    (env : Env) (req : Request) (principal : Principal) (id : String) (purpose : Option String)
    (db : Db) (asset : Asset)
    → principal.tenant_id ≡ db.tenant
    → get_asset id db ≡ some asset
    → ((decide_access env req principal principal.tenant_id "asset.curate"
          (asset_resource id)
          purpose
          db).outcome
        ≢ deny)
      ↔ (can_curate_asset principal asset.owner ≡ true)
access-can_curate_asset env req principal id purpose db asset same found =
    let (there, back) = access-curate_iff env req principal principal.tenant_id id purpose db in
    let (can, may) = can_curate_asset-MayCurate principal asset in
    (
      (λ h.
          let (_, _, (a, e, m)) = there h in
          may (subst (λ x. MayCurate principal x) {x = a} {y = asset} (ground arith) m)),
      λ c. back (refl, same, (asset, found, can c)),
    )
