-- ===== src/Tests/PolicyRuns.antt =====
-- The policy service on the small catalog.
use datagenie.Policy.Access.{decide_access, is_supported, enforce_policy, is_allow, refusal}
use datagenie.Catalog.Models.{Asset}
use datagenie.Prelude.{
  ◌≢◌, find_row, arith, eq_iff, ◌∷◌, some, none, [], ◌≡◌, true, ◌↔◌, if◌then◌else◌, refl, ◌++◌,
  false, Bool, ◌⊎◌,
}
use datagenie.Policy.Boundary.{
  asset_resource, foreign_asset_hidden, access-read_iff, access-curate_iff, access-IsSteward_iff,
}
use datagenie.Catalog.Session.{Db, get_asset, get_domain, http, Error}
use datagenie.Prelude.Json.{object, field, text, int, end}
use datagenie.Policy.Decision.{resolve_resource, deny, decision, allow, allow_with_obligations}
use datagenie.Tests.Fixtures.{env, orders, db, db_with, req, tables_with, owner, steward, analyst}
use datagenie.Policy.Rules.{
  evaluate_rules, evaluate_asset_rules, evaluate_state_rules, role_allows, quality_is_fresh,
}
use datagenie.Policy.Enforcement.{
  decision_event, enforce_policy-no_audit, enforce_policy-ok, denial_event,
  enforce_policy-no_faults,
}
use datagenie.Catalog.Audit.Redaction.{IsRedacted, sanitize_value-IsRedacted}
use datagenie.Prelude.Exec.{raised, ok}
use datagenie.Catalog.Audit.{sanitize_value}
use datagenie.Policy.Outcomes.{MayRead, MayCurate, IsSteward}
use datagenie.Policy.Text.{has_sensitive_classification, purpose_is_permitted}
use datagenie.Prelude.Text.{split, strip, lower, is_infix}
use datagenie.Catalog.Authorization.{can_curate_asset}
use datagenie.Policy.Curation.{access-can_curate_asset}

read_by_owner :
    (decide_access env req owner "acme" "asset.read"
      (asset_resource "a-1")
      (some "Quarterly risk review")
      db).outcome
    ≡ allow_with_obligations
unfolding decide_access is_supported resolve_resource get_asset get_domain evaluate_rules
    evaluate_asset_rules evaluate_state_rules role_allows decision has_sensitive_classification
    purpose_is_permitted quality_is_fresh find_row split strip lower is_infix
read_by_owner = refl

read_without_purpose :
    (decide_access env req owner "acme" "asset.read" (asset_resource "a-1") none db).outcome ≡ deny
unfolding decide_access is_supported resolve_resource get_asset get_domain evaluate_rules
    evaluate_asset_rules evaluate_state_rules role_allows decision has_sensitive_classification
    purpose_is_permitted quality_is_fresh find_row split strip lower
read_without_purpose = refl

access-read_iff_example :
    ((decide_access env req owner "acme" "asset.read"
        (asset_resource "a-1")
        (some "Quarterly risk review")
        db).outcome
      ≢ deny)
    ↔ ((owner.tenant_id ≡ owner.tenant_id)
        × (owner.tenant_id ≡ db.tenant)
        × ((asset : Asset) × (get_asset "a-1" db ≡ some asset)
            × MayRead owner asset (some "Quarterly risk review")))
access-read_iff_example =
    access-read_iff env req owner "acme" "a-1" (some "Quarterly risk review") db

access-curate_iff_example :
    ((decide_access env req owner "acme" "asset.curate" (asset_resource "a-1") none db).outcome
      ≢ deny)
    ↔ ((owner.tenant_id ≡ owner.tenant_id)
        × (owner.tenant_id ≡ db.tenant)
        × ((asset : Asset) × (get_asset "a-1" db ≡ some asset) × MayCurate owner asset))
access-curate_iff_example = access-curate_iff env req owner "acme" "a-1" none db

access-IsSteward_iff_example :
    ((decide_access env req steward "acme" "governance.proposal.execute"
        (asset_resource "a-1")
        none
        db).outcome
      ≢ deny)
    ↔ ((steward.tenant_id ≡ steward.tenant_id)
        × (steward.tenant_id ≡ db.tenant)
        × ((asset : Asset) × (get_asset "a-1" db ≡ some asset) × IsSteward steward))
unfolding is_supported
access-IsSteward_iff_example =
    access-IsSteward_iff env req steward "acme" "a-1" none db "governance.proposal.execute" refl
      refl

abbrev foreign_orders : Asset
foreign_orders = record orders { tenant_id = "globex" }

globex_not_acme : foreign_orders.tenant_id ≢ db.tenant
globex_not_acme = ground (arith, eq_iff foreign_orders.tenant_id db.tenant)

foreign_asset_hidden_example :
    decide_access env req steward "acme" "asset.read"
      (asset_resource "a-1")
      none
      (db_with (tables_with (foreign_orders ∷ []) []) [])
    ≡ decide_access env req steward "acme" "asset.read"
        (asset_resource "a-1")
        none
        (db_with (tables_with [] []) [])
unfolding find_row
foreign_asset_hidden_example =
    foreign_asset_hidden env req steward "acme" "asset.read" "a-1" none
      (db_with (tables_with (foreign_orders ∷ []) []) []) (db_with (tables_with [] []) [])
      foreign_orders refl refl globex_not_acme refl refl

enforce_policy-ok_example :
    let resource = asset_resource "a-1" in
    let d = decide_access env req owner "acme" "asset.curate" resource none db in
    let enforced = enforce_policy env req owner "asset.curate" "asset" "a-1" none db in
    (d.outcome ≡ allow)
    × (enforced.1.saved ≡ enforced.1.work)
    × (enforced.1.saved.audit_events
        ≡ db.work.audit_events ++ decision_event env req owner "asset.curate" resource none d ∷ [])
unfolding enforce_policy decide_access is_supported resolve_resource get_asset get_domain
    evaluate_rules evaluate_asset_rules evaluate_state_rules role_allows decision find_row
enforce_policy-ok_example =
    enforce_policy-ok env req owner "asset.curate" "asset" "a-1" none db refl

enforce_policy-no_faults_example :
    let resource = asset_resource "a-1" in
    let d = decide_access env req analyst "acme" "asset.curate" resource none db in
    let enforced = enforce_policy env req analyst "asset.curate" "asset" "a-1" none db in
    let event = decision_event env req analyst "asset.curate" resource none d in
    (enforced.0 ≡ (if is_allow d.outcome then ok tt else raised (refusal d.outcome)))
    × (enforced.1.saved ≡ enforced.1.work)
    × (enforced.1.saved.audit_events ≡ (
        if is_allow d.outcome
        then db.work.audit_events ++ event ∷ []
        else (db.work.audit_events ++ event ∷ [])
          ++ denial_event req analyst "asset.curate" resource d ∷ []))
enforce_policy-no_faults_example =
    enforce_policy-no_faults env req analyst "asset.curate" "asset" "a-1" none db refl

-- The flush of the decision's event goes well, its commit raises.
abbrev faulty_db : Db
faulty_db = db_with (tables_with (orders ∷ []) []) (false ∷ true ∷ false ∷ [])

enforce_policy-no_audit_example :
    let enforced = enforce_policy env req owner "asset.curate" "asset" "a-1" none faulty_db in
    let decided =
      decide_access env req owner owner.tenant_id "asset.curate"
        (asset_resource "a-1")
        none
        faulty_db in
    let event = decision_event env req owner "asset.curate" (asset_resource "a-1") none decided in
    ((◌≡◌ {A = Bool} false true)
      × (enforced.0 ≡ raised (http 503 "policy_unavailable"))
      × (enforced.1.work ≡ faulty_db.saved)
      × (enforced.1.saved ≡ faulty_db.saved))
    ⊎ (((◌≡◌ {A = Bool} false false)
          × (◌≡◌ {A = Bool} true true)
          × (enforced.0 ≡ raised Error.other)
          × (enforced.1.saved ≡ faulty_db.saved))
        ⊎ ((◌≡◌ {A = Bool} false false)
            × (◌≡◌ {A = Bool} true false)
            × (enforced.0 ≡ raised (http 503 "policy_unavailable"))
            × (enforced.1.work ≡ enforced.1.saved)
            × (enforced.1.saved.audit_events ≡ faulty_db.work.audit_events ++ event ∷ [])))
enforce_policy-no_audit_example =
    enforce_policy-no_audit env req owner "asset.curate" "asset" "a-1" none faulty_db false true
      false refl refl

sanitize_value-IsRedacted_example :
    let v = object (field "Api_Token" (text "abc") (field "rows" (int 3) end)) in
    IsRedacted (sanitize_value v) × (sanitize_value (sanitize_value v) ≡ sanitize_value v)
sanitize_value-IsRedacted_example =
    sanitize_value-IsRedacted (object (field "Api_Token" (text "abc") (field "rows" (int 3) end)))

access-can_curate_asset_example :
    ((decide_access env req owner owner.tenant_id "asset.curate"
        (asset_resource "a-1")
        none
        db).outcome
      ≢ deny)
    ↔ (can_curate_asset owner orders.owner ≡ true)
unfolding get_asset find_row
access-can_curate_asset_example =
    access-can_curate_asset env req owner "a-1" none db orders refl refl
