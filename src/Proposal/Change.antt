-- ===== src/Proposal/Change.antt =====
-- `_apply_typed_change`: what the execution of a proposal does to the catalog.
-- A curated attribute as a value, as `getattr` reads it for the history.
use mathlib.Core.Option
use datagenie.Prelude.{String, Option, some, if◌then◌else◌, ◌==◌, none, none, ◌++◌, ◌∷◌, []}
use datagenie.Catalog.Session.{Env, write_asset, flush, Error, Request, Action, update_tables}
use datagenie.Prelude.Json.{
  Fields, Value, field, text_or_null, get_field, end, object, text, null, array, texts, keys,
}
use datagenie.Catalog.Models.{
  ProposalType, Asset, GovernanceProposal, curation, UsageDecisionStatus, ScheduleStatus,
}
use datagenie.Catalog.Principals.{Principal}
use datagenie.Prelude.Exec.{raised, ◌>>=◌, ok, gets, ◌>>◌, pure}
use datagenie.Proposal.Defs.{value_or}
use datagenie.Policy.Decision.{sorted_set}

abbrev pub curated_value : String → Asset → Option Value
curated_value key asset =
    if key == "description"
    then some (text_or_null asset.description)
    else if key == "tags"
    then some asset.tags
    else if key == "owner"
    then some (text_or_null asset.owner)
    else if key == "domain_id"
    then some (text_or_null asset.domain_id)
    else none

-- `setattr`, with what the driver makes of the value at the flush. Only the four fields that
-- `_check_type_and_diff` admits can stand in a stored proposal.
abbrev pub set_curated : Env → String → Value → Asset → Option Asset
set_curated env key v asset =
    if key == "description"
    then Option.map (λ t. record asset { description = t }) (env.store_text v)
    else if key == "tags"
    then some (record asset { tags = v })
    else if key == "owner"
    then Option.map (λ t. record asset { owner = t }) (env.store_text v)
    else if key == "domain_id"
    then Option.map (λ t. record asset { domain_id = t }) (env.store_text v)
    else none

-- `{key: getattr(asset, key) for key in change_diff}`
unfoldable pub previous_values : Fields → Asset → Option Fields
previous_values end asset = some end
previous_values (field k v fs) asset = elim (curated_value k asset) [
  | none ↦ none
  | some old ↦ Option.map (field k old) (previous_values fs asset)
]

-- The loop over `change_diff.items()`.
unfoldable pub set_fields : Env → Fields → Asset → Option Asset
set_fields env end asset = some asset
set_fields env (field k v fs) asset = elim (set_curated env k v asset) [
  | none ↦ none
  | some asset' ↦ set_fields env fs asset'
]

abbrev pub or_raise : {A : Type 0} → Option A → Error → Action A
or_raise none e db = (raised e, db)
or_raise (some a) e db = (ok a, db)

unfoldable pub apply_curation :
    Env → Request → Principal → GovernanceProposal → Asset → Action Value
unfolding previous_values set_fields write_asset
apply_curation env req principal p asset = do
  previous ← or_raise (previous_values p.change_diff asset) Error.other
  changed ← or_raise (set_fields env p.change_diff asset) Error.other
  write_asset (record changed { curated_at = some req.now })
  update_tables λ t. record t {
    versions =
        t.versions
        ++ record {
          asset_id = asset.id;
          change_source = curation;
          actor = principal.subject;
          changed_fields = object (
              field "before" (object previous)
                (field "after" (object p.change_diff) (field "proposal_id" (text p.id) end)));
        }
          ∷ [];
  }
  pure (
      object (
        field "resource_type" (text "asset") (
          field "resource_id" (text asset.id)
            (field "changed_fields" (array (texts (sorted_set (keys p.change_diff)))) end))))

unfoldable pub request_certification : Request → GovernanceProposal → Asset → Action Value
unfolding flush
request_certification req p asset = do
  tenant ← gets (λ db. db.tenant)
  update_tables λ t. record t {
    certifications =
        t.certifications
        ++ record {
          id = req.new_id;
          tenant_id = tenant;
          asset_id = asset.id;
          requested_by = p.initiating_subject;
          status = UsageDecisionStatus.pending;
          decision_by = none;
          decision_note = value_or (get_field "note" p.change_diff) null;
          decided_at = none;
        }
          ∷ [];
  }
  flush
  pure (
      object (
        field "resource_type" (text "certification_request")
          (field "resource_id" (text req.new_id) (field "status" (text "pending") end))))

unfoldable pub request_schedule : Request → GovernanceProposal → Asset → Action Value
unfolding flush
request_schedule req p asset = do
  schedule ← or_raise (get_field "schedule" p.change_diff) Error.other
  tenant ← gets (λ db. db.tenant)
  update_tables λ t. record t {
    schedules =
        t.schedules
        ++ record {
          id = req.new_id;
          tenant_id = tenant;
          proposal_id = p.id;
          asset_id = asset.id;
          requested_by = p.initiating_subject;
          schedule = schedule;
          status = ScheduleStatus.pending;
        }
          ∷ [];
  }
  flush
  pure (
      object (
        field "resource_type" (text "quality_check_schedule_request")
          (field "resource_id" (text req.new_id) (field "status" (text "pending") end))))

unfoldable pub apply_typed_change :
    Env → Request → Principal → GovernanceProposal → Asset → Action Value
unfolding apply_curation request_certification request_schedule
apply_typed_change env req principal p asset = elim (p.proposal_type) [
  | ProposalType.asset_curation ↦ apply_curation env req principal p asset
  | ProposalType.certification_review_request ↦ request_certification req p asset
  | ProposalType.quality_check_schedule ↦ request_schedule req p asset
]
