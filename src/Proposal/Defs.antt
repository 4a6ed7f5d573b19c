-- ===== src/Proposal/Defs.antt =====
-- What the operations on a proposal share: errors, the audit of a transition, reading under the
-- tenant, expiry, and the guards on the caller and on the policy's answer.
-- `ProposalWorkflowError`
use datagenie.Prelude.{
  ℕ, Bool, Option, String, true, none, ◌||◌, false, not, if◌then◌else◌, ◌&&◌, some, leb, ◌==◌, ◌∷◌,
  [],
}
use datagenie.Catalog.Models.{
  ProposalType, ProposalStatus, GovernanceProposal, Instant, asset_curation, Asset,
  certification_review_request, quality_check_schedule,
}
use datagenie.Catalog.Session.{
  Env, write_proposal, Action, flush, commit, Request, get_proposal, http, get_asset, raise_if,
}
use datagenie.Catalog.Audit.{record_audit_event}
use datagenie.Catalog.Principals.{Principal, has_any_role, role_data_steward, role_platform_admin}
use datagenie.Policy.Decision.{PolicyOutcome, PolicyDecision, deny, outcome_value, sorted_set}
use datagenie.Prelude.Json.{
  Fields, Value, field, object, text, text_or_null, end, array, get_field, texts, null, nil, keys,
}
use datagenie.Prelude.Exec.{raise, ok, raised, ◌>>◌, ◌>>=◌, pure}
use datagenie.Policy.Access.{evidence_values}

abbrev pub workflow_error : {A : Type 0} → ℕ → String → Action A
workflow_error status code = raise (http status code)

abbrev pub type_value : ProposalType → String
type_value asset_curation = "asset_curation"
type_value certification_review_request = "certification_review_request"
type_value quality_check_schedule = "quality_check_schedule"

abbrev pub status_value : ProposalStatus → String
status_value ProposalStatus.pending_review = "pending_review"
status_value ProposalStatus.approved = "approved"
status_value ProposalStatus.rejected = "rejected"
status_value ProposalStatus.cancelled = "cancelled"
status_value ProposalStatus.expired = "expired"
status_value ProposalStatus.executed = "executed"
status_value ProposalStatus.blocked = "blocked"

abbrev pub is_pending : ProposalStatus → Bool
is_pending ProposalStatus.pending_review = true
is_pending _ = false

abbrev pub is_approved : ProposalStatus → Bool
is_approved ProposalStatus.approved = true
is_approved _ = false

-- `_policy_snapshot`
unfoldable pub policy_snapshot : Env → PolicyDecision → Fields
policy_snapshot env d = field "outcome" (text (outcome_value d.outcome)) (
    field "decision_version" (text "1.0.0") (
      field "rule_ids" (array (texts d.rule_ids)) (
        field "evidence" (array (evidence_values d.evidence)) (
          field "obligations" (array (texts d.obligations)) (
            field "evaluated_at" (text (env.isoformat d.evaluated_at)) (
              field "expires_at" (text (env.isoformat d.expires_at))
                (field "request_id" (text d.request_id) end)))))))

abbrev pub value_or : Option Value → Value → Value
value_or none v = v
value_or (some w) v = w

-- `_proposal_metadata`, followed by the transition's own fields.
unfoldable pub proposal_metadata : GovernanceProposal → Fields → Value
proposal_metadata p extra = object (
    field "proposal_type" (text (type_value p.proposal_type)) (
      field "proposal_hash" (text p.proposal_hash) (
        field "status" (text (status_value p.status)) (
          field "source_channel" (text p.source_channel) (
            field "initiating_host_id" (text_or_null p.initiating_host_id) (
              field "initiating_model_id" (text_or_null p.initiating_model_id) (
                field "policy_outcome" (value_or (get_field "outcome" p.policy_snapshot) null) (
                  field "policy_rule_ids"
                    (value_or (get_field "rule_ids" p.policy_snapshot) (array nil))
                    (field "precondition_keys"
                      (array (texts (sorted_set (keys p.version_preconditions)))) extra)))))))))

-- `_record_transition`: the event is flushed with the proposal as it is, and its identifier is set
-- on the proposal afterwards.
unfoldable pub record_transition :
    Request → Principal → GovernanceProposal → String → String → Fields → Action GovernanceProposal
unfolding record_audit_event flush write_proposal
record_transition req principal p action outcome extra = do
  event ←
      record_audit_event (some principal) req.event_id action "governance_proposal" (some p.id)
        outcome req.request_id (proposal_metadata p extra)
  flush
  write_proposal (record p { audit_event_id = some event.id })
  pure (record p { audit_event_id = some event.id })

-- `_asset_or_error`
unfoldable pub asset_or_error : String → Action Asset
asset_or_error id db = elim (get_asset id db) [
  | none ↦ (raised (http 404 "proposal_resource_not_found"), db)
  | some asset ↦ (ok asset, db)
]

-- `proposal_or_404` with `_assert_tenant`; the row lock of `lock=True` is the database's.
unfoldable pub proposal_or_404 : Principal → String → Action GovernanceProposal
proposal_or_404 principal id db = elim (get_proposal id db) [
  | none ↦ (raised (http 404 "proposal_not_found"), db)
  | some p ↦ (
    if p.tenant_id == principal.tenant_id then ok p else raised (http 404 "proposal_not_found"),
    db,
  )
]

-- The test and the new state of `_expire_if_due`.
unfoldable pub is_due : Instant → GovernanceProposal → Bool
is_due now p = (is_pending p.status || is_approved p.status) && leb p.expires_at now

unfoldable pub expire : GovernanceProposal → GovernanceProposal
expire p = record p {
  status = ProposalStatus.expired;
  confirmation_nonce_digest = none;
  confirmation_expires_at = none;
}

-- `_require_steward`
unfoldable pub require_steward : Principal → Action (Unit {0})
require_steward principal =
    raise_if (not (has_any_role principal (role_data_steward ∷ role_platform_admin ∷ [])))
      (http 403 "proposal_steward_required")

abbrev pub is_deny : PolicyOutcome → Bool
is_deny deny = true
is_deny _ = false

-- `_allow_proposal_decision`: every outcome but a denial goes on.
abbrev pub allow_proposal_decision : PolicyDecision → String → Action (Unit {0})
allow_proposal_decision d code = raise_if (is_deny d.outcome) (http 403 code)

-- The `except Exception` that ends a transition: a rollback, and a 503.
unfoldable pub or_unavailable : {A : Type 0} → String → Action A → Action A
or_unavailable code m db =
    let (r, db') = m db in
    elim r [
      | ok a ↦ (ok a, db')
      | raised e ↦ (raised (http 503 code), record db' { work = db'.saved })
    ]

-- The `try` of a transition: the proposal is written, the transition recorded and committed.
unfoldable pub commit_transition :
    Request → Principal → GovernanceProposal → String → Action GovernanceProposal
unfolding or_unavailable write_proposal record_transition commit
commit_transition req principal p action = or_unavailable "proposal_audit_unavailable" (
    write_proposal p >> record_transition req principal p action "success" end >>= λ p'.
    commit >> pure p')
