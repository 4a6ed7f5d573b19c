-- ===== src/Tests/ProposalRuns.antt =====
-- The proposal workflow on the small catalog.
use datagenie.Prelude.Text.{strip, split, lower, is_infix}
use datagenie.Catalog.Models.{GovernanceProposal, ProposalStatus, seconds, Asset}
use datagenie.Proposal.Review.{approve_proposal, refuse_expired, approved_by_steward, note_snapshot}
use datagenie.Prelude.Json.{Value, field, text, end, object, array, cons, nil}
use datagenie.Proposal.Execute.{
  execute_proposal, executed_by_steward, handle_errors, confirm_checks, block_if, compare_digest,
  nonce_matches, assert_execution_preconditions, execute_confirmed, finish_execution,
  block_execution,
}
use datagenie.Tests.Fixtures.{
  proposal, approved_proposal, req, env, steward, db, approved_db, db_with, tables_with, orders,
}
use datagenie.Proposal.Defs.{
  require_steward, proposal_or_404, is_due, commit_transition, expire, or_unavailable,
  policy_snapshot, proposal_metadata, record_transition, asset_or_error,
}
use datagenie.Catalog.Principals.{has_any_role}
use datagenie.Prelude.{some, ◌+◌, none, find_row, ◌*◌, put_row, ◌≡◌, refl, ◌∷◌, []}
use datagenie.Catalog.Session.{
  get_proposal, scoped, get_asset, commit, flush, get_domain, write_proposal, write_asset, Db,
  Error, http,
}
use datagenie.Policy.Access.{
  evaluate_rest_policy, decide_access, is_supported, decision_metadata, evaluate_access,
  or_policy_error, record_policy_decision,
}
use datagenie.Policy.Rules.{
  evaluate_rules, evaluate_asset_rules, role_allows, evaluate_state_rules, quality_is_fresh,
  resource_evidence,
}
use datagenie.Policy.Decision.{resolve_resource, decision, insert_sorted, outcome_value, sorted_set}
use datagenie.Catalog.Audit.{is_sensitive_key, record_audit_event, sanitize_value}
use datagenie.Policy.Text.{
  has_sensitive_classification, classification_values, purpose_is_permitted,
}
use datagenie.Prelude.Text.{split, strip}
use datagenie.Prelude.Exec.{ok, raised}
use datagenie.Proposal.Change.{apply_typed_change, apply_curation, set_fields, previous_values}
use datagenie.Proposal.Approval.{Approved, approve_proposal-Approved}
use datagenie.Proposal.Executed.{Executed, execute_proposal-Executed}
use datagenie.Proposal.Closed.{execute_proposal-closed}
use datagenie.Proposal.Refused.{execute_proposal-refused}

abbrev approved : GovernanceProposal
approved = record proposal {
  status = ProposalStatus.approved;
  approved_by = some "sue";
  approved_at = some req.now;
  review_note = some "fine";
  approval_version = 1;
  confirmation_nonce_digest = some "sha256:nonce";
  confirmation_expires_at = some (req.now + seconds (15 * 60));
  audit_event_id = some "e-2";
}

approve_run : (approve_proposal env req steward "p-1" "fine" db).0 ≡ ok (approved, "nonce")
unfolding approve_proposal require_steward has_any_role proposal_or_404 get_proposal scoped find_row
    refuse_expired is_due evaluate_rest_policy decide_access is_supported evaluate_rules
    resolve_resource get_asset evaluate_asset_rules role_allows evaluate_state_rules decision
    is_sensitive_key record_audit_event sanitize_value commit flush get_domain write_proposal
    decision_metadata evaluate_access or_policy_error record_policy_decision insert_sorted
    outcome_value sorted_set quality_is_fresh resource_evidence has_sensitive_classification
    classification_values purpose_is_permitted put_row split strip lower is_infix commit_transition
    expire or_unavailable policy_snapshot proposal_metadata record_transition approved_by_steward
    note_snapshot
approve_run = refl

approve_proposal-Approved_example :
    (p : GovernanceProposal) × Approved env req steward "p-1" db
      (approve_proposal env req steward "p-1" "fine" db).1
      p
      approved
      "nonce"
approve_proposal-Approved_example =
    approve_proposal-Approved env req steward "p-1" "fine" db approve_run

abbrev executed : GovernanceProposal
executed = record approved_proposal {
  status = ProposalStatus.executed;
  executed_by = some "sue";
  executed_at = some req.now;
  execution_outcome = some "executed";
  execution_attempts = 1;
  confirmation_nonce_digest = none;
  confirmation_expires_at = none;
  audit_event_id = some "e-2";
}

abbrev result : Value
result = object (
    field "resource_type" (text "asset") (
      field "resource_id" (text "a-1")
        (field "changed_fields" (array (cons (text "description") nil)) end)))

execute_run :
    (execute_proposal env req steward "p-1" "hash" "nonce" approved_db).0 ≡ ok (executed, result)
unfolding execute_proposal require_steward has_any_role proposal_or_404 get_proposal scoped find_row
    is_due evaluate_rest_policy decide_access is_supported evaluate_rules resolve_resource get_asset
    evaluate_asset_rules role_allows evaluate_state_rules decision is_sensitive_key
    record_audit_event sanitize_value commit flush get_domain write_proposal decision_metadata
    evaluate_access or_policy_error record_policy_decision insert_sorted outcome_value sorted_set
    quality_is_fresh resource_evidence has_sensitive_classification classification_values
    purpose_is_permitted put_row split strip lower is_infix commit_transition expire or_unavailable
    policy_snapshot proposal_metadata record_transition executed_by_steward note_snapshot
    handle_errors confirm_checks block_if compare_digest nonce_matches
    assert_execution_preconditions execute_confirmed finish_execution apply_typed_change
    apply_curation set_fields previous_values block_execution write_asset asset_or_error
execute_run = refl

execute_proposal-Executed_example :
    (p : GovernanceProposal) × (asset : Asset) × Executed env req steward "p-1" "hash" "nonce"
      approved_db
      (execute_proposal env req steward "p-1" "hash" "nonce" approved_db).1
      p
      executed
      asset
execute_proposal-Executed_example =
    execute_proposal-Executed env req steward "p-1" "hash" "nonce" approved_db execute_run

abbrev executed_db : Db
executed_db = db_with (tables_with (orders ∷ []) (executed ∷ [])) []

execute_proposal-closed_example :
    let again = execute_proposal env req steward "p-1" "hash" "nonce" executed_db in
    ((e : Error) × (again.0 ≡ raised e)) × (again.1.saved ≡ executed_db.saved)
unfolding get_proposal find_row
execute_proposal-closed_example =
    execute_proposal-closed env req steward "hash" "nonce" "p-1" executed_db executed refl refl refl

execute_proposal-refused_example :
    let call = execute_proposal env req steward "p-1" "other" "nonce" approved_db in
    (call.0 ≡ raised (http 409 "proposal_hash_mismatch"))
    × ((r : GovernanceProposal) × (find_row (λ x. x.id) "p-1" call.1.saved.proposals ≡ some r)
        × (r.status ≡ ProposalStatus.blocked)
        × (r.blocked_reason ≡ some "proposal_hash_mismatch")
        × (r.confirmation_nonce_digest ≡ none))
unfolding get_proposal find_row has_any_role confirm_checks block_if is_due compare_digest
    write_proposal
execute_proposal-refused_example =
    execute_proposal-refused env req steward "p-1" "other" "nonce" approved_db approved_proposal
      refl refl refl refl refl refl
