-- ===== src/Proposal/Create.antt =====
-- `create_proposal`, `proposal_or_404` for a reader, and `list_proposals`.
-- The part of a proposal that its hash covers.
use datagenie.Catalog.Principals.{Principal}
use datagenie.Catalog.Session.{Env, Request, Action, Error, update_tables, Db, in_scope}
use datagenie.Catalog.Models.{GovernanceProposal, ProposalStatus, seconds}
use datagenie.Prelude.{
  Option, String, Bool, true, List, ◌++◌, some, keep, ◌∷◌, [], ◌+◌, ◌==◌, none, ◌&&◌,
}
use datagenie.Proposal.Diff.{ProposalCreate, check_type_and_diff}
use datagenie.Prelude.Exec.{ok, raised, ◌>>=◌, ◌>>◌, gets}
use datagenie.Prelude.Json.{Value, object, field, text, end, text_or_null}
use datagenie.Policy.Decision.{PolicyDecision}
use datagenie.Proposal.Defs.{
  policy_snapshot, status_value, type_value, asset_or_error, allow_proposal_decision,
  commit_transition,
}
use datagenie.Policy.Access.{evaluate_rest_policy}

unfoldable pub immutable_part : Principal → ProposalCreate → Option String → Value
immutable_part principal payload host_id = object (
    field "proposal_type" (text (type_value payload.proposal_type)) (
      field "resource"
        (object (
          field "resource_type" (text payload.resource_type)
            (field "resource_id" (text payload.resource_id) end)))
        (field "title" (text payload.title) (
          field "proposal_text" (text payload.proposal_text) (
            field "diff" (object payload.diff) (
              field "evidence" payload.evidence (
                field "impact" payload.impact (
                  field "version_preconditions" (object payload.version_preconditions) (
                    field "initiating_subject" (text principal.subject) (
                      field "source_channel" (text payload.source_channel) (
                        field "initiating_agent_id" (text_or_null payload.source_agent_id) (
                          field "initiating_model_id" (text_or_null payload.source_model_id)
                            (field "initiating_host_id" (text_or_null host_id) end)))))))))))))

-- The row that `create_proposal` adds; the session assigns the tenant.
unfoldable pub new_proposal :
    Env
    → Request
    → String
    → Principal
    → ProposalCreate
    → Option String
    → PolicyDecision
    → String
    → GovernanceProposal
unfolding immutable_part
new_proposal env req tenant principal payload host_id d asset_id = record {
  id = req.new_id;
  tenant_id = tenant;
  proposal_type = payload.proposal_type;
  resource_type = payload.resource_type;
  resource_id = asset_id;
  title = payload.title;
  proposal_text = payload.proposal_text;
  change_diff = payload.diff;
  source_evidence = payload.evidence;
  impact = payload.impact;
  source_channel = payload.source_channel;
  initiating_subject = principal.subject;
  initiating_agent_id = payload.source_agent_id;
  initiating_model_id = payload.source_model_id;
  initiating_host_id = host_id;
  source_request_id = req.request_id;
  policy_snapshot = policy_snapshot env d;
  version_preconditions = payload.version_preconditions;
  proposal_hash = env.sha256 (env.dumps (immutable_part principal payload host_id));
  status = ProposalStatus.pending_review;
  expires_at = req.now + seconds payload.expires_in_seconds;
  approved_by = none;
  approved_at = none;
  rejected_by = none;
  rejected_at = none;
  cancelled_by = none;
  cancelled_at = none;
  review_note = none;
  approval_version = 0;
  confirmation_nonce_digest = none;
  confirmation_expires_at = none;
  execution_attempts = 0;
  executed_by = none;
  executed_at = none;
  execution_outcome = none;
  blocked_reason = none;
  audit_event_id = none;
}

unfoldable pub add_proposal : GovernanceProposal → Action (Unit {0})
add_proposal p = update_tables λ t. record t { proposals = t.proposals ++ p ∷ [] }

abbrev pub raise_check : Option Error → Action (Unit {0})
raise_check none db = (ok tt, db)
raise_check (some e) db = (raised e, db)

unfoldable pub create_proposal :
    Env → Request → Principal → ProposalCreate → Option String → Action GovernanceProposal
unfolding add_proposal
create_proposal env req principal payload host_id = do
  asset ← asset_or_error payload.resource_id
  raise_check (check_type_and_diff payload asset)
  d ←
      evaluate_rest_policy env req principal "governance.proposal.create" "asset" asset.id
        (some payload.purpose)
  allow_proposal_decision d "proposal_creation_denied"
  tenant ← gets (λ db. db.tenant)
  add_proposal (new_proposal env req tenant principal payload host_id d asset.id)
  commit_transition req principal (new_proposal env req tenant principal payload host_id d asset.id)
      "governance_proposal.create"

abbrev pub has_status : Option ProposalStatus → GovernanceProposal → Bool
has_status none p = true
has_status (some s) p = status_value p.status == status_value s

-- `list_proposals`: the session's scope, the filter, and the tenant of the caller once more. The
-- rows come in the table's order; the source sorts them by their creation.
unfoldable pub list_proposals : Principal → Option ProposalStatus → Db → List GovernanceProposal
list_proposals principal status_filter db =
    keep (λ p. p.tenant_id == principal.tenant_id)
      (keep (λ p. in_scope db p.tenant_id && has_status status_filter p) db.work.proposals)
