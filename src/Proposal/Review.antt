-- ===== src/Proposal/Review.antt =====
-- `approve_proposal`, `reject_proposal` and `cancel_proposal`.
-- `_expire_if_due` in a review: the expiry is committed before the request is refused.
use datagenie.Catalog.Session.{write_proposal, Env, Request, commit, Action, http, raise_if}
use datagenie.Proposal.Defs.{
  require_steward, is_due, expire, policy_snapshot, workflow_error, proposal_or_404, is_pending,
  commit_transition, is_approved, allow_proposal_decision,
}
use datagenie.Prelude.{String, if◌then◌else◌, some, none, ◌+◌, ◌*◌, ◌==◌, not, ◌||◌}
use datagenie.Catalog.Principals.{Principal}
use datagenie.Catalog.Models.{GovernanceProposal, ProposalStatus, seconds}
use datagenie.Prelude.Json.{Fields, put_field, object}
use datagenie.Policy.Decision.{PolicyDecision}
use datagenie.Prelude.Exec.{◌>>◌, ◌>>=◌, pure}
use datagenie.Policy.Access.{evaluate_rest_policy}

unfoldable pub refuse_expired : Request → GovernanceProposal → Action (Unit {0})
unfolding write_proposal commit
refuse_expired req p =
    if is_due req.now p
    then (write_proposal (expire p) >> commit) >> workflow_error 409 "proposal_expired"
    else pure tt

-- A key set inside the loaded policy snapshot is stored only if the column tracks such changes.
unfoldable pub note_snapshot : Env → String → Fields → Fields → Fields
note_snapshot env key recheck snapshot =
    if env.json_tracked then put_field key (object recheck) snapshot else snapshot

unfoldable pub approved_by_steward :
    Env → Request → Principal → String → PolicyDecision → GovernanceProposal → GovernanceProposal
unfolding note_snapshot
approved_by_steward env req principal review_note d p = record p {
  status = ProposalStatus.approved;
  approved_by = some principal.subject;
  approved_at = some req.now;
  review_note = some review_note;
  approval_version = p.approval_version + 1;
  confirmation_nonce_digest = some (env.sha256 req.nonce);
  confirmation_expires_at = some (req.now + seconds (15 * 60));
  policy_snapshot = note_snapshot env "approval_recheck" (policy_snapshot env d) p.policy_snapshot;
}

unfoldable pub approve_proposal :
    Env → Request → Principal → String → String → Action (GovernanceProposal × String)
approve_proposal env req principal proposal_id review_note = do
  require_steward principal
  p ← proposal_or_404 principal proposal_id
  refuse_expired req p
  raise_if (not (is_pending p.status)) (http 409 "proposal_not_pending")
  d ←
      evaluate_rest_policy env req principal "governance.proposal.approve" "asset" p.resource_id
        (some "governance proposal approval")
  allow_proposal_decision d "proposal_approval_denied"
  p' ←
      commit_transition req principal (approved_by_steward env req principal review_note d p)
        "governance_proposal.approve"
  pure (p', req.nonce)

unfoldable pub rejected_by_steward :
    Request → Principal → String → GovernanceProposal → GovernanceProposal
rejected_by_steward req principal review_note p = record p {
  status = ProposalStatus.rejected;
  rejected_by = some principal.subject;
  rejected_at = some req.now;
  review_note = some review_note;
}

unfoldable pub reject_proposal : Request → Principal → String → String → Action GovernanceProposal
reject_proposal req principal proposal_id review_note = do
  require_steward principal
  p ← proposal_or_404 principal proposal_id
  refuse_expired req p
  raise_if (not (is_pending p.status)) (http 409 "proposal_not_pending")
  commit_transition req principal (rejected_by_steward req principal review_note p)
      "governance_proposal.reject"

unfoldable pub cancelled_by_caller : Request → Principal → GovernanceProposal → GovernanceProposal
cancelled_by_caller req principal p = record p {
  status = ProposalStatus.cancelled;
  cancelled_by = some principal.subject;
  cancelled_at = some req.now;
  confirmation_nonce_digest = none;
  confirmation_expires_at = none;
}

unfoldable pub cancel_proposal : Request → Principal → String → Action GovernanceProposal
cancel_proposal req principal proposal_id = do
  p ← proposal_or_404 principal proposal_id
  (if p.initiating_subject == principal.subject then pure tt else require_steward principal)
  raise_if (not (is_pending p.status || is_approved p.status)) (http 409 "proposal_not_cancellable")
  commit_transition req principal (cancelled_by_caller req principal p) "governance_proposal.cancel"
