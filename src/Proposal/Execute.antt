-- ===== src/Proposal/Execute.antt =====
-- `execute_proposal`.
-- `_block_execution`
use datagenie.Prelude.{
  String, Bool, all, if◌then◌else◌, ◌+◌, some, ltb, ℕ, none, not, find_row, true, ◌&&◌, false, leb,
  is_text, eqb, ◌==◌,
}
use datagenie.Catalog.Session.{
  write_proposal, Env, Request, Action, commit, Db, http, Error, policy_evaluation, raise_if,
}
use datagenie.Catalog.Models.{Instant, GovernanceProposal, ProposalStatus, Asset}
use datagenie.Proposal.Review.{note_snapshot}
use datagenie.Proposal.Defs.{
  record_transition, is_due, workflow_error, expire, require_steward, asset_or_error,
  policy_snapshot, is_approved, proposal_or_404,
}
use datagenie.Catalog.Principals.{Principal}
use datagenie.Policy.Decision.{PolicyDecision}
use datagenie.Prelude.Json.{Value, field, text, end}
use datagenie.Prelude.Exec.{ok, ◌>>◌, raised, ◌>>=◌, pure}
use datagenie.Prelude.Text.{codes}
use datagenie.Policy.Access.{evaluate_rest_policy, is_allow}
use datagenie.Proposal.Diff.{expected_version}
use datagenie.Proposal.Change.{apply_typed_change}

unfoldable pub blocked : String → GovernanceProposal → GovernanceProposal
blocked reason p = record p {
  status = ProposalStatus.blocked;
  execution_outcome = some "blocked";
  blocked_reason = some reason;
  confirmation_nonce_digest = none;
  confirmation_expires_at = none;
}

unfoldable pub block_execution :
    Request → Principal → GovernanceProposal → String → Action (Unit {0})
unfolding write_proposal record_transition commit
block_execution req principal p reason = do
  write_proposal (blocked reason p)
  record_transition req principal (blocked reason p) "governance_proposal.execute" "blocked"
      (field "blocked_reason" (text reason) end)
  commit

-- `str.isascii`
abbrev pub is_ascii : String → Bool
is_ascii s = all (λ c. ltb c 128) (codes s)

-- `hmac.compare_digest` of two texts raises a TypeError unless both are ASCII.
unfoldable pub compare_digest : String → String → Action Bool
compare_digest a b = raise_if (not (is_ascii a && is_ascii b)) Error.other >> pure (a == b)

-- The nonce that is held against the stored digest, if there is one.
unfoldable pub nonce_matches : Env → GovernanceProposal → String → Action Bool
unfolding compare_digest
nonce_matches env p nonce = elim (p.confirmation_nonce_digest) [
  | none ↦ pure false
  | some digest ↦ compare_digest digest (env.sha256 nonce)
]

abbrev pub confirmation_expired : Instant → GovernanceProposal → Bool
confirmation_expired now p = elim (p.confirmation_expires_at) [ none ↦ true | some at ↦ leb at now ]

-- `_assert_execution_preconditions`
unfoldable pub assert_execution_preconditions : GovernanceProposal → Action Asset
assert_execution_preconditions p = do
  asset ← asset_or_error p.resource_id
  raise_if
      (elim (expected_version p.version_preconditions) [
        | none ↦ true
        | some expected ↦ not (eqb asset.technical_version expected)
      ])
      (http 409 "proposal_precondition_failed")
  pure asset

-- `if test: _block_execution(…); raise …`
unfoldable pub block_if :
    Bool → Request → Principal → GovernanceProposal → String → ℕ → Action (Unit {0})
block_if b req principal p reason status =
    if b then block_execution req principal p reason >> workflow_error status reason else pure tt

-- The state that `_expire_if_due` leaves the proposal in.
abbrev pub after_expiry : Instant → GovernanceProposal → GovernanceProposal
after_expiry now p = if is_due now p then expire p else p

unfoldable pub executed_by_steward :
    Env → Request → Principal → PolicyDecision → GovernanceProposal → GovernanceProposal
unfolding note_snapshot
executed_by_steward env req principal d p = record p {
  status = ProposalStatus.executed;
  execution_outcome = some "executed";
  executed_by = some principal.subject;
  executed_at = some req.now;
  confirmation_nonce_digest = none;
  confirmation_expires_at = none;
  policy_snapshot = note_snapshot env "execution_recheck" (policy_snapshot env d) p.policy_snapshot;
}

-- The tests of the `try`, up to the policy's answer.
unfoldable pub confirm_checks :
    Env → Request → Principal → GovernanceProposal → String → String → Action (Unit {0})
confirm_checks env req principal p hash nonce = do
  block_if (is_due req.now p) req principal (after_expiry req.now p) "proposal_expired" 409
  raise_if (not (is_approved p.status)) (http 409 "proposal_not_approved")
  raise_if (not (is_text p.approved_by principal.subject)) (http 403 "proposal_approver_mismatch")
  same_hash ← compare_digest p.proposal_hash hash
  raise_if (not same_hash) (http 409 "proposal_hash_mismatch")
  same_nonce ← nonce_matches env p nonce
  raise_if (not same_nonce) (http 409 "confirmation_nonce_invalid")
  block_if (confirmation_expired req.now p) req principal p "confirmation_nonce_expired" 409

-- The end of the `try`: the proposal is marked as executed, and the transition recorded.
unfoldable pub finish_execution :
    Env
    → Request
    → Principal
    → GovernanceProposal
    → PolicyDecision
    → Value
    → Action (GovernanceProposal × Value)
finish_execution env req principal p d result = do
  write_proposal (executed_by_steward env req principal d p)
  p' ←
      record_transition req principal (executed_by_steward env req principal d p)
        "governance_proposal.execute" "success" (field "execution_result" result end)
  commit
  pure (p', result)

-- The rest of the `try`.
unfoldable pub execute_confirmed :
    Env → Request → Principal → GovernanceProposal → Action (GovernanceProposal × Value)
execute_confirmed env req principal p = do
  asset ← assert_execution_preconditions p
  d ←
      evaluate_rest_policy env req principal "governance.proposal.execute" "asset" asset.id
        (some "governance proposal confirmation execution")
  block_if (not (is_allow d.outcome)) req principal p "proposal_reauthorization_denied" 403
  result ← apply_typed_change env req principal p asset
  finish_execution env req principal p d result

-- `except ProposalWorkflowError`: a proposal that is still approved is blocked by the code of the
-- error, at best effort; else what is not committed is given up. The error goes on.
unfoldable pub block_after_error : Request → Principal → String → String → Db → Db
block_after_error req principal id code db = elim (find_row (λ q. q.id) id db.work.proposals) [
  | none ↦ record db { work = db.saved }
  | some p ↦
      if is_approved p.status
      then (let (r, db') = block_execution req principal p code db in
          elim r [ ok _ ↦ db' | raised _ ↦ record db' { work = db'.saved } ])
      else record db { work = db.saved }
]

-- The two handlers.
unfoldable pub handle_errors : {A : Type 0} → Request → Principal → String → Action A → Action A
handle_errors req principal id m db =
    let (r, db') = m db in
    elim r [
      | ok a ↦ (ok a, db')
      | raised (http status code) ↦
          (raised (http status code), block_after_error req principal id code db')
      | raised policy_evaluation ↦
          (raised (http 503 "proposal_execution_blocked"), record db' { work = db'.saved })
      | raised Error.other ↦
          (raised (http 503 "proposal_execution_blocked"), record db' { work = db'.saved })
    ]

abbrev pub attempted : GovernanceProposal → GovernanceProposal
attempted p = record p { execution_attempts = p.execution_attempts + 1 }

unfoldable pub execute_proposal :
    Env → Request → Principal → String → String → String → Action (GovernanceProposal × Value)
execute_proposal env req principal proposal_id hash nonce = do
  require_steward principal
  p ← proposal_or_404 principal proposal_id
  write_proposal (attempted p)
  handle_errors req principal proposal_id (
      confirm_checks env req principal (attempted p) hash nonce
      >> execute_confirmed env req principal (attempted p))
