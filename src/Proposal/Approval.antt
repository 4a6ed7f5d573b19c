-- ===== src/Proposal/Approval.antt =====
-- What an approval has been through when it succeeds, and what it leaves behind.
use datagenie.Catalog.Session.{Env, Request, Db, Error, get_proposal}
use datagenie.Catalog.Principals.{Principal, has_any_role, role_data_steward, role_platform_admin}
use datagenie.Prelude.{
  String, some, ◌≡◌, ◌∷◌, [], true, false, ◌≢◌, Option-cases, inl, arith, inr, eq_iff, ◌+◌, ◌*◌,
  find_row, ap,
}
use datagenie.Prelude.Exec.{Result, ok, Result-cases}
use datagenie.Catalog.Models.{GovernanceProposal, ProposalStatus, seconds}
use datagenie.Proposal.Review.{approve_proposal, refuse_expired, approved_by_steward}
use datagenie.Policy.Decision.{PolicyDecision, deny}
use datagenie.Proposal.Defs.{require_steward, commit_transition, proposal_or_404, is_due}
use datagenie.Policy.Access.{evaluate_rest_policy, decide_access}
use datagenie.Policy.Boundary.{asset_resource}
use datagenie.Proposal.Steps.{
  evaluate_rest_policy-ok, commit_transition-ok, get_proposal-find, Audited-rows,
}

module _ (env : Env) (req : Request) (principal : Principal) (id note : String) (db : Db) where
  abbrev call : Result Error (GovernanceProposal × String) × Db
  call = approve_proposal env req principal id note db

  abbrev policy : GovernanceProposal → Result Error PolicyDecision × Db
  policy p =
      evaluate_rest_policy env req principal "governance.proposal.approve" "asset" p.resource_id
        (some "governance proposal approval") db

  abbrev written : GovernanceProposal → PolicyDecision → Result Error GovernanceProposal × Db
  written p d =
      commit_transition req principal (approved_by_steward env req principal note d p)
        "governance_proposal.approve" (policy p).1

  -- The guards, and the two calls that follow them.
  approve_proposal-guards :
      {p' : GovernanceProposal} {nonce : String}
      → call.0 ≡ ok (p', nonce)
      → (p : GovernanceProposal) × (d : PolicyDecision) × (get_proposal id db ≡ some p)
        × ((policy p).0 ≡ ok d)
        × ((written p d).0 ≡ ok p')
        × (call.1 ≡ (written p d).1)
        × (nonce ≡ req.nonce)
        × (has_any_role principal (role_data_steward ∷ role_platform_admin ∷ []) ≡ true)
        × (p.tenant_id ≡ principal.tenant_id)
        × (p.status ≡ ProposalStatus.pending_review)
        × (is_due req.now p ≡ false)
        × (d.outcome ≢ deny)
  unfolding approve_proposal require_steward refuse_expired proposal_or_404
  approve_proposal-guards h = elim (Option-cases (get_proposal id db)) [
    | inl e ↦ absurd (ground arith)
    | inr (p, e) ↦ elim (Result-cases (policy p).0) [
      | inr (x, f) ↦ absurd (ground arith)
      | inl (d, f) ↦ (
        p,
        d,
        e,
        f,
        ground arith,
        ground arith,
        ground arith,
        ground arith,
        ground (arith, eq_iff p.tenant_id principal.tenant_id),
        ground arith,
        ground arith,
        ground arith,
      )
    ]
  ]

-- The proposal, the answer and the tables after an approval.
pub record Approved (env : Env) (req : Request) (principal : Principal) (id : String) (db db' : Db)
    (p p' : GovernanceProposal) (nonce : String) : Type 0 where
  pub found : get_proposal id db ≡ some p
  pub steward : has_any_role principal (role_data_steward ∷ role_platform_admin ∷ []) ≡ true
  pub own_tenant : p.tenant_id ≡ principal.tenant_id
  pub was_pending : p.status ≡ ProposalStatus.pending_review
  pub not_due : is_due req.now p ≡ false
  pub not_denied :
      (decide_access env req principal principal.tenant_id "governance.proposal.approve"
        (asset_resource p.resource_id)
        (some "governance proposal approval")
        db).outcome
      ≢ deny
  pub now_approved : p'.status ≡ ProposalStatus.approved
  pub by_caller : p'.approved_by ≡ some principal.subject
  pub digest : p'.confirmation_nonce_digest ≡ some (env.sha256 nonce)
  pub window : p'.confirmation_expires_at ≡ some (req.now + seconds (15 * 60))
  pub same_hash : p'.proposal_hash ≡ p.proposal_hash
  pub same_diff : p'.change_diff ≡ p.change_diff
  pub same_expiry : p'.expires_at ≡ p.expires_at
  pub committed : db'.saved ≡ db'.work
  pub stored : find_row (λ q. q.id) id db'.saved.proposals ≡ some p'
  pub others_kept :
      (j : String)
      → j ≢ id
      → find_row (λ q. q.id) j db'.saved.proposals ≡ find_row (λ q. q.id) j db.work.proposals

-- An approval that succeeds was made by a steward of the proposal's tenant, on a pending proposal
-- that was not due to expire, under a policy that does not deny it. It leaves the proposal, and no
-- other row, approved by the caller, with the digest of the nonce that is returned and a
-- confirmation window of 15 minutes; the hash, the diff and the expiry are kept, and all of it is
-- committed.
pub approve_proposal-Approved :
    (env : Env) (req : Request) (principal : Principal) (id note : String) (db : Db)
    {p' : GovernanceProposal} {nonce : String}
    → (approve_proposal env req principal id note db).0 ≡ ok (p', nonce)
    → (p : GovernanceProposal) × Approved env req principal id db
        (approve_proposal env req principal id note db).1
        p
        p'
        nonce
unfolding approved_by_steward
approve_proposal-Approved env req principal id note db {p' = p'} {nonce = nonce} h =
    let (p, d, found, decided, wrote, last, drawn, steward, own, was_pending, not_due, allowed) =
      approve_proposal-guards env req principal id note db h in
    let t : Db = (policy env req principal id note db p).1 in
    let q : GovernanceProposal = approved_by_steward env req principal note d p in
    let (same_decision, audited) =
      evaluate_rest_policy-ok req principal db env "governance.proposal.approve" "asset"
        p.resource_id (some "governance proposal approval") d decided in
    let (written_as, saved, _, _) =
      commit_transition-ok req principal t q "governance_proposal.approve" p' wrote in
    let (row, same_id) = get_proposal-find id db found in
    let (stored, others) =
      Audited-rows id req principal t q "governance_proposal.approve" p' p same_id
        (ap (λ w. w.proposals) audited.work_grown) row wrote in
    (
      p,
      record {
        found = found;
        steward = steward;
        own_tenant = own;
        was_pending = was_pending;
        not_due = not_due;
        not_denied = rw (← same_decision) allowed;
        now_approved = ap (λ x. x.status) written_as;
        by_caller = ap (λ x. x.approved_by) written_as;
        digest = rw drawn (ap (λ x. x.confirmation_nonce_digest) written_as);
        window = ap (λ x. x.confirmation_expires_at) written_as;
        same_hash = ap (λ x. x.proposal_hash) written_as;
        same_diff = ap (λ x. x.change_diff) written_as;
        same_expiry = ap (λ x. x.expires_at) written_as;
        committed = rw last saved;
        stored = rw last stored;
        others_kept = λ j ne. rw last (others j ne);
      },
    )
