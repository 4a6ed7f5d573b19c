-- ===== src/Proposal/Executed.antt =====
-- An execution that succeeds: everything that was confirmed, and the tables it leaves.
use datagenie.Catalog.Session.{
  Env, Request, get_asset, Db, get_finding, write_proposal, get_certification, Error, get_domain,
  get_proposal,
}
use datagenie.Policy.Access.{decide_access}
use datagenie.Prelude.{
  find_row-put_at, String, List, ◌≡◌, find_row, some, put_row, Option, ◌≢◌, ◌∷◌, find_row-put_ne,
  [], ◌∙◌, true, Option-cases, inl, arith, false, inr, ◌<◌, eq_iff, none, ◌+◌, refl, subst, ap, sym,
}
use datagenie.Policy.Decision.{resolve_resource, PolicyResource, allow}
use datagenie.Catalog.Models.{GovernanceProposal, Asset, ProposalStatus, Instant}
use datagenie.Catalog.Principals.{Principal, has_any_role, role_data_steward, role_platform_admin}
use datagenie.Prelude.Exec.{Result, ok, Result-cases}
use datagenie.Proposal.Execute.{
  execute_proposal, attempted, confirm_checks, execute_confirmed, handle_errors,
  executed_by_steward,
}
use datagenie.Proposal.Defs.{require_steward, proposal_or_404, is_due}
use datagenie.Prelude.Json.{Value}
use datagenie.Proposal.Steps.{evaluate_rest_policy-ok, get_proposal-find}
use datagenie.Proposal.Diff.{expected_version}
use datagenie.Policy.Boundary.{asset_resource}
use datagenie.Proposal.Execution.{confirm_checks-ok, apply_typed_change-keeps}
use datagenie.Proposal.Confirmed.{execute_confirmed-guards, finish_execution-ok, changed, policy}

module _ (env : Env) (req : Request) (principal : Principal) (id hash nonce : String)
    (db : Db) where
  abbrev call : Result Error (GovernanceProposal × Value) × Db
  call = execute_proposal env req principal id hash nonce db

  abbrev marked : GovernanceProposal → Db
  marked p = (write_proposal (attempted p) db).1

  abbrev checked : GovernanceProposal → Result Error (Unit {0}) × Db
  checked p = confirm_checks env req principal (attempted p) hash nonce (marked p)

  abbrev confirmed : GovernanceProposal → Result Error (GovernanceProposal × Value) × Db
  confirmed p = execute_confirmed env req principal (attempted p) (checked p).1

  execute_proposal-guards :
      {answer : GovernanceProposal × Value}
      → call.0 ≡ ok answer
      → (p : GovernanceProposal) × (get_proposal id db ≡ some p)
        × (has_any_role principal (role_data_steward ∷ role_platform_admin ∷ []) ≡ true)
        × (p.tenant_id ≡ principal.tenant_id)
        × ((checked p).0 ≡ ok tt)
        × ((confirmed p).0 ≡ ok answer)
        × (call.1 ≡ (confirmed p).1)
  unfolding execute_proposal require_steward proposal_or_404 handle_errors write_proposal
  execute_proposal-guards h = elim (Option-cases (get_proposal id db)) [
    | inl e ↦ absurd (ground arith)
    | inr (p, e) ↦ elim (Result-cases (checked p).0) [
      | inr (x, f) ↦ absurd (ground arith)
      | inl (u, f) ↦ (
        p,
        e,
        ground arith,
        ground (arith, eq_iff p.tenant_id principal.tenant_id),
        f,
        ground arith,
        ground arith,
      )
    ]
  ]

-- Counting the attempt changes nothing that the policy reads.
decide_access-marked :
    (env : Env) (req : Request) (subject : Principal) (tenant action : String)
    (resource : PolicyResource) (purpose : Option String) (q : GovernanceProposal) (db : Db)
    → decide_access env req subject tenant action resource purpose (write_proposal q db).1
      ≡ decide_access env req subject tenant action resource purpose db
unfolding decide_access resolve_resource get_asset get_finding get_certification get_domain
    write_proposal
decide_access-marked env req subject tenant action resource purpose q db = refl

-- The proposal, the asset, the answer and the tables after an execution.
pub record Executed (env : Env) (req : Request) (principal : Principal) (id hash nonce : String)
    (db db' : Db) (p p' : GovernanceProposal) (asset : Asset) : Type 0 where
  pub found : get_proposal id db ≡ some p
  pub steward : has_any_role principal (role_data_steward ∷ role_platform_admin ∷ []) ≡ true
  pub own_tenant : p.tenant_id ≡ principal.tenant_id
  pub was_approved : p.status ≡ ProposalStatus.approved
  pub by_approver : p.approved_by ≡ some principal.subject
  pub not_due : is_due req.now p ≡ false
  pub same_hash : p.proposal_hash ≡ hash
  pub same_nonce : p.confirmation_nonce_digest ≡ some (env.sha256 nonce)
  pub in_window : (at : Instant) × (p.confirmation_expires_at ≡ some at) × (req.now < at)
  pub asset_found : get_asset p.resource_id db ≡ some asset
  pub same_version : expected_version p.version_preconditions ≡ some asset.technical_version
  pub allowed :
      (decide_access env req principal principal.tenant_id "governance.proposal.execute"
        (asset_resource asset.id)
        (some "governance proposal confirmation execution")
        db).outcome
      ≡ allow
  pub now_executed : p'.status ≡ ProposalStatus.executed
  pub nonce_spent : p'.confirmation_nonce_digest ≡ none
  pub by_caller : p'.executed_by ≡ some principal.subject
  pub counted : p'.execution_attempts ≡ p.execution_attempts + 1
  pub committed : db'.saved ≡ db'.work
  pub stored : find_row (λ q. q.id) id db'.saved.proposals ≡ some p'
  pub others_kept :
      (j : String)
      → j ≢ id
      → find_row (λ q. q.id) j db'.saved.proposals ≡ find_row (λ q. q.id) j db.work.proposals

-- Three writes to one row, read by any key.
pub find_row-put_thrice :
    (id : String) (a b c old : GovernanceProposal) (rows : List GovernanceProposal)
    → a.id ≡ id
    → b.id ≡ id
    → c.id ≡ id
    → find_row (λ q. q.id) id rows ≡ some old
    → let table = put_row (λ q. q.id) c (put_row (λ q. q.id) b (put_row (λ q. q.id) a rows)) in
      (find_row (λ q. q.id) id table ≡ some c)
      × ((j : String) → j ≢ id → find_row (λ q. q.id) j table ≡ find_row (λ q. q.id) j rows)
find_row-put_thrice id a b c old rows ea eb ec found =
    let first = find_row-put_at (λ x. x.id) id a old rows ea found in
    let second = find_row-put_at (λ x. x.id) id b a (put_row (λ q. q.id) a rows) eb first in
    (
      find_row-put_at (λ x. x.id) id c b (put_row (λ q. q.id) b (put_row (λ q. q.id) a rows)) ec
          second,
      λ j ne.
          find_row-put_ne (λ q. q.id) j c _ (λ e. ne (e ∙ ec))
          ∙ find_row-put_ne (λ q. q.id) j b _ (λ e. ne (e ∙ eb))
          ∙ find_row-put_ne (λ q. q.id) j a rows (λ e. ne (e ∙ ea)),
    )

-- An execution that succeeds was confirmed by the steward who approved the proposal, with the hash
-- and the nonce of the approval, before the proposal and the confirmation window ran out, on the
-- asset version that the proposal names, under a policy that allows it. It leaves the proposal, and
-- no other row, executed and without a nonce, and all of it is committed.
pub execute_proposal-Executed :
    (env : Env) (req : Request) (principal : Principal) (id hash nonce : String) (db : Db)
    {p' : GovernanceProposal} {result : Value}
    → (execute_proposal env req principal id hash nonce db).0 ≡ ok (p', result)
    → (p : GovernanceProposal) × (asset : Asset) × Executed env req principal id hash nonce db
        (execute_proposal env req principal id hash nonce db).1
        p
        p'
        asset
unfolding executed_by_steward get_asset write_proposal is_due
execute_proposal-Executed env req principal id hash nonce db {p' = p'} {result = result} h =
    let (p, found, steward, own, passed, confirmed_as, last) =
      execute_proposal-guards env req principal id hash nonce db h in
    let t : Db = marked env req principal id hash nonce db p in
    let (not_due, was_approved, approver, same_hash, same_nonce, window, kept) =
      confirm_checks-ok env req principal (attempted p) hash nonce t passed in
    let (asset, d, value, asset_found, version, decided, allowed, did, ended, last') =
      execute_confirmed-guards env req principal (attempted p) t (
        subst (λ s. (execute_confirmed env req principal (attempted p) s).0 ≡ ok (p', result)) kept
          confirmed_as) in
    let (same_decision, audited) =
      evaluate_rest_policy-ok req principal t env "governance.proposal.execute" "asset" asset.id
        (some "governance proposal confirmation execution") d decided in
    let q : GovernanceProposal = executed_by_steward env req principal d (attempted p) in
    let (written, _, saved, _, rows) =
      finish_execution-ok env req principal (attempted p) d value
        (changed env req principal (attempted p) t asset).1 (p', result) ended in
    let (kept_rows, _) =
      apply_typed_change-keeps env req principal (attempted p) asset
        (policy env req principal (attempted p) t asset).1 in
    let all_rows =
      rows
      ∙ ap (λ r. put_row (λ x. x.id) p' (put_row (λ x. x.id) q r))
          (kept_rows ∙ ap (λ w. w.proposals) audited.work_grown) in
    let (row, same_id) = get_proposal-find id db found in
    let (stored, others) =
      find_row-put_thrice id (attempted p) q p' p db.work.proposals same_id same_id
        (ap (λ x. x.id) written ∙ same_id) row in
    let final =
      last ∙ ap (λ s. (execute_confirmed env req principal (attempted p) s).1) kept ∙ last' in
    (
      p,
      asset,
      record {
        found = found;
        steward = steward;
        own_tenant = own;
        was_approved = was_approved;
        by_approver = approver;
        not_due = not_due;
        same_hash = same_hash;
        same_nonce = same_nonce;
        in_window = window;
        asset_found = asset_found;
        same_version = version;
        allowed =
            ap (λ x. x.outcome)
              (sym (
                decide_access-marked env req principal principal.tenant_id
                  "governance.proposal.execute" (asset_resource asset.id)
                  (some "governance proposal confirmation execution") (attempted p) db))
            ∙ ap (λ x. x.outcome) (sym same_decision)
            ∙ allowed;
        now_executed = ap (λ x. x.status) written;
        nonce_spent = ap (λ x. x.confirmation_nonce_digest) written;
        by_caller = ap (λ x. x.executed_by) written;
        counted = ap (λ x. x.execution_attempts) written;
        committed = rw final saved;
        stored = rw (final, saved, all_rows) stored;
        others_kept = λ j ne. rw (final, saved, all_rows) (others j ne);
      },
    )
