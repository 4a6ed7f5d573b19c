-- ===== src/Proposal/Steps.antt =====
-- What each step of an operation has seen, and done to the session, when it succeeds.
-- Only the audit table of the working copy has grown.
use datagenie.Catalog.Session.{Db, Request, get_proposal, Error, Env, http}
use datagenie.Catalog.Models.{AuditEvent, GovernanceProposal}
use datagenie.Catalog.Principals.{Principal}
use datagenie.Prelude.{
  String, ◌≡◌, some, ◌++◌, arith, Option, put_row, find_row, ◌∷◌, [], Option-cases, inl, inr,
  find_row-key, ◌≢◌, ap, find_row-put_self, subst, List, find_row-put_ne, ◌∙◌,
}
use datagenie.Proposal.Defs.{commit_transition}
use datagenie.Policy.Access.{evaluate_rest_policy, decide_access}
use datagenie.Prelude.Exec.{ok, raised}
use datagenie.Policy.Decision.{PolicyDecision, PolicyResource}
use datagenie.Policy.Enforcement.{decision_event}

pub record Audited (db db' : Db) (event : AuditEvent) : Type 0 where
  pub tenant_kept : db'.tenant ≡ db.tenant
  pub isolation_kept : db'.isolation ≡ db.isolation
  pub saved_kept : db'.saved ≡ db.saved
  pub work_grown : db'.work ≡ record (db.work) { audit_events = db.work.audit_events ++ event ∷ [] }

module _ (req : Request) (principal : Principal) (db : Db) where
  pub evaluate_rest_policy-ok :
      (env : Env) (action resource_type id : String) (purpose : Option String) (d : PolicyDecision)
      → let call = evaluate_rest_policy env req principal action resource_type id purpose db in
        let resource : PolicyResource = record {
          resource_type = resource_type;
          resource_id = id;
        } in
        call.0 ≡ ok d
        → (d ≡ decide_access env req principal principal.tenant_id action resource purpose db)
          × Audited db call.1 (decision_event env req principal action resource purpose d)
  unfolding evaluate_rest_policy
  evaluate_rest_policy-ok env action resource_type id purpose d h = (ground arith, ground arith)

  pub commit_transition-ok :
      (p : GovernanceProposal) (action : String) (p' : GovernanceProposal)
      → let call = commit_transition req principal p action db in
        call.0 ≡ ok p'
        → (p' ≡ record p { audit_event_id = some req.event_id })
          × (call.1.saved ≡ call.1.work)
          × (call.1.work.proposals
              ≡ put_row (λ q. q.id) p' (put_row (λ q. q.id) p db.work.proposals))
          × (call.1.work.assets ≡ db.work.assets)
  unfolding commit_transition
  commit_transition-ok p action p' h = ground arith

  -- A transition that raises leaves the tables as they were committed, and answers with a 503.
  pub commit_transition-raised :
      (p : GovernanceProposal) (action : String) (e : Error)
      → let call = commit_transition req principal p action db in
        call.0 ≡ raised e
        → (e ≡ http 503 "proposal_audit_unavailable")
          × (call.1.saved ≡ db.saved)
          × (call.1.work ≡ db.saved)
  unfolding commit_transition
  commit_transition-raised p action e h = ground arith

-- A read of the proposals table of the session.
pub get_proposal-find :
    (id : String) (db : Db) {p : GovernanceProposal}
    → get_proposal id db ≡ some p
    → (find_row (λ q. q.id) id db.work.proposals ≡ some p) × (p.id ≡ id)
unfolding get_proposal
get_proposal-find id db {p = p} h =
    elim (Option-cases (find_row (λ q. q.id) id db.work.proposals)) [
      | inl e ↦ absurd (ground arith)
      | inr (q, e) ↦ (ground arith, ground (arith, find_row-key (λ r. r.id) id db.work.proposals p))
    ]

-- The table that a committed transition leaves: the proposal's row is the one returned, and every
-- other row is as it was.
pub commit_transition-rows :
    (req : Request) (principal : Principal) (db : Db) (p : GovernanceProposal) (action : String)
    (p' old : GovernanceProposal)
    → let call = commit_transition req principal p action db in
      find_row (λ q. q.id) p.id db.work.proposals ≡ some old
      → call.0 ≡ ok p'
      → (find_row (λ q. q.id) p.id call.1.saved.proposals ≡ some p')
        × ((j : String)
            → j ≢ p.id
            → find_row (λ q. q.id) j call.1.saved.proposals
              ≡ find_row (λ q. q.id) j db.work.proposals)
commit_transition-rows req principal db p action p' old found h =
    let (written, saved, rows, _) = commit_transition-ok req principal db p action p' h in
    let same_id : p'.id ≡ p.id = ap (λ q. q.id) written in
    let table = put_row (λ q. q.id) p db.work.proposals in
    let first = find_row-put_self (λ q. q.id) p db.work.proposals old found in
    (
      rw (saved, rows)
          (subst (λ k. find_row (λ q. q.id) k (put_row (λ q. q.id) p' table) ≡ some p') same_id
            (find_row-put_self (λ q. q.id) p' table p (rw same_id first))),
      λ j ne.
          rw (saved, rows)
            (find_row-put_ne (λ q. q.id) j p' table (λ e. ne (e ∙ same_id))
              ∙ find_row-put_ne (λ q. q.id) j p db.work.proposals ne),
    )

-- The same for a proposal that was read before the policy's event was recorded.
pub Audited-rows :
    (id : String) (req : Request) (principal : Principal) (t : Db) (q : GovernanceProposal)
    (action : String) (p' p : GovernanceProposal) {rows : List GovernanceProposal}
    → q.id ≡ id
    → t.work.proposals ≡ rows
    → find_row (λ x. x.id) id rows ≡ some p
    → (commit_transition req principal q action t).0 ≡ ok p'
    → (find_row (λ x. x.id) id (commit_transition req principal q action t).1.saved.proposals
        ≡ some p')
      × ((j : String)
          → j ≢ id
          → find_row (λ x. x.id) j (commit_transition req principal q action t).1.saved.proposals
            ≡ find_row (λ x. x.id) j rows)
Audited-rows id req principal t q action p' p same_id same_rows found h =
    let (stored, others) =
      commit_transition-rows req principal t q action p' p (rw (same_id, same_rows) found) h in
    (rw (← same_id) stored, λ j ne. rw (← same_rows) (others j (rw same_id ne)))
