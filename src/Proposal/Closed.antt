-- ===== src/Proposal/Closed.antt =====
-- A proposal that is neither pending nor approved stays what it is.
use datagenie.Catalog.Session.{Env, Request, Db, Error, get_proposal, write_proposal, http}
use datagenie.Catalog.Principals.{Principal, has_any_role, role_data_steward, role_platform_admin}
use datagenie.Prelude.{
  String, find_row, ◌≡◌, false, some, arith, Bool-cases, ◌∷◌, [], true, inr, ◌==◌, inl,
  find_row-put_at,
}
use datagenie.Proposal.Execute.{
  confirm_checks, block_after_error, block_if, execute_proposal, handle_errors, attempted,
}
use datagenie.Catalog.Models.{GovernanceProposal}
use datagenie.Prelude.Exec.{Result, raised}
use datagenie.Proposal.Defs.{is_due, require_steward, is_pending, proposal_or_404, is_approved}
use datagenie.Prelude.Json.{Value}
use datagenie.Proposal.Steps.{get_proposal-find}

module _ (env : Env) (req : Request) (principal : Principal) (hash nonce : String) where
  confirm_checks-closed :
      (p : GovernanceProposal) (t : Db)
      → is_pending p.status ≡ false
      → is_approved p.status ≡ false
      → confirm_checks env req principal p hash nonce t
        ≡ (raised (http 409 "proposal_not_approved"), t)
  unfolding confirm_checks block_if is_due
  confirm_checks-closed p t a b = ground arith

  pub block_after_error-closed :
      (id code : String) (q : GovernanceProposal) (t : Db)
      → find_row (λ x. x.id) id t.work.proposals ≡ some q
      → is_approved q.status ≡ false
      → block_after_error req principal id code t ≡ record t { work = t.saved }
  unfolding block_after_error
  block_after_error-closed id code q t found b = ground arith

  module _ (id : String) (db : Db) where
    abbrev call : Result Error (GovernanceProposal × Value) × Db
    call = execute_proposal env req principal id hash nonce db

    checked-closed :
        (p : GovernanceProposal)
        → get_proposal id db ≡ some p
        → is_pending p.status ≡ false
        → is_approved p.status ≡ false
        → has_any_role principal (role_data_steward ∷ role_platform_admin ∷ []) ≡ true
        → (p.tenant_id == principal.tenant_id) ≡ true
        → (call.0 ≡ raised (http 409 "proposal_not_approved")) × (call.1.saved ≡ db.saved)
    unfolding execute_proposal require_steward proposal_or_404 handle_errors write_proposal
    checked-closed p found a b steward own =
        let t : Db = (write_proposal (attempted p) db).1 in
        let (row, same) = get_proposal-find id db found in
        let marked_row : find_row (λ x. x.id) id t.work.proposals ≡ some (attempted p) =
          find_row-put_at (λ x. x.id) id (attempted p) p db.work.proposals same row in
        ground (
          arith,
          confirm_checks-closed (attempted p) t a b,
          block_after_error-closed id "proposal_not_approved" (attempted p) t marked_row b,
        )

    -- A proposal that is neither pending nor approved, such as one that has been executed or
    -- blocked, is not executed, whoever asks and with whatever hash and nonce, and nothing is
    -- committed.
    pub execute_proposal-closed :
        (p : GovernanceProposal)
        → get_proposal id db ≡ some p
        → is_pending p.status ≡ false
        → is_approved p.status ≡ false
        → ((e : Error) × (call.0 ≡ raised e)) × (call.1.saved ≡ db.saved)
    unfolding execute_proposal require_steward proposal_or_404
    execute_proposal-closed p found a b =
        elim (Bool-cases (has_any_role principal (role_data_steward ∷ role_platform_admin ∷ []))) [
          | inr f ↦ ((http 403 "proposal_steward_required", ground arith), ground arith)
          | inl steward ↦ elim (Bool-cases (p.tenant_id == principal.tenant_id)) [
            | inr f ↦ ((http 404 "proposal_not_found", ground arith), ground arith)
            | inl own ↦
                let (refused, kept) = checked-closed p found a b steward own in
                ((http 409 "proposal_not_approved", refused), kept)
          ]
        ]
