-- ===== src/Proposal/Refused.antt =====
-- A refused confirmation takes the approval away.
use datagenie.Catalog.Session.{Request, Env, Db, Error, http, write_proposal, get_proposal}
use datagenie.Catalog.Principals.{Principal, has_any_role, role_data_steward, role_platform_admin}
use datagenie.Catalog.Models.{GovernanceProposal, ProposalStatus}
use datagenie.Prelude.{
  false, String, ◌≡◌, [], ℕ, put_row, true, some, arith, ◌⊎◌, Bool-cases, inl, inr, find_row,
  find_row-put_at, refl, is_text, Option-cases, ◌∙◌, ◌∷◌, none, eq_iff,
}
use datagenie.Prelude.Exec.{Result, ok, raised, Result-cases}
use datagenie.Proposal.Execute.{
  blocked, block_execution, confirm_checks, block_if, confirmation_expired, compare_digest,
  nonce_matches, block_after_error, execute_proposal, handle_errors, attempted,
}
use datagenie.Proposal.Defs.{is_approved, is_due, expire, require_steward, proposal_or_404}
use datagenie.Proposal.Closed.{block_after_error-closed}
use datagenie.Proposal.Steps.{get_proposal-find}

module _ (req : Request) (principal : Principal) (q : GovernanceProposal) (reason : String)
    (t : Db) where
  abbrev done : Result Error (Unit {0}) × Db
  done = block_execution req principal q reason t

  block_execution-quiet :
      t.faults ≡ []
      → (done.0 ≡ ok tt)
        × (done.1.saved ≡ done.1.work)
        × (done.1.work.proposals
            ≡ put_row
                (λ x. x.id)
                (record (blocked reason q) { audit_event_id = some req.event_id })
                (put_row (λ x. x.id) (blocked reason q) t.work.proposals))
  unfolding block_execution
  block_execution-quiet quiet = ground arith

  block_execution-row :
      (id : String) (old : GovernanceProposal)
      → t.faults ≡ []
      → q.id ≡ id
      → find_row (λ x. x.id) id t.work.proposals ≡ some old
      → find_row (λ x. x.id) id done.1.saved.proposals
        ≡ some (record (blocked reason q) { audit_event_id = some req.event_id })
  unfolding blocked
  block_execution-row id old quiet same found =
      let (_, saved, rows) = block_execution-quiet quiet in
      rw (saved, rows)
        (find_row-put_at (λ x. x.id) id
          (record (blocked reason q) { audit_event_id = some req.event_id }) (blocked reason q)
          (put_row (λ x. x.id) (blocked reason q) t.work.proposals) same
          (find_row-put_at (λ x. x.id) id (blocked reason q) old t.work.proposals same found))

module _ (env : Env) (req : Request) (principal : Principal) (p : GovernanceProposal)
    (hash nonce : String) (t : Db) where
  abbrev checks : Result Error (Unit {0}) × Db
  checks = confirm_checks env req principal p hash nonce t

  compare_digest-keeps : (a b : String) → (compare_digest a b t).1 ≡ t
  unfolding compare_digest
  compare_digest-keeps a b = ground arith

  nonce_matches-keeps : (nonce_matches env p nonce t).1 ≡ t
  unfolding nonce_matches
  nonce_matches-keeps = elim (Option-cases (p.confirmation_nonce_digest)) [
    | inl e ↦ ground arith
    | inr (d, e) ↦ ground (arith, compare_digest-keeps d (env.sha256 nonce))
  ]

  confirm_checks-raised :
      {s : ℕ} {code : String}
      → t.faults ≡ []
      → is_approved p.status ≡ true
      → checks.0 ≡ raised (http s code)
      → (checks.1 ≡ t)
        ⊎ ((q : GovernanceProposal) × (q.id ≡ p.id)
            × (checks.1 ≡ (block_execution req principal q code t).1))
  unfolding confirm_checks block_if expire
  confirm_checks-raised quiet a h = elim (Bool-cases (is_due req.now p)) [
    | inl due ↦
        let (done, _, _) =
          block_execution-quiet req principal (expire p) "proposal_expired" t quiet in
        inr (expire p, refl, ground (arith, done))
    | inr due ↦ elim (Bool-cases (is_text p.approved_by principal.subject)) [
      | inr f ↦ inl (ground arith)
      | inl f ↦ elim (Result-cases (compare_digest p.proposal_hash hash t).0) [
        | inr (x, g) ↦ inl (ground (arith, compare_digest-keeps p.proposal_hash hash))
        | inl (false, g) ↦ inl (ground (arith, compare_digest-keeps p.proposal_hash hash))
        | inl (true, g) ↦ elim (Result-cases (nonce_matches env p nonce t).0) [
          | inr (x, k) ↦
              inl (ground (arith, compare_digest-keeps p.proposal_hash hash, nonce_matches-keeps))
          | inl (false, k) ↦
              inl (ground (arith, compare_digest-keeps p.proposal_hash hash, nonce_matches-keeps))
          | inl (true, k) ↦ elim (Bool-cases (confirmation_expired req.now p)) [
            | inr e ↦
                inl (ground (arith, compare_digest-keeps p.proposal_hash hash, nonce_matches-keeps))
            | inl e ↦
                let (done, _, _) =
                  block_execution-quiet req principal p "confirmation_nonce_expired" t quiet in
                inr (
                  p,
                  refl,
                  ground
                      (arith, compare_digest-keeps p.proposal_hash hash, nonce_matches-keeps, done),
                )
          ]
        ]
      ]
    ]
  ]

  block_after_error-blocks :
      (id code : String) (q : GovernanceProposal)
      → find_row (λ x. x.id) id t.work.proposals ≡ some q
      → is_approved q.status ≡ true
      → (block_execution req principal q code t).0 ≡ ok tt
      → block_after_error req principal id code t ≡ (block_execution req principal q code t).1
  unfolding block_after_error
  block_after_error-blocks id code q found a done = ground arith

  -- The row that the handler leaves, whichever test refused.
  refused-row :
      {s : ℕ} {code : String}
      → (id : String) → t.faults ≡ []
      → p.id ≡ id
      → find_row (λ x. x.id) id t.work.proposals ≡ some p
      → is_approved p.status ≡ true
      → checks.0 ≡ raised (http s code)
      → (q : GovernanceProposal) × (find_row
            (λ x. x.id)
            id
            (block_after_error req principal id code checks.1).saved.proposals
          ≡ some (record (blocked code q) { audit_event_id = some req.event_id }))
  unfolding blocked
  refused-row {s = s} {code = code} id quiet same found a h =
      elim (confirm_checks-raised quiet a h) [
        | inl kept ↦
            let (done, _, _) = block_execution-quiet req principal p code t quiet in
            (
              p,
              rw kept (
                  rw (block_after_error-blocks id code p found a done)
                    (block_execution-row req principal p code t id p quiet same found)),
            )
        | inr (q, ids, left) ↦
            let u : Db = (block_execution req principal q code t).1 in
            let row = block_execution-row req principal q code t id p quiet (ids ∙ same) found in
            let (_, saved, _) = block_execution-quiet req principal q code t quiet in
            (
              q,
              rw left (
                  rw
                    (block_after_error-closed env req principal hash nonce id code
                      (record (blocked code q) { audit_event_id = some req.event_id }) u
                      (rw (← saved) row) refl)
                    row),
            )
      ]

module _ (env : Env) (req : Request) (principal : Principal) (id hash nonce : String)
    (db : Db) where
  -- Where the database raises nothing and the confirmation of an approved proposal of the steward's
  -- tenant is refused, be it for the time, the approver, the hash or the nonce, the refusal is the
  -- answer, and the proposal is committed as blocked for that reason and without a nonce, also where
  -- it has expired.
  pub execute_proposal-refused :
      (p : GovernanceProposal) {s : ℕ} {code : String}
      → get_proposal id db ≡ some p
      → has_any_role principal (role_data_steward ∷ role_platform_admin ∷ []) ≡ true
      → p.tenant_id ≡ principal.tenant_id
      → is_approved p.status ≡ true
      → db.faults ≡ []
      → (confirm_checks env req principal
          (attempted p)
          hash
          nonce
          (write_proposal (attempted p) db).1).0
        ≡ raised (http s code)
      → let call = execute_proposal env req principal id hash nonce db in
        (call.0 ≡ raised (http s code))
        × ((r : GovernanceProposal) × (find_row (λ x. x.id) id call.1.saved.proposals ≡ some r)
            × (r.status ≡ ProposalStatus.blocked)
            × (r.blocked_reason ≡ some code)
            × (r.confirmation_nonce_digest ≡ none))
  unfolding execute_proposal require_steward proposal_or_404 handle_errors write_proposal blocked
  execute_proposal-refused p {s = s} {code = code} found steward own a quiet h =
      let t : Db = (write_proposal (attempted p) db).1 in
      let (row, same) = get_proposal-find id db found in
      let marked_row : find_row (λ x. x.id) id t.work.proposals ≡ some (attempted p) =
        find_row-put_at (λ x. x.id) id (attempted p) p db.work.proposals same row in
      let (q, stored) =
        refused-row env req principal (attempted p) hash nonce t id quiet same marked_row a h in
      let answer : (execute_proposal env req principal id hash nonce db).0 ≡ raised (http s code) =
        ground (arith, eq_iff p.tenant_id principal.tenant_id) in
      let left : (execute_proposal env req principal id hash nonce db).1
          ≡ block_after_error req principal id code
              (confirm_checks env req principal (attempted p) hash nonce t).1 =
        ground (arith, eq_iff p.tenant_id principal.tenant_id) in
      (
        answer,
        (
          record (blocked code q) { audit_event_id = some req.event_id },
          rw left stored,
          refl,
          refl,
          refl,
        ),
      )
