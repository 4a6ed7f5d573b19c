-- ===== src/Proposal/Execution.antt =====
-- What an execution has been through when it succeeds, and what it leaves behind.
use datagenie.Catalog.Session.{Env, Request, Db}
use datagenie.Proposal.Change.{apply_typed_change}
use datagenie.Catalog.Principals.{Principal}
use datagenie.Catalog.Models.{GovernanceProposal, Asset, ProposalStatus, Instant}
use datagenie.Prelude.{
  String, ◌≡◌, arith, false, some, ◌<◌, Option-cases, inl, inr, is_text_iff, eq_iff,
}
use datagenie.Proposal.Execute.{confirm_checks, block_if, compare_digest, nonce_matches}
use datagenie.Prelude.Exec.{ok}
use datagenie.Proposal.Defs.{is_due}

module _ (env : Env) (req : Request) (principal : Principal) (p : GovernanceProposal)
    (hash nonce : String) (db : Db) where
  pub confirm_checks-ok :
      (confirm_checks env req principal p hash nonce db).0 ≡ ok tt
      → (is_due req.now p ≡ false)
        × (p.status ≡ ProposalStatus.approved)
        × (p.approved_by ≡ some principal.subject)
        × (p.proposal_hash ≡ hash)
        × (p.confirmation_nonce_digest ≡ some (env.sha256 nonce))
        × ((at : Instant) × (p.confirmation_expires_at ≡ some at) × (req.now < at))
        × ((confirm_checks env req principal p hash nonce db).1 ≡ db)
  unfolding confirm_checks block_if compare_digest nonce_matches
  confirm_checks-ok h = elim (Option-cases p.confirmation_nonce_digest) [
    | inl none_set ↦ absurd (ground arith)
    | inr (digest, set) ↦ elim (Option-cases p.confirmation_expires_at) [
      | inl none_set ↦ absurd (ground arith)
      | inr (at, window) ↦ (
        ground arith,
        ground arith,
        ground (arith, (is_text_iff p.approved_by principal.subject).0),
        ground (arith, eq_iff p.proposal_hash hash),
        ground (arith, eq_iff digest (env.sha256 nonce)),
        (at, window, ground arith),
        ground arith,
      )
    ]
  ]

-- A typed change writes to other tables than the proposals, and commits nothing.
pub apply_typed_change-keeps :
    (env : Env) (req : Request) (principal : Principal) (p : GovernanceProposal) (asset : Asset)
    (db : Db)
    → let after = (apply_typed_change env req principal p asset db).1 in
      (after.work.proposals ≡ db.work.proposals) × (after.saved ≡ db.saved)
unfolding apply_typed_change
apply_typed_change-keeps env req principal p asset db = ground arith
