-- ===== src/Proposal/Confirmed.antt =====
-- The confirmed part of an execution: the asset's version, the policy once more, the change, and
-- the record of it.
use datagenie.Catalog.Session.{Env, Request, Db, Error, commit, get_asset, write_proposal}
use datagenie.Catalog.Principals.{Principal}
use datagenie.Catalog.Models.{GovernanceProposal, Asset}
use datagenie.Prelude.Exec.{Result, ok, Result-cases}
use datagenie.Proposal.Execute.{
  execute_confirmed, assert_execution_preconditions, block_if, executed_by_steward,
  finish_execution,
}
use datagenie.Prelude.Json.{Value}
use datagenie.Policy.Decision.{PolicyDecision, allow}
use datagenie.Proposal.Defs.{asset_or_error, record_transition}
use datagenie.Policy.Access.{evaluate_rest_policy}
use datagenie.Proposal.Change.{apply_typed_change}
use datagenie.Prelude.{some, ◌≡◌, put_row, Option-cases, inl, arith, inr}
use datagenie.Proposal.Diff.{expected_version}

pub finish_execution-ok :
    (env : Env) (req : Request) (principal : Principal) (p : GovernanceProposal)
    (d : PolicyDecision) (result : Value) (db : Db) (answer : GovernanceProposal × Value)
    → let call = finish_execution env req principal p d result db in
      let q = executed_by_steward env req principal d p in
      call.0 ≡ ok answer
      → (answer.0 ≡ record q { audit_event_id = some req.event_id })
        × (answer.1 ≡ result)
        × (call.1.saved ≡ call.1.work)
        × (call.1.work.assets ≡ db.work.assets)
        × (call.1.work.proposals
            ≡ put_row (λ x. x.id) answer.0 (put_row (λ x. x.id) q db.work.proposals))
unfolding finish_execution write_proposal record_transition commit
finish_execution-ok env req principal p d result db answer h = ground arith

module _ (env : Env) (req : Request) (principal : Principal) (p : GovernanceProposal)
    (db : Db) where
  abbrev pub call : Result Error (GovernanceProposal × Value) × Db
  call = execute_confirmed env req principal p db

  abbrev pub policy : Asset → Result Error PolicyDecision × Db
  policy asset =
      evaluate_rest_policy env req principal "governance.proposal.execute" "asset" asset.id
        (some "governance proposal confirmation execution") db

  abbrev pub changed : Asset → Result Error Value × Db
  changed asset = apply_typed_change env req principal p asset (policy asset).1

  abbrev pub finished :
      Asset → PolicyDecision → Value → Result Error (GovernanceProposal × Value) × Db
  finished asset d result = finish_execution env req principal p d result (changed asset).1

  pub execute_confirmed-guards :
      {answer : GovernanceProposal × Value}
      → call.0 ≡ ok answer
      → (asset : Asset) × (d : PolicyDecision) × (result : Value) × (get_asset p.resource_id db
          ≡ some asset)
        × (expected_version p.version_preconditions ≡ some asset.technical_version)
        × ((policy asset).0 ≡ ok d)
        × (d.outcome ≡ allow)
        × ((changed asset).0 ≡ ok result)
        × ((finished asset d result).0 ≡ ok answer)
        × (call.1 ≡ (finished asset d result).1)
  unfolding execute_confirmed assert_execution_preconditions asset_or_error block_if
  execute_confirmed-guards h = elim (Option-cases (get_asset p.resource_id db)) [
    | inl missing ↦ absurd (ground arith)
    | inr (asset, found) ↦ elim (Option-cases (expected_version p.version_preconditions)) [
      | inl missing ↦ absurd (ground arith)
      | inr (version, given) ↦ elim (Result-cases (policy asset).0) [
        | inr (x, f) ↦ absurd (ground arith)
        | inl (d, f) ↦ elim (Result-cases (changed asset).0) [
          | inr (x, g) ↦ absurd (ground arith)
          | inl (result, g) ↦ (
            asset,
            d,
            result,
            found,
            ground arith,
            f,
            ground arith,
            g,
            ground arith,
            ground arith,
          )
        ]
      ]
    ]
  ]
