-- ===== src/Gateway/Tools/Guarded.antt =====
-- Nothing of an asset is read before the shared policy has permitted it.
use datagenie.Prelude.{
  String, Bool, List, ◌++◌, ◌==◌, ◌∷◌, [], false, ◌≡◌, true, Bool-cases, inr, inl, subst, sym, refl,
  eq_refl, arith, Option, some, none, ◌||◌, contains,
}
use datagenie.Gateway.Tools.Types.{
  DataGenieClient, Validation, ClientCall, Principal, Settings, read_context, evaluated,
  PolicyPacket, read_quality, read_lineage, Progress, Raised, AssetArguments, QualityArguments,
  LineageArguments, StructuredResult, Gateway,
}
use datagenie.Gateway.Tools.Calls.{
  guard_asset, call_client, policy_or_error, Step, permits, read_asset, context_result,
  read_evidence, read_impact, evidence_result, impact_result, get_asset_context, or_other,
  get_quality_evidence, analyze_lineage_impact,
}
use datagenie.Prelude.Exec.{ok, ◌>>=◌, Result, raised}
use datagenie.Gateway.Tools.{
  ToolName, run_tool, finish_tool, execute, record_execution, run_recorded, context_tool,
  evidence_tool, lineage_tool, tool_named, search_tool, proposal_tool, certification_tool,
  tool_scope, schedule_tool,
}
use datagenie.Prelude.Json.{Fields}

abbrev pub is_read_of : String → ClientCall → Bool
is_read_of asset_id (read_context k) = k == asset_id
is_read_of asset_id (read_quality k) = k == asset_id
is_read_of asset_id (read_lineage k) = k == asset_id
is_read_of asset_id _ = false

abbrev pub reads_asset : ToolName → Bool
reads_asset context_tool = true
reads_asset evidence_tool = true
reads_asset lineage_tool = true
reads_asset _ = false

-- The calls that a reading tool may have made, after those `before`: none, the policy alone, or the
-- policy, which permitted, and one read of the same asset.
pub data Guarded (client : DataGenieClient) (principal : Principal) (request_id : String)
    (before : List ClientCall) : List ClientCall → Type 0 where
  untouched : Guarded client principal request_id before before
  asked :
      (asset_id : String)
      → Guarded client principal request_id before (before ++ evaluated asset_id ∷ [])
  permitted :
      (asset_id purpose : String) (policy : PolicyPacket) (call : ClientCall)
      → client.evaluate_policy principal request_id asset_id purpose ≡ ok policy
      → permits policy.outcome ≡ true
      → is_read_of asset_id call ≡ true
      → Guarded client principal request_id before
          ((before ++ evaluated asset_id ∷ []) ++ call ∷ [])

-- One call, and steps after it that make none.
call_client-calls :
    {A B : Type 0} (call : ClientCall) (answer : Result Raised A) (next : A → Step B)
    → ((a : A) (t : Progress) → (next a t).1.calls ≡ t.calls)
    → (q : Progress) → ((call_client call answer >>= next) q).1.calls ≡ q.calls ++ call ∷ []
unfolding call_client
call_client-calls call (ok a) next h q = h a _
call_client-calls call (raised e) next h q = refl

module _ (v : Validation) (client : DataGenieClient) (settings : Settings) (principal : Principal)
    (request_id : String) where
  guard_asset-Guarded :
      {B : Type 0} (asset_id purpose : String) (call : ClientCall) (next : PolicyPacket → Step B)
      (p : Progress)
      → is_read_of asset_id call ≡ true
      → ((policy : PolicyPacket) (q : Progress) → (next policy q).1.calls ≡ q.calls ++ call ∷ [])
      → Guarded client principal request_id p.calls
          ((guard_asset v client settings principal request_id asset_id purpose >>= next) p).1.calls
  unfolding guard_asset call_client policy_or_error
  guard_asset-Guarded asset_id purpose call next p reads calls =
      by_answer (client.evaluate_policy principal request_id asset_id purpose) refl
    where
      by_answer :
          (r : Result Raised PolicyPacket)
          → client.evaluate_policy principal request_id asset_id purpose ≡ r
          → Guarded client principal request_id p.calls
              ((guard_asset v client settings principal request_id asset_id purpose >>= next)
                p).1.calls
      by_answer (raised e) h = rw (h, guard_asset) (asked asset_id)
      by_answer (ok policy) h = elim (Bool-cases (permits policy.outcome)) [
        | inr f ↦ rw (h, guard_asset) (rw f (asked asset_id))
        | inl f ↦
            rw (h, guard_asset)
              (rw f (
                subst (Guarded client principal request_id p.calls) (sym (calls policy _))
                  (permitted asset_id purpose policy call h f reads)))
      ]

  read_asset-Guarded :
      (parsed : AssetArguments) (p : Progress)
      → Guarded client principal request_id p.calls
          (read_asset v client settings principal request_id parsed p).1.calls
  unfolding read_asset context_result
  read_asset-Guarded parsed p =
      guard_asset-Guarded parsed.asset_id parsed.purpose (read_context parsed.asset_id) _ p
        (eq_refl parsed.asset_id)
        (λ policy q.
          call_client-calls (read_context parsed.asset_id) _
            (context_result v client settings principal request_id parsed policy)
            (λ a t. ground arith) q)

  read_evidence-Guarded :
      (parsed : QualityArguments) (p : Progress)
      → Guarded client principal request_id p.calls
          (read_evidence v client settings principal request_id parsed p).1.calls
  unfolding read_evidence evidence_result
  read_evidence-Guarded parsed p =
      guard_asset-Guarded parsed.asset_id parsed.purpose (read_quality parsed.asset_id) _ p
        (eq_refl parsed.asset_id)
        (λ policy q.
          call_client-calls (read_quality parsed.asset_id) _
            (evidence_result v client settings principal request_id policy) (λ a t. ground arith) q)

  read_impact-Guarded :
      (parsed : LineageArguments) (p : Progress)
      → Guarded client principal request_id p.calls
          (read_impact v client settings principal request_id parsed p).1.calls
  unfolding read_impact impact_result
  read_impact-Guarded parsed p =
      guard_asset-Guarded parsed.asset_id parsed.purpose (read_lineage parsed.asset_id) _ p
        (eq_refl parsed.asset_id)
        (λ policy q.
          call_client-calls (read_lineage parsed.asset_id) _
            (impact_result v client settings principal request_id parsed policy)
            (λ a t. ground arith) q)

  or_other-Guarded :
      {A : Type 0} (o : Option A) (next : A → Step StructuredResult) (p : Progress)
      → ((a : A) → Guarded client principal request_id p.calls (next a p).1.calls)
      → Guarded client principal request_id p.calls ((or_other o >>= next) p).1.calls
  or_other-Guarded none next p h = untouched
  or_other-Guarded (some a) next p h = h a

  run_tool-Guarded :
      (tool : ToolName) (arguments : Fields) (p : Progress)
      → reads_asset tool ≡ true
      → Guarded client principal request_id p.calls
          (run_tool v client settings principal request_id tool arguments p).1.calls
  unfolding run_tool get_asset_context get_quality_evidence analyze_lineage_impact
  run_tool-Guarded search_tool arguments p h = absurd (ground arith)
  run_tool-Guarded context_tool arguments p h =
      or_other-Guarded (v.asset_arguments arguments)
        (read_asset v client settings principal request_id) p (λ a. read_asset-Guarded a p)
  run_tool-Guarded evidence_tool arguments p h =
      or_other-Guarded (v.quality_arguments arguments)
        (read_evidence v client settings principal request_id) p (λ a. read_evidence-Guarded a p)
  run_tool-Guarded lineage_tool arguments p h =
      or_other-Guarded (v.lineage_arguments arguments)
        (read_impact v client settings principal request_id) p (λ a. read_impact-Guarded a p)
  run_tool-Guarded proposal_tool arguments p h = absurd (ground arith)
  run_tool-Guarded certification_tool arguments p h = absurd (ground arith)
  run_tool-Guarded schedule_tool arguments p h = absurd (ground arith)

  finish_tool-calls :
      (invocation_id name : String) (arguments : Fields) (r : Result Raised StructuredResult)
      (progress : Progress) (g : Gateway)
      → (finish_tool v client settings invocation_id principal request_id name arguments r progress
          g).1.calls
        ≡ progress.calls
  unfolding finish_tool record_execution
  finish_tool-calls invocation_id name arguments r progress g = ground arith

  -- The tools that read an asset make no call, or ask the policy service alone, or ask it, are
  -- permitted, and then make one call, which reads the same asset, however the execution ends.
  pub execute-Guarded :
      (invocation_id name : String) (arguments : Fields) (g : Gateway) (tool : ToolName)
      → tool_named name ≡ some tool
      → reads_asset tool ≡ true
      → Guarded client principal request_id g.calls
          (execute v client settings invocation_id principal request_id name arguments g).1.calls
  unfolding execute run_recorded
  execute-Guarded invocation_id name arguments g tool named reads =
      elim (Bool-cases
        (settings.mcp_kill_switch_enabled || contains name settings.mcp_disabled_tools)) [
          | inl e ↦ rw (e, execute) untouched
          | inr e ↦
              rw (e, execute)
                (rw named (elim (Bool-cases (contains (tool_scope tool) principal.scopes)) [
                  | inr f ↦ rw f untouched
                  | inl f ↦ rw f (
                      subst (Guarded client principal request_id g.calls)
                        (sym (finish_tool-calls invocation_id name arguments _ _ g))
                        (run_tool-Guarded tool arguments (record { policy = none; calls = g.calls })
                          reads))
                ]))
        ]
