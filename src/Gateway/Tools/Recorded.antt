-- ===== src/Gateway/Tools/Recorded.antt =====
-- The execution ledger: what it has of every tool call.
use datagenie.Gateway.Tools.{
  record_execution, finish_tool, execute, outcome_of, item_count, ledger_record, run_recorded,
  ToolName, tool_named, tool_scope,
}
use datagenie.Gateway.Tools.Types.{
  Validation, LedgerRecord, DataGenieClient, Gateway, Settings, Principal, StructuredResult, Raised,
  Progress, PolicyPacket, allowed,
}
use datagenie.Prelude.{
  ◌≡◌, String, true, ◌++◌, ◌∷◌, [], arith, ◌||◌, contains, false, some, Option, ◌⊎◌, inl, inr,
  Bool-cases, none, refl,
}
use datagenie.Prelude.Json.{Fields}
use datagenie.Prelude.Exec.{Result, ok}

record_execution-ok :
    (row : LedgerRecord) (g : Gateway)
    → (record_execution row g).0 ≡ true
    → (record_execution row g).1.ledger ≡ g.ledger ++ row ∷ []
unfolding record_execution
record_execution-ok row g h = ground arith

module _ (v : Validation) (client : DataGenieClient) (settings : Settings) (invocation_id : String)
    (principal : Principal) (request_id name : String) (arguments : Fields) where
  finish_tool-ok :
      (r : Result Raised StructuredResult) (progress : Progress) (g : Gateway)
      {result : StructuredResult}
      → let call =
          finish_tool v client settings invocation_id principal request_id name arguments r progress
            g in
        call.0 ≡ ok result
        → call.1.ledger
          ≡ g.ledger
            ++ record {
              invocation_id = invocation_id;
              request_id = request_id;
              tenant_id = principal.tenant_id;
              actor_subject = principal.subject;
              host_id = principal.host_id;
              operation_name = name;
              input_digest = v.digest arguments;
              policy_outcome = outcome_of progress.policy;
              outcome = allowed;
              result_count = item_count result.content;
              result_bytes = v.serialized_size result;
              error_code = none;
            }
              ∷ []
  unfolding finish_tool record_execution ledger_record
  finish_tool-ok r progress g h = ground arith

  -- A result is only returned for a tool that is enabled and known, to a caller with its scope, and
  -- the ledger then has one more row: that of the call and its caller, as
  -- allowed, with the count of the items and the size of the result.
  pub execute-ok :
      (g : Gateway) {result : StructuredResult}
      → let call = execute v client settings invocation_id principal request_id name arguments g in
        call.0 ≡ ok result
        → ((settings.mcp_kill_switch_enabled || contains name settings.mcp_disabled_tools) ≡ false)
          × ((tool : ToolName) × (tool_named name ≡ some tool)
              × (contains (tool_scope tool) principal.scopes ≡ true))
          × ((policy : Option PolicyPacket) × (call.1.ledger
                ≡ g.ledger
                  ++ record {
                    invocation_id = invocation_id;
                    request_id = request_id;
                    tenant_id = principal.tenant_id;
                    actor_subject = principal.subject;
                    host_id = principal.host_id;
                    operation_name = name;
                    input_digest = v.digest arguments;
                    policy_outcome = outcome_of policy;
                    outcome = allowed;
                    result_count = item_count result.content;
                    result_bytes = v.serialized_size result;
                    error_code = none;
                  }
                    ∷ []))
  unfolding execute run_recorded
  execute-ok g {result = result} h =
      by_enabled
        (Bool-cases (settings.mcp_kill_switch_enabled || contains name settings.mcp_disabled_tools))
        (tool_named name) refl h
    where
      Recorded : Gateway → Type 0
      Recorded g' =
          ((settings.mcp_kill_switch_enabled || contains name settings.mcp_disabled_tools) ≡ false)
          × ((tool : ToolName) × (tool_named name ≡ some tool)
              × (contains (tool_scope tool) principal.scopes ≡ true))
          × ((policy : Option PolicyPacket) × (g'.ledger
                ≡ g.ledger
                  ++ record {
                    invocation_id = invocation_id;
                    request_id = request_id;
                    tenant_id = principal.tenant_id;
                    actor_subject = principal.subject;
                    host_id = principal.host_id;
                    operation_name = name;
                    input_digest = v.digest arguments;
                    policy_outcome = outcome_of policy;
                    outcome = allowed;
                    result_count = item_count result.content;
                    result_bytes = v.serialized_size result;
                    error_code = none;
                  }
                    ∷ []))

      by_enabled :
          ((settings.mcp_kill_switch_enabled || contains name settings.mcp_disabled_tools) ≡ true)
            ⊎ ((settings.mcp_kill_switch_enabled || contains name settings.mcp_disabled_tools)
                ≡ false)
          → (o : Option ToolName) → tool_named name ≡ o
          → (execute v client settings invocation_id principal request_id name arguments g).0
            ≡ ok result
          → Recorded
              (execute v client settings invocation_id principal request_id name arguments g).1
      by_enabled (inl e) o q k = absurd (ground arith)
      by_enabled (inr e) none q k = absurd (ground arith)
      by_enabled (inr e) (some tool) q k =
          elim (Bool-cases (contains (tool_scope tool) principal.scopes)) [
            | inr f ↦ absurd (ground arith)
            | inl f ↦
                rw (e, execute)
                  (rw q (
                    rw f (
                      refl,
                      (tool, refl, f),
                      (_, finish_tool-ok _ _ g (rw f at (rw q at (rw (e, execute) at k)))),
                    )))
          ]
