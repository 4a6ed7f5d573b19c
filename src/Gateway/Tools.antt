-- ===== src/Gateway/Tools.antt =====
-- apps/mcp-gateway/app/services/tool_execution.py with the ledger of app/services/execution_ledger.py
-- and `require_scope` of app/security/identity.py. Metrics and durations are left out.
pub mod Types
pub mod Values
pub mod Calls
pub mod Proposals
pub mod Recorded
pub mod Guarded
pub mod Bounded
pub mod Answers
use datagenie.Gateway.Tools.Types.{
  http, downstream_forbidden, downstream_unavailable, tool_error, other, denied, error,
}
use mathlib.Core.List.{[]}
use datagenie.Prelude.{
  String, Option, if◌then◌else◌, ℕ, some, ◌==◌, Bool, none, ◌||◌, contains, true, ◌++◌, ◌∷◌,
}
use datagenie.Gateway.Tools.Types.{
  LedgerRecord, Raised, Validation, Gateway, Outcome, PolicyPacket, DataGenieClient, ToolRefusal,
  Settings, Principal, StructuredResult, Progress, allowed, mcp_tool_error, http_exception,
}
use datagenie.Prelude.Json.{Fields, get_field}
use datagenie.Policy.Decision.{PolicyOutcome}
use datagenie.Gateway.Tools.Values.{list_of, size_of}
use datagenie.Prelude.Exec.{Result, Exec, raise, ok, raised}
use datagenie.Gateway.Tools.Calls.{
  Step, search_governed_assets, get_asset_context, get_quality_evidence, analyze_lineage_impact,
}
use mathlib.Core.Bool.{false}
use datagenie.Gateway.Tools.Proposals.{
  create_governance_proposal, request_certification_review, schedule_quality_check,
}

pub data ToolName : Type 0 where
  search_tool context_tool evidence_tool lineage_tool proposal_tool certification_tool
        schedule_tool :
      ToolName

-- `name in TOOL_SCOPES`
unfoldable pub tool_named : String → Option ToolName
tool_named name =
    if name == "search_governed_assets"
    then some search_tool
    else if name == "get_asset_context"
    then some context_tool
    else if name == "get_quality_evidence"
    then some evidence_tool
    else if name == "analyze_lineage_impact"
    then some lineage_tool
    else if name == "create_governance_proposal"
    then some proposal_tool
    else if name == "request_certification_review"
    then some certification_tool
    else if name == "schedule_quality_check"
    then some schedule_tool
    else none

-- `TOOL_SCOPES`
abbrev pub tool_scope : ToolName → String
tool_scope search_tool = "catalog:read"
tool_scope context_tool = "catalog:read"
tool_scope evidence_tool = "quality:read"
tool_scope lineage_tool = "lineage:read"
tool_scope proposal_tool = "governance:propose"
tool_scope certification_tool = "governance:propose"
tool_scope schedule_tool = "governance:propose"

-- `ExecutionLedger.record`: a write that raises leaves nothing.
unfoldable pub record_execution : LedgerRecord → Gateway → Bool × Gateway
record_execution row g = elim g.faults [
  | [] ↦ (true, record g { ledger = g.ledger ++ row ∷ [] })
  | true ∷ fs ↦ (false, record g { faults = fs })
  | false ∷ fs ↦ (true, record g { ledger = g.ledger ++ row ∷ []; faults = fs })
]

-- What the handlers make of an exception: the outcome, the code and what is raised instead.
abbrev pub code_or_forbidden : Option String → String
code_or_forbidden none = "mcp_forbidden"
code_or_forbidden (some code) = code

abbrev pub handled : Raised → Outcome × (String × ToolRefusal)
handled (http code status) =
    (denied, (code_or_forbidden code, mcp_tool_error (code_or_forbidden code) status))
handled downstream_forbidden = (denied, ("mcp_forbidden", mcp_tool_error "mcp_forbidden" 403))
handled downstream_unavailable =
    (error, ("downstream_unavailable", mcp_tool_error "downstream_unavailable" 503))
handled (tool_error code status) = (denied, (code, mcp_tool_error code status))
handled other = (error, ("mcp_invalid_arguments", mcp_tool_error "mcp_invalid_arguments" 422))

abbrev pub outcome_of : Option PolicyPacket → Option PolicyOutcome
outcome_of none = none
outcome_of (some policy) = some policy.outcome

-- `len(result.data.get("items", []))`; the size of a value that is no list is left out.
abbrev pub item_count : Fields → ℕ
item_count content = elim (list_of (get_field "items" content)) [
  | none ↦ 0
  | some items ↦ size_of items
]

module _ (v : Validation) (client : DataGenieClient) (settings : Settings) where
  -- The `try` block.
  unfoldable pub run_tool : Principal → String → ToolName → Fields → Step StructuredResult
  run_tool principal request_id search_tool arguments =
      search_governed_assets v client settings principal request_id arguments
  run_tool principal request_id context_tool arguments =
      get_asset_context v client settings principal request_id arguments
  run_tool principal request_id evidence_tool arguments =
      get_quality_evidence v client settings principal request_id arguments
  run_tool principal request_id lineage_tool arguments =
      analyze_lineage_impact v client settings principal request_id arguments
  run_tool principal request_id proposal_tool arguments =
      create_governance_proposal v client principal request_id arguments
  run_tool principal request_id certification_tool arguments =
      request_certification_review v client principal request_id arguments
  run_tool principal request_id schedule_tool arguments =
      schedule_quality_check v client principal request_id arguments

  -- `make_ledger_record`, of a result or of an exception
  unfoldable pub ledger_record :
      String
      → Principal
      → String
      → String
      → Fields
      → Option PolicyPacket
      → Result Raised StructuredResult
      → LedgerRecord
  ledger_record invocation_id principal request_id name arguments policy (ok result) = record {
    invocation_id = invocation_id;
    request_id = request_id;
    tenant_id = principal.tenant_id;
    actor_subject = principal.subject;
    host_id = principal.host_id;
    operation_name = name;
    input_digest = v.digest arguments;
    policy_outcome = outcome_of policy;
    outcome = allowed;
    result_count = item_count result.content;
    result_bytes = v.serialized_size result;
    error_code = none;
  }
  ledger_record invocation_id principal request_id name arguments policy (raised e) = record {
    invocation_id = invocation_id;
    request_id = request_id;
    tenant_id = principal.tenant_id;
    actor_subject = principal.subject;
    host_id = principal.host_id;
    operation_name = name;
    input_digest = v.digest arguments;
    policy_outcome = outcome_of policy;
    outcome = (handled e).0;
    result_count = 0;
    result_bytes = 0;
    error_code = some (handled e).1.0;
  }

  -- The `except` and `finally` blocks: a result that could not be recorded is not returned.
  abbrev pub answer_of : Result Raised StructuredResult → Bool → Result ToolRefusal StructuredResult
  answer_of (ok result) true = ok result
  answer_of (ok result) false = raised (mcp_tool_error "ledger_unavailable" 503)
  answer_of (raised e) is_recorded = raised (handled e).1.1

  unfoldable pub finish_tool :
      String
      → Principal
      → String
      → String
      → Fields
      → Result Raised StructuredResult
      → Progress
      → Exec Gateway ToolRefusal StructuredResult
  finish_tool invocation_id principal request_id name arguments r progress g =
      let call =
        record_execution
          (ledger_record invocation_id principal request_id name arguments progress.policy r)
          (record g { calls = progress.calls }) in
      (answer_of r call.0, call.1)

  unfoldable pub run_recorded :
      String
      → Principal
      → String
      → String
      → ToolName
      → Fields
      → Exec Gateway ToolRefusal StructuredResult
  run_recorded invocation_id principal request_id name tool arguments g =
      let call =
        run_tool principal request_id tool arguments (record { policy = none; calls = g.calls }) in
      finish_tool invocation_id principal request_id name arguments call.0 call.1 g

  -- `require_scope`, then the tool
  abbrev pub run_scoped :
      String
      → Principal
      → String
      → String
      → Fields
      → Option ToolName
      → Exec Gateway ToolRefusal StructuredResult
  run_scoped invocation_id principal request_id name arguments none g =
      (raised (mcp_tool_error "mcp_method_not_found" 404), g)
  run_scoped invocation_id principal request_id name arguments (some tool) g =
      if contains (tool_scope tool) principal.scopes
      then run_recorded invocation_id principal request_id name tool arguments g
      else (raised (http_exception 403 "mcp_forbidden"), g)

  unfoldable pub execute :
      String → Principal → String → String → Fields → Exec Gateway ToolRefusal StructuredResult
  execute invocation_id principal request_id name arguments g =
      if settings.mcp_kill_switch_enabled || contains name settings.mcp_disabled_tools
      then (raised (mcp_tool_error "tool_disabled" 503), g)
      else run_scoped invocation_id principal request_id name arguments (tool_named name) g
