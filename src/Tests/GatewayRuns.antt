-- ===== src/Tests/GatewayRuns.antt =====
-- The gateway's tools at concrete inputs.
use datagenie.Gateway.Tools.Types.{
  Principal, Settings, PolicyPacket, DataGenieClient, Validation, Gateway, StructuredResult,
  downstream_unavailable, downstream_forbidden, allowed,
}
use datagenie.Policy.Decision.{allow_with_obligations}
use datagenie.Prelude.{◌∷◌, false, [], some, ◌||◌, none, true, contains, ◌≡◌, refl, Option}
use datagenie.Gateway.Tools.{
  context_tool, execute, tool_named, ToolName, tool_scope, outcome_of, item_count, run_recorded,
  finish_tool, run_tool, record_execution,
}
use datagenie.Prelude.Exec.{ok, raised}
use datagenie.Gateway.Tools.Guarded.{Guarded, execute-Guarded}
use datagenie.Gateway.Tools.Answers.{HidesMetadata, IsCut, execute-HidesMetadata, execute-IsCut}
use datagenie.Prelude.Json.{end, field, object, array, text, cons, nil}
use datagenie.Gateway.Tools.Recorded.{execute-ok}
use datagenie.Gateway.Tools.Calls.{
  get_asset_context, analyze_lineage_impact, read_asset, read_impact, guard_asset, call_client,
  policy_or_error, context_result, impact_result, result_of, asset_redactions, bounded_lineage,
  bounded_asset,
}

abbrev policy : PolicyPacket
policy = record {
  outcome = allow_with_obligations;
  evidence = record { type = "asset"; reference = "a-1" } ∷ [];
  obligations = "cite" ∷ [];
}

abbrev principal : Principal
principal = record {
  subject = "agent";
  tenant_id = "t-1";
  scopes = "catalog:read" ∷ "lineage:read" ∷ [];
  host_id = "h-1";
}

abbrev settings : Settings
settings = record {
  mcp_kill_switch_enabled = false;
  mcp_disabled_tools = "get_quality_evidence" ∷ [];
  mcp_max_lineage_nodes = 1;
}

abbrev client : DataGenieClient
client = record {
  search_assets = λ p id parsed. ok end;
  evaluate_policy = λ p id asset_id purpose. ok policy;
  asset_context = λ p id asset_id purpose. ok (
      field "asset"
        (object (
          field "name" (text "orders")
            (field "technical_metadata" (object end) (field "columns" (array nil) end))))
        end);
  quality_evidence = λ p id asset_id purpose limit. raised downstream_unavailable;
  lineage_impact = λ p id asset_id direction depth purpose. ok (
      field "nodes" (array (cons (text "a-1") (cons (text "a-2") nil)))
        (field "edges" (array nil) end));
  create_governance_proposal = λ p id payload. raised downstream_forbidden;
}

abbrev validation : Validation
validation = record {
  search_arguments = λ fs. some fs;
  asset_arguments = λ fs. some (record { asset_id = "a-1"; purpose = "audit"; includes = [] });
  quality_arguments = λ fs. none;
  lineage_arguments =
      λ fs. some (record { asset_id = "a-1"; purpose = "audit"; direction = "both"; depth = 2 });
  proposal_arguments = λ fs. none;
  certification_arguments = λ fs. none;
  schedule_arguments = λ fs. none;
  fraction_above = λ s n. false;
  policy_packet = λ v. none;
  digest = λ fs. "digest";
  serialized_size = λ r. 10;
}

abbrev gateway : Gateway
gateway = record { calls = []; ledger = []; faults = [] }

abbrev context_answer : StructuredResult
context_answer = record {
  request_id = "r-1";
  provenance = record { source = "catalog-api"; source_request_id = "r-1" } ∷ [];
  evidence = record { type = "asset"; reference = "a-1" } ∷ [];
  policy = some policy;
  obligations = "cite" ∷ [];
  confidence = 95;
  redactions =
      "technical_metadata:bounded" ∷ "columns:not_requested" ∷ "quality:not_requested" ∷ [];
  truncated = false;
  content = field "asset" (object (field "name" (text "orders") end)) end;
}

abbrev lineage_answer : StructuredResult
lineage_answer = record {
  request_id = "r-1";
  provenance = record { source = "lineage-api"; source_request_id = "r-1" } ∷ [];
  evidence =
      record { type = "asset"; reference = "a-1" }
      ∷ record { type = "lineage_graph"; reference = "lineage:a-1" }
      ∷ [];
  policy = some policy;
  obligations = "cite" ∷ [];
  confidence = 80;
  redactions = [];
  truncated = true;
  content = field "nodes" (array (cons (text "a-1") nil)) (field "edges" (array nil) end);
}

execute-ok_example :
    ((settings.mcp_kill_switch_enabled || contains "get_asset_context" settings.mcp_disabled_tools)
      ≡ false)
    × ((tool : ToolName) × (tool_named "get_asset_context" ≡ some tool)
        × (contains (tool_scope tool) principal.scopes ≡ true))
    × ((p : Option PolicyPacket) × ((execute validation client settings "i-1" principal "r-1"
            "get_asset_context" end gateway).1.ledger
          ≡ record {
            invocation_id = "i-1";
            request_id = "r-1";
            tenant_id = principal.tenant_id;
            actor_subject = principal.subject;
            host_id = principal.host_id;
            operation_name = "get_asset_context";
            input_digest = validation.digest end;
            policy_outcome = outcome_of p;
            outcome = allowed;
            result_count = item_count context_answer.content;
            result_bytes = validation.serialized_size context_answer;
            error_code = none;
          }
            ∷ []))
unfolding execute tool_named run_recorded finish_tool run_tool get_asset_context read_asset
    guard_asset call_client policy_or_error context_result record_execution result_of
    asset_redactions bounded_asset
execute-ok_example =
    execute-ok validation client settings "i-1" principal "r-1" "get_asset_context" end gateway
      {result = context_answer} refl

execute-Guarded_example :
    Guarded client principal "r-1" []
      (execute validation client settings "i-1" principal "r-1" "get_asset_context" end
        gateway).1.calls
unfolding tool_named
execute-Guarded_example =
    execute-Guarded validation client settings principal "r-1" "i-1" "get_asset_context" end gateway
      context_tool refl refl

execute-HidesMetadata_example : HidesMetadata context_answer
unfolding execute tool_named run_recorded finish_tool run_tool get_asset_context read_asset
    guard_asset call_client policy_or_error context_result record_execution result_of
    asset_redactions bounded_asset
execute-HidesMetadata_example =
    execute-HidesMetadata validation client settings principal "r-1" "i-1" end gateway
      {result = context_answer} refl

execute-IsCut_example : IsCut settings lineage_answer
unfolding execute tool_named run_recorded finish_tool run_tool analyze_lineage_impact read_impact
    guard_asset call_client policy_or_error impact_result record_execution result_of bounded_lineage
execute-IsCut_example =
    execute-IsCut validation client settings principal "r-1" "i-1" end gateway
      {result = lineage_answer} refl
