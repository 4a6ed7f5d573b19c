-- ===== src/Gateway/Tools/Calls.antt =====
-- The branches of `ToolExecutor.execute`, one for each tool.
use Prim.Native.String.{◌++◌ as concat}
use datagenie.Policy.Decision.{PolicyOutcome, deny, requires_human_approval}
use datagenie.Prelude.Exec.{Exec, raise, Result, ok, raised, pure, ◌>>=◌, ◌>>◌}
use datagenie.Prelude.{
  Option, Bool, String, false, if◌then◌else◌, List, some, true, [], ◌++◌, none, ◌∷◌, ℕ, contains,
  ltb, ◌==◌,
}
use datagenie.Gateway.Tools.Types.{
  ClientCall, PolicyPacket, Validation, Progress, PolicyEvidence, DataGenieClient, Raised, other,
  Settings, tool_error, Principal, AssetArguments, QualityArguments, LineageArguments,
  StructuredResult, evaluated, searched, read_context, read_quality, read_lineage,
}
use datagenie.Prelude.Json.{
  Fields, Value, Items, text, get_field, put_field, field, array, object, end, nil,
}
use datagenie.Gateway.Tools.Values.{
  drop_field, list_of, object_of, text_of, size_of, is_above, list_given, evidence_list, take_items,
}

abbrev pub Step : Type 0 → Type 0
Step A = Exec Progress Raised A

abbrev pub or_other : {A : Type 0} → Option A → Step A
or_other none = raise other
or_other (some a) = pure a

-- A call of another service: it is noted, and its answer is the step's.
unfoldable pub call_client : {A : Type 0} → ClientCall → Result Raised A → Step A
call_client call answer p = (answer, record p { calls = p.calls ++ call ∷ [] })

abbrev pub set_policy : PolicyPacket → Step (Unit {0})
set_policy policy p = (ok tt, record p { policy = some policy })

abbrev pub permits : PolicyOutcome → Bool
permits deny = false
permits requires_human_approval = false
permits _ = true

-- `_policy_or_error`
unfoldable pub policy_or_error : PolicyPacket → Step (Unit {0})
policy_or_error policy p =
    (if permits policy.outcome then ok tt else raised (tool_error "mcp_forbidden" 403), p)

abbrev pub obligations_of : Option PolicyPacket → List String
obligations_of none = []
obligations_of (some policy) = policy.obligations

abbrev pub evidence_of : String → String → PolicyEvidence
evidence_of type reference = record { type = type; reference = reference }

-- `_result`
unfoldable pub result_of :
    String
    → Option PolicyPacket
    → String
    → List PolicyEvidence
    → Fields
    → ℕ
    → List String
    → Bool
    → StructuredResult
result_of request_id policy source evidence content confidence redactions truncated = record {
  request_id = request_id;
  provenance = record { source = source; source_request_id = request_id } ∷ [];
  evidence = evidence;
  policy = policy;
  obligations = obligations_of policy;
  confidence = confidence;
  redactions = redactions;
  truncated = truncated;
  content = content;
}

abbrev pub drop_unless : Bool → String → Fields → Fields
drop_unless asked key asset = if asked then asset else drop_field key asset

unfoldable pub bounded_asset : List String → Fields → Fields
bounded_asset includes asset = drop_unless (contains "quality" includes) "quality_explainable_at" (
    drop_unless (contains "quality" includes) "quality_score"
      (drop_unless (contains "columns" includes) "columns" (drop_field "technical_metadata" asset)))

unfoldable pub asset_redactions : List String → List String
asset_redactions includes =
    "technical_metadata:bounded"
      ∷ (if contains "columns" includes then [] else "columns:not_requested" ∷ [])
    ++ (if contains "quality" includes then [] else "quality:not_requested" ∷ [])

abbrev pub quality_confidence : Value → ℕ
quality_confidence (text s) = if s == "current" then 70 else 30
quality_confidence _ = 30

-- The graph cut to the largest number of nodes.
unfoldable pub bounded_lineage : Settings → Fields → Items → Items → Fields
bounded_lineage settings downstream nodes edges =
    if ltb settings.mcp_max_lineage_nodes (size_of nodes)
    then put_field "edges" (array (take_items settings.mcp_max_lineage_nodes edges))
        (put_field "nodes" (array (take_items settings.mcp_max_lineage_nodes nodes)) downstream)
    else downstream

-- The edges are only looked at where the nodes are too many.
abbrev pub edges_of : Settings → ℕ → Fields → Option Items
edges_of settings n downstream =
    if ltb settings.mcp_max_lineage_nodes n
    then list_of (get_field "edges" downstream)
    else some nil

module _ (v : Validation) (client : DataGenieClient) (settings : Settings) (principal : Principal)
    (request_id : String) where
  unfoldable pub search_governed_assets : Fields → Step StructuredResult
  search_governed_assets arguments = do
    parsed ← or_other (v.search_arguments arguments)
    downstream ← call_client searched (client.search_assets principal request_id parsed)
    items ← or_other (list_of (get_field "items" downstream))
    truncated ← or_other (is_above v (get_field "total" downstream) (size_of items))
    pure (
        result_of request_id none "catalog-api" (evidence_of "search_index" "catalog:index" ∷ [])
          downstream 90 [] truncated)

  -- The policy of an asset, before anything of it is read.
  unfoldable pub guard_asset : String → String → Step PolicyPacket
  guard_asset asset_id purpose = do
    policy ←
        call_client (evaluated asset_id)
          (client.evaluate_policy principal request_id asset_id purpose)
    set_policy policy
    policy_or_error policy
    pure policy

  unfoldable pub context_result : AssetArguments → PolicyPacket → Fields → Step StructuredResult
  context_result parsed policy downstream = do
    asset ← or_other (object_of (get_field "asset" downstream))
    pure (
        result_of request_id (some policy) "catalog-api" policy.evidence
          (field "asset" (object (bounded_asset parsed.includes asset)) end) 95
          (asset_redactions parsed.includes) false)

  unfoldable pub read_asset : AssetArguments → Step StructuredResult
  read_asset parsed = guard_asset parsed.asset_id parsed.purpose >>= λ policy.
      call_client (read_context parsed.asset_id)
        (client.asset_context principal request_id parsed.asset_id parsed.purpose)
      >>= context_result parsed policy

  unfoldable pub get_asset_context : Fields → Step StructuredResult
  get_asset_context arguments = or_other (v.asset_arguments arguments) >>= read_asset

  unfoldable pub evidence_result : PolicyPacket → Fields → Step StructuredResult
  evidence_result policy downstream = do
    source ← or_other (text_of (get_field "source" downstream))
    items ← or_other (list_given (get_field "evidence" downstream))
    evidence ← or_other (evidence_list items)
    state ← or_other (get_field "state" downstream)
    pure (
        result_of request_id (some policy) source (policy.evidence ++ evidence) downstream
          (quality_confidence state)
          ("row_samples:never_returned" ∷ "source_secrets:never_returned" ∷ []) false)

  unfoldable pub read_evidence : QualityArguments → Step StructuredResult
  read_evidence parsed = guard_asset parsed.asset_id parsed.purpose >>= λ policy.
      call_client (read_quality parsed.asset_id) (
        client.quality_evidence principal request_id parsed.asset_id parsed.purpose
          parsed.history_limit)
      >>= evidence_result policy

  unfoldable pub get_quality_evidence : Fields → Step StructuredResult
  get_quality_evidence arguments = or_other (v.quality_arguments arguments) >>= read_evidence

  unfoldable pub impact_result : LineageArguments → PolicyPacket → Fields → Step StructuredResult
  impact_result parsed policy downstream = do
    nodes ← or_other (list_of (get_field "nodes" downstream))
    edges ← or_other (edges_of settings (size_of nodes) downstream)
    pure (
        result_of request_id (some policy) "lineage-api"
          (policy.evidence ++ evidence_of "lineage_graph" (concat "lineage:" parsed.asset_id) ∷ [])
          (bounded_lineage settings downstream nodes edges) 80 []
          (ltb settings.mcp_max_lineage_nodes (size_of nodes)))

  unfoldable pub read_impact : LineageArguments → Step StructuredResult
  read_impact parsed = guard_asset parsed.asset_id parsed.purpose >>= λ policy.
      call_client (read_lineage parsed.asset_id) (
        client.lineage_impact principal request_id parsed.asset_id parsed.direction parsed.depth
          parsed.purpose)
      >>= impact_result parsed policy

  unfoldable pub analyze_lineage_impact : Fields → Step StructuredResult
  analyze_lineage_impact arguments = or_other (v.lineage_arguments arguments) >>= read_impact
