-- ===== src/Gateway/Tools/Answers.antt =====
-- The results that the reading tools return are bounded.
use datagenie.Gateway.Tools.Types.{
  StructuredResult, Settings, Validation, DataGenieClient, Progress, Principal, Raised,
  AssetArguments, LineageArguments, PolicyPacket, Gateway, read_context, read_lineage,
}
use datagenie.Gateway.Tools.Calls.{
  Step, context_result, impact_result, result_of, or_other, read_asset, read_impact, edges_of,
  guard_asset, call_client, get_asset_context, analyze_lineage_impact,
}
use datagenie.Prelude.Json.{Fields, Items, get_field, object, array}
use datagenie.Prelude.Exec.{◌>>=◌, Result, ok, continue, raised, pure}
use datagenie.Prelude.{
  ◌≡◌, String, some, none, arith, ◌≤◌, Option, subst, refl, Bool-cases, ◌||◌, contains, inl, inr,
}
use datagenie.Gateway.Tools.Values.{size_of, object_of, list_of}
use datagenie.Gateway.Tools.Bounded.{bounded_asset-technical_metadata, bounded_lineage-nodes}
use datagenie.Gateway.Tools.{
  context_tool, lineage_tool, finish_tool, execute, tool_named, record_execution, run_recorded,
  run_tool, ToolName, tool_scope,
}

-- Whatever a step answers has the property.
abbrev pub Answers : (StructuredResult → Type 0) → Step StructuredResult → Type 0
Answers P m = (p : Progress) (r : StructuredResult) → (m p).0 ≡ ok r → P r

Answers-bind :
    (P : StructuredResult → Type 0) {A : Type 0} (m : Step A) (next : A → Step StructuredResult)
    → ((a : A) → Answers P (next a))
    → Answers P (m >>= next)
Answers-bind P {A} m next each p r h = by_answer (m p).0 (m p).1 h
  where
    by_answer : (a : Result Raised A) (t : Progress) → (continue next a t).0 ≡ ok r → P r
    by_answer (ok a) t k = each a t r k
    by_answer (raised e) t k = absurd (ground arith)

abbrev wrap : StructuredResult → Result Raised StructuredResult
wrap x = ok x

ok-injective : (x y : StructuredResult) → wrap x ≡ wrap y → x ≡ y
ok-injective x y q = cc

pure-Answers : (P : StructuredResult → Type 0) (x : StructuredResult) → P x → Answers P (pure x)
pure-Answers P x h p r e = subst P (ok-injective x r e) h

or_other-Answers :
    (P : StructuredResult → Type 0) {A : Type 0} (o : Option A) (next : A → Step StructuredResult)
    → ((a : A) → o ≡ some a → Answers P (next a))
    → Answers P (or_other o >>= next)
or_other-Answers P none next each p r h = absurd (ground arith)
or_other-Answers P (some a) next each p r h = each a refl p r h

-- No technical metadata of the asset; no more nodes than the limit.
abbrev pub HidesMetadata : StructuredResult → Type 0
HidesMetadata r =
    (asset : Fields)
    → get_field "asset" r.content ≡ some (object asset)
    → get_field "technical_metadata" asset ≡ none

abbrev pub IsCut : Settings → StructuredResult → Type 0
IsCut settings r =
    (nodes : Items)
    → get_field "nodes" r.content ≡ some (array nodes)
    → size_of nodes ≤ settings.mcp_max_lineage_nodes

module _ (v : Validation) (client : DataGenieClient) (settings : Settings) (principal : Principal)
    (request_id : String) where
  context_result-HidesMetadata :
      (parsed : AssetArguments) (policy : PolicyPacket) (downstream : Fields)
      → Answers HidesMetadata
          (context_result v client settings principal request_id parsed policy downstream)
  unfolding context_result result_of
  context_result-HidesMetadata parsed policy downstream =
      Answers-bind HidesMetadata (or_other (object_of (get_field "asset" downstream))) _
        (λ asset p r h bounded q.
          grind (arith, bounded_asset-technical_metadata parsed.includes asset))

  impact_result-IsCut :
      (parsed : LineageArguments) (policy : PolicyPacket) (downstream : Fields)
      → Answers
          (IsCut settings)
          (impact_result v client settings principal request_id parsed policy downstream)
  unfolding impact_result result_of
  impact_result-IsCut parsed policy downstream =
      or_other-Answers (IsCut settings) (list_of (get_field "nodes" downstream)) _ (λ nodes found.
        or_other-Answers (IsCut settings) (edges_of settings (size_of nodes) downstream) _
          (λ edges given.
            pure-Answers (IsCut settings) _
              (λ ns q. bounded_lineage-nodes settings downstream nodes edges ns found q)))

  read_asset-HidesMetadata :
      (parsed : AssetArguments)
      → Answers HidesMetadata (read_asset v client settings principal request_id parsed)
  unfolding read_asset
  read_asset-HidesMetadata parsed =
      Answers-bind HidesMetadata
        (guard_asset v client settings principal request_id parsed.asset_id parsed.purpose) _
        (λ policy.
          Answers-bind HidesMetadata
            (call_client (read_context parsed.asset_id)
              (client.asset_context principal request_id parsed.asset_id parsed.purpose))
            (context_result v client settings principal request_id parsed policy)
            (context_result-HidesMetadata parsed policy))

  read_impact-IsCut :
      (parsed : LineageArguments)
      → Answers (IsCut settings) (read_impact v client settings principal request_id parsed)
  unfolding read_impact
  read_impact-IsCut parsed =
      Answers-bind (IsCut settings)
        (guard_asset v client settings principal request_id parsed.asset_id parsed.purpose) _
        (λ policy.
          Answers-bind (IsCut settings)
            (call_client (read_lineage parsed.asset_id) (
              client.lineage_impact principal request_id parsed.asset_id parsed.direction
                parsed.depth parsed.purpose))
            (impact_result v client settings principal request_id parsed policy)
            (impact_result-IsCut parsed policy))

  -- What a tool answers, so does the whole execution, if it answers.
  finish_tool-run :
      (invocation_id name : String) (arguments : Fields) (r : Result Raised StructuredResult)
      (progress : Progress) (g : Gateway) {result : StructuredResult}
      → (finish_tool v client settings invocation_id principal request_id name arguments r progress
          g).0
        ≡ ok result
      → r ≡ ok result
  unfolding finish_tool record_execution
  finish_tool-run invocation_id name arguments r progress g h = ground arith

  execute-Answers :
      (P : StructuredResult → Type 0) (invocation_id name : String) (tool : ToolName)
      (arguments : Fields) (g : Gateway) {result : StructuredResult}
      → tool_named name ≡ some tool
      → Answers P (run_tool v client settings principal request_id tool arguments)
      → (execute v client settings invocation_id principal request_id name arguments g).0
        ≡ ok result
      → P result
  unfolding execute run_recorded
  execute-Answers P invocation_id name tool arguments g {result = result} named answers h =
      elim (Bool-cases
        (settings.mcp_kill_switch_enabled || contains name settings.mcp_disabled_tools)) [
          | inl e ↦ absurd (ground arith)
          | inr e ↦ elim (Bool-cases (contains (tool_scope tool) principal.scopes)) [
            | inr f ↦ absurd (ground arith)
            | inl f ↦
                answers (record { policy = none; calls = g.calls }) result
                  (finish_tool-run invocation_id name arguments _ _ g
                    (rw f at (rw named at (rw (e, execute) at h))))
          ]
        ]

  -- The result of get_asset_context holds no technical metadata of the asset.
  pub execute-HidesMetadata :
      (invocation_id : String) (arguments : Fields) (g : Gateway) {result : StructuredResult}
      → (execute v client settings invocation_id principal request_id "get_asset_context" arguments
          g).0
        ≡ ok result
      → HidesMetadata result
  unfolding tool_named run_tool get_asset_context
  execute-HidesMetadata invocation_id arguments g =
      execute-Answers HidesMetadata invocation_id "get_asset_context" context_tool arguments g refl
        (Answers-bind HidesMetadata (or_other (v.asset_arguments arguments))
          (read_asset v client settings principal request_id) read_asset-HidesMetadata)

  -- The result of analyze_lineage_impact has no more nodes than the setting allows, whatever the
  -- lineage service sends.
  pub execute-IsCut :
      (invocation_id : String) (arguments : Fields) (g : Gateway) {result : StructuredResult}
      → (execute v client settings invocation_id principal request_id "analyze_lineage_impact"
          arguments g).0
        ≡ ok result
      → IsCut settings result
  unfolding tool_named run_tool analyze_lineage_impact
  execute-IsCut invocation_id arguments g =
      execute-Answers (IsCut settings) invocation_id "analyze_lineage_impact" lineage_tool arguments
        g refl
        (Answers-bind (IsCut settings) (or_other (v.lineage_arguments arguments))
          (read_impact v client settings principal request_id) read_impact-IsCut)
