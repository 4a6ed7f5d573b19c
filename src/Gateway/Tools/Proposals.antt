-- ===== src/Gateway/Tools/Proposals.antt =====
-- The three tools that propose a change: each makes a payload for the catalog's proposals.
use datagenie.Gateway.Tools.Values.{value_or_null, list_of, evidence_list, required_fields}
use datagenie.Prelude.{
  String, Option, ℕ, List, ◌∷◌, [], some, if◌then◌else◌, truthy, none, ◌++◌, false,
}
use datagenie.Gateway.Tools.Types.{
  ProposalArguments, CertificationReviewArguments, QualityScheduleArguments, Validation,
  DataGenieClient, Principal, StructuredResult, proposed,
}
use datagenie.Prelude.Json.{
  Fields, Value, field, end, object, text, get_field, text_or_null, int, array, texts, put_field,
}
use datagenie.Gateway.Tools.Calls.{Step, or_other, call_client, set_policy, result_of}
use datagenie.Prelude.Exec.{◌>>=◌, ◌>>◌, pure}

abbrev pub asset_resource : String → Value
asset_resource asset_id =
    object (field "resource_type" (text "asset") (field "resource_id" (text asset_id) end))

abbrev pub mcp_source : Option String → Option String → Value
mcp_source agent_id model_id = object (
    field "channel" (text "mcp")
      (field "agent_id" (text_or_null agent_id) (field "model_id" (text_or_null model_id) end)))

abbrev pub preconditions : ℕ → Value
preconditions version = object (field "technical_version" (int version) end)

unfoldable pub proposal_payload : ProposalArguments → Fields
proposal_payload parsed = field "proposal_type" (text parsed.proposal_type) (
    field "title" (text parsed.title) (
      field "proposal_text" (text parsed.proposal_text) (
        field "resource" (asset_resource parsed.asset_id) (
          field "purpose" (text parsed.purpose) (
            field "diff" (object parsed.diff) (
              field "evidence" (array parsed.evidence) (
                field "impact" (object parsed.impact) (
                  field "version_preconditions" (preconditions parsed.technical_version) (
                    field "source" (mcp_source parsed.agent_id parsed.model_id)
                      (field "expires_in_seconds" (int parsed.expires_in_seconds) end))))))))))

abbrev pub pending_impact : String → Value
pending_impact summary =
    object (field "summary" (text summary) (field "risk_level" (text "medium") end))

-- `{"note": parsed.note} if parsed.note else {}`
abbrev pub note_diff : Option String → Fields
note_diff none = end
note_diff (some s) = if truthy (some s) then field "note" (text s) end else end

unfoldable pub certification_payload : CertificationReviewArguments → Fields
certification_payload parsed = field "proposal_type" (text "certification_review_request") (
    field "title" (text "Request certification review") (
      field "proposal_text"
        (text
          "Request steward review for certification; no certification is applied until an approved proposal is confirmed.")
        (field "resource" (asset_resource parsed.asset_id) (
          field "purpose" (text parsed.purpose) (
            field "diff" (object (note_diff parsed.note)) (
              field "evidence" (array parsed.evidence) (
                field "impact"
                  (pending_impact "Creates a pending certification review request only")
                  (field "version_preconditions" (preconditions parsed.technical_version)
                    (field "source" (mcp_source parsed.agent_id parsed.model_id) end)))))))))

unfoldable pub schedule_payload : QualityScheduleArguments → Fields
schedule_payload parsed = field "proposal_type" (text "quality_check_schedule") (
    field "title" (text "Schedule explainable quality check") (
      field "proposal_text"
        (text
          "Request a steward-approved quality check schedule; no worker job is dispatched by this MCP call.")
        (field "resource" (asset_resource parsed.asset_id) (
          field "purpose" (text parsed.purpose) (
            field "diff"
              (object (
                field "schedule"
                  (object (
                    field "frequency" (text parsed.frequency)
                      (field "rule_types" (array (texts parsed.rule_types)) end)))
                  end))
              (field "evidence" (array parsed.evidence) (
                field "impact" (pending_impact "Creates a pending quality schedule request only") (
                  field "version_preconditions" (preconditions parsed.technical_version)
                    (field "source" (mcp_source parsed.agent_id parsed.model_id) end)))))))))

abbrev pub copied : List (String × String)
copied =
    ("proposal_id", "id")
    ∷ ("proposal_hash", "proposal_hash")
    ∷ ("status", "status")
    ∷ ("expires_at", "expires_at")
    ∷ ("inbox_uri", "inbox_uri")
    ∷ ("proposal_type", "proposal_type")
    ∷ ("impact", "impact")
    ∷ []

-- The `source` of the result: the subject has to be there.
abbrev pub initiator : Fields → Option Value
initiator downstream = elim (get_field "initiating_subject" downstream) [
  | none ↦ none
  | some subject ↦ some (
      object (
        field "subject" subject (
          field "agent_id" (value_or_null (get_field "initiating_agent_id" downstream)) (
            field "model_id" (value_or_null (get_field "initiating_model_id" downstream))
              (field "host_id" (value_or_null (get_field "initiating_host_id" downstream)) end)))))
]

module _ (v : Validation) (client : DataGenieClient) (principal : Principal)
    (request_id : String) where
  unfoldable pub propose : Fields → Step StructuredResult
  propose payload = do
    downstream ←
        call_client (proposed payload)
          (client.create_governance_proposal principal request_id payload)
    snapshot ← or_other (get_field "policy_snapshot" downstream)
    policy ← or_other (v.policy_packet snapshot)
    set_policy policy
    items ← or_other (list_of (get_field "source_evidence" downstream))
    evidence ← or_other (evidence_list items)
    content ← or_other (required_fields copied downstream)
    source ← or_other (initiator downstream)
    pure (
        result_of request_id (some policy) "catalog-proposal-api" (policy.evidence ++ evidence)
          (put_field "source" source content) 100
          ("confirmation_nonce:never_returned" ∷ "direct_mutation:never_performed" ∷ []) false)

  unfoldable pub create_governance_proposal : Fields → Step StructuredResult
  create_governance_proposal arguments =
      or_other (v.proposal_arguments arguments) >>= λ parsed. propose (proposal_payload parsed)

  unfoldable pub request_certification_review : Fields → Step StructuredResult
  request_certification_review arguments =
      or_other (v.certification_arguments arguments) >>= λ parsed.
      propose (certification_payload parsed)

  unfoldable pub schedule_quality_check : Fields → Step StructuredResult
  schedule_quality_check arguments =
      or_other (v.schedule_arguments arguments) >>= λ parsed. propose (schedule_payload parsed)
