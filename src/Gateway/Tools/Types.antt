-- ===== src/Gateway/Tools/Types.antt =====
-- What the tools of apps/mcp-gateway/app/services/tool_execution.py work with: app/schemas.py, the
-- ledger's rows of app/services/execution_ledger.py, the settings, and the client of the other
-- services, whose calls over HTTP are a parameter.
use datagenie.Prelude.{String, Option, Bool, List, ℕ}
use datagenie.Policy.Decision.{PolicyOutcome}
use datagenie.Prelude.Json.{Fields, Items, Value}
use datagenie.Prelude.Exec.{Result}

pub record Principal : Type 0 where
  pub subject : String
  pub tenant_id : String
  pub scopes : List String
  pub host_id : String

pub record PolicyEvidence : Type 0 where
  pub type : String
  pub reference : String

pub record PolicyPacket : Type 0 where
  pub outcome : PolicyOutcome
  pub evidence : List PolicyEvidence
  pub obligations : List String

pub record Provenance : Type 0 where
  pub source : String
  pub source_request_id : String

-- The confidence is in hundredths; the two times of the result are left out.
pub record StructuredResult : Type 0 where
  pub request_id : String
  pub provenance : List Provenance
  pub evidence : List PolicyEvidence
  pub policy : Option PolicyPacket
  pub obligations : List String
  pub confidence : ℕ
  pub redactions : List String
  pub truncated : Bool
  pub content : Fields  -- `data`

pub data Outcome : Type 0 where
  allowed denied error : Outcome

pub record LedgerRecord : Type 0 where
  pub invocation_id : String
  pub request_id : String
  pub tenant_id : String
  pub actor_subject : String
  pub host_id : String
  pub operation_name : String
  pub input_digest : String
  pub policy_outcome : Option PolicyOutcome
  pub outcome : Outcome
  pub result_count : ℕ
  pub result_bytes : ℕ
  pub error_code : Option String

-- The arguments of the tools, after their validation.
pub record AssetArguments : Type 0 where
  pub asset_id : String
  pub purpose : String
  pub includes : List String

pub record QualityArguments : Type 0 where
  pub asset_id : String
  pub purpose : String
  pub history_limit : ℕ

pub record LineageArguments : Type 0 where
  pub asset_id : String
  pub purpose : String
  pub direction : String
  pub depth : ℕ

pub record ProposalArguments : Type 0 where
  pub proposal_type : String
  pub asset_id : String
  pub title : String
  pub proposal_text : String
  pub purpose : String
  pub diff : Fields
  pub evidence : Items
  pub impact : Fields
  pub technical_version : ℕ
  pub agent_id : Option String
  pub model_id : Option String
  pub expires_in_seconds : ℕ

pub record CertificationReviewArguments : Type 0 where
  pub asset_id : String
  pub purpose : String
  pub note : Option String
  pub evidence : Items
  pub technical_version : ℕ
  pub agent_id : Option String
  pub model_id : Option String

pub record QualityScheduleArguments : Type 0 where
  pub asset_id : String
  pub purpose : String
  pub frequency : String
  pub rule_types : List String
  pub evidence : Items
  pub technical_version : ℕ
  pub agent_id : Option String
  pub model_id : Option String

-- What is raised inside the `try`: `HTTPException` with its code, the two exceptions of the client,
-- `McpToolError`, or anything else.
pub data Raised : Type 0 where
  http : Option String → ℕ → Raised
  downstream_forbidden : Raised
  downstream_unavailable : Raised
  tool_error : String → ℕ → Raised
  other : Raised

-- What `execute` raises: `McpToolError` with its code and status, or the `HTTPException` of
-- `require_scope`.
pub data ToolRefusal : Type 0 where
  mcp_tool_error : String → ℕ → ToolRefusal
  http_exception : ℕ → String → ToolRefusal

-- A call of another service, as far as it is told apart here.
pub data ClientCall : Type 0 where
  searched : ClientCall
  evaluated : String → ClientCall
  read_context : String → ClientCall
  read_quality : String → ClientCall
  read_lineage : String → ClientCall
  proposed : Fields → ClientCall

pub record DataGenieClient : Type 0 where
  pub search_assets : Principal → String → Fields → Result Raised Fields
  pub evaluate_policy : Principal → String → String → String → Result Raised PolicyPacket
  pub asset_context : Principal → String → String → String → Result Raised Fields
  pub quality_evidence : Principal → String → String → String → ℕ → Result Raised Fields
  pub lineage_impact : Principal → String → String → String → ℕ → String → Result Raised Fields
  pub create_governance_proposal : Principal → String → Fields → Result Raised Fields

-- The validation of arguments and packets by pydantic (`none`: it raises), and the texts and sizes
-- that the standard library makes.
pub record Validation : Type 0 where
  pub search_arguments : Fields → Option Fields
  pub asset_arguments : Fields → Option AssetArguments
  pub quality_arguments : Fields → Option QualityArguments
  pub lineage_arguments : Fields → Option LineageArguments
  pub proposal_arguments : Fields → Option ProposalArguments
  pub certification_arguments : Fields → Option CertificationReviewArguments
  pub schedule_arguments : Fields → Option QualityScheduleArguments
  pub fraction_above : String → ℕ → Bool  -- `value > n`
  pub policy_packet : Value → Option PolicyPacket
  pub digest : Fields → String
  pub serialized_size : StructuredResult → ℕ

pub record Settings : Type 0 where
  pub mcp_kill_switch_enabled : Bool
  pub mcp_disabled_tools : List String
  pub mcp_max_lineage_nodes : ℕ

-- The local variables of `execute` that outlive an exception, and the calls made so far.
pub record Progress : Type 0 where
  pub policy : Option PolicyPacket
  pub calls : List ClientCall

-- The calls made, the ledger, and whether its next write raises: it is read off a list.
pub record Gateway : Type 0 where
  pub calls : List ClientCall
  pub ledger : List LedgerRecord
  pub faults : List Bool
