-- ===== src/Catalog/Models.antt =====
-- The rows of apps/catalog-api/app/models/catalog.py that the modelled services read or write.
-- An instant is the number of microseconds since the epoch. `created_at` and `updated_at`, which
-- the database layer fills in, are left out where no modelled code reads them.
use datagenie.Prelude.{ℕ, ◌*◌, String, Bool, Option, List}
use datagenie.Prelude.Json.{Value, Fields}
use datagenie.Prelude.Text.{Codes}

abbrev pub Instant : Type 0
Instant = ℕ

abbrev pub seconds : ℕ → ℕ
seconds n = n * 1000000

pub data SourceType : Type 0 where
  postgresql snowflake : SourceType

pub data SyncMode : Type 0 where
  incremental full : SyncMode

pub data SourceStatus : Type 0 where
  active paused error : SourceStatus

pub data JobStatus : Type 0 where
  queued running succeeded failed cancelled dead_letter : JobStatus

pub data AssetType : Type 0 where
  database schema table view : AssetType

pub data LifecycleStatus : Type 0 where
  under_review certified deprecated : LifecycleStatus

pub data ChangeSource : Type 0 where
  discovery curation : ChangeSource

pub data UsageDecisionStatus : Type 0 where
  pending approved rejected : UsageDecisionStatus

pub data ProposalType : Type 0 where
  asset_curation certification_review_request quality_check_schedule : ProposalType

pub data ProposalStatus : Type 0 where
  pending_review approved rejected cancelled expired executed blocked : ProposalStatus

pub data ScheduleStatus : Type 0 where
  pending ready cancelled : ScheduleStatus

pub record AssetColumn : Type 0 where
  pub name : String
  pub ordinal_position : ℕ
  pub data_type : String
  pub is_nullable : Bool
  pub default_value : Option String
  pub technical_description : Option String

pub record Asset : Type 0 where
  pub id : String
  pub tenant_id : String
  pub source_id : String
  pub asset_type : AssetType
  pub qualified_name : String
  pub name : String
  pub database_name : Option String
  pub schema_name : Option String
  pub technical_description : Option String
  pub technical_metadata : Value
  pub row_count : Option ℕ
  pub last_discovered_at : Instant
  pub freshness_at : Option Instant
  pub technical_version : ℕ
  pub description : Option String
  pub tags : Value
  pub owner : Option String
  pub classification : Option String
  pub domain_id : Option String
  pub quality_score : Option ℕ
  pub quality_explainable_at : Option Instant
  pub lifecycle_status : LifecycleStatus
  pub curated_at : Option Instant
  pub columns : List AssetColumn

pub record AssetMetadataVersion : Type 0 where
  pub asset_id : String
  pub change_source : ChangeSource
  pub actor : String
  pub changed_fields : Value

pub record GovernanceDomain : Type 0 where
  pub id : String
  pub tenant_id : String
  pub data_steward : Option String

pub record ClassificationFinding : Type 0 where
  pub id : String
  pub tenant_id : String
  pub asset_id : String

pub record CertificationRequest : Type 0 where
  pub id : String
  pub tenant_id : String
  pub asset_id : String
  pub requested_by : String
  pub status : UsageDecisionStatus
  pub decision_by : Option String
  pub decision_note : Value
  pub decided_at : Option Instant

pub record AuditEvent : Type 0 where
  pub id : String
  pub actor_subject : Option String
  pub actor_roles : List String
  pub action : String
  pub resource_type : String
  pub resource_id : Option String
  pub outcome : String
  pub request_id : String
  pub metadata_json : Value

pub record QualityCheckScheduleRequest : Type 0 where
  pub id : String
  pub tenant_id : String
  pub proposal_id : String
  pub asset_id : String
  pub requested_by : String
  pub schedule : Value
  pub status : ScheduleStatus

pub record DataSource : Type 0 where
  pub id : String
  pub tenant_id : String
  pub name : String
  pub source_type : SourceType
  pub status : SourceStatus
  pub last_synced_at : Option Instant

pub record IngestionJob : Type 0 where
  pub id : String
  pub tenant_id : String
  pub source_id : String
  pub status : JobStatus
  pub attempt_count : ℕ
  pub retry_of_job_id : Option String
  pub task_id : Option String
  pub cancel_requested : Bool
  pub dead_lettered_at : Option Instant
  pub next_retry_at : Option Instant
  pub lease_expires_at : Option Instant
  pub requested_sync_mode : SyncMode
  pub effective_sync_mode : Option SyncMode
  pub cursor_before : Fields
  pub cursor_after : Fields
  pub connector_strategy : Option String
  pub warnings : List String
  pub discovery_stats : Fields
  pub error_message : Option String
  pub started_at : Option Instant
  pub completed_at : Option Instant

pub record SourceSyncState : Type 0 where
  pub source_id : String
  pub tenant_id : String
  pub cursor : Fields
  pub last_successful_job_id : Option String
  pub last_successful_at : Option Instant
  pub last_full_sync_at : Option Instant
  pub last_incremental_sync_at : Option Instant

pub record SearchDocument : Type 0 where
  pub tenant_id : String
  pub asset_id : String
  pub document : Codes
  pub facets : Value
  pub indexed_at : Instant

pub record IdempotencyRecord : Type 0 where
  pub id : String
  pub tenant_id : String
  pub principal_subject : String
  pub idempotency_key : Codes
  pub method : String
  pub path : String
  pub request_hash : String
  pub status_code : ℕ
  pub response_body : Value
  pub expires_at : Instant

pub record GovernanceProposal : Type 0 where
  pub id : String
  pub tenant_id : String
  pub proposal_type : ProposalType
  pub resource_type : String
  pub resource_id : String
  pub title : String
  pub proposal_text : String
  pub change_diff : Fields
  pub source_evidence : Value
  pub impact : Value
  pub source_channel : String
  pub initiating_subject : String
  pub initiating_agent_id : Option String
  pub initiating_model_id : Option String
  pub initiating_host_id : Option String
  pub source_request_id : String
  pub policy_snapshot : Fields
  pub version_preconditions : Fields
  pub proposal_hash : String
  pub status : ProposalStatus
  pub expires_at : Instant
  pub approved_by : Option String
  pub approved_at : Option Instant
  pub rejected_by : Option String
  pub rejected_at : Option Instant
  pub cancelled_by : Option String
  pub cancelled_at : Option Instant
  pub review_note : Option String
  pub approval_version : ℕ
  pub confirmation_nonce_digest : Option String
  pub confirmation_expires_at : Option Instant
  pub execution_attempts : ℕ
  pub executed_by : Option String
  pub executed_at : Option Instant
  pub execution_outcome : Option String
  pub blocked_reason : Option String
  pub audit_event_id : Option String
