-- ===== src/Tests/Fixtures.antt =====
-- A small catalog: one asset, one pending proposal on it, a steward, an analyst and an owner.
use Prim.Native.String.{◌++◌ as concat}
use datagenie.Catalog.Session.{Env, Request, Tables, Db}
use datagenie.Catalog.Principals.{Principal}
use datagenie.Catalog.Models.{
  Asset, GovernanceProposal, seconds, AssetType, ProposalType, ProposalStatus, certified,
}
use datagenie.Prelude.{List, [], Bool, some, true, none, false, ◌∷◌}
use datagenie.Prelude.Json.{int, field, text, null, end, array, nil, object}

abbrev pub env : Env
env = record {
  sha256 = λ s. concat "sha256:" s;
  dumps = λ v. "canonical";
  decimal = λ n. "n";
  isoformat = λ t. "t";
  store_text = λ v. elim v [ null ↦ some none | text s ↦ some (some s) | _ ↦ none ];
  json_tracked = false;
}

abbrev pub req : Request
req = record {
  request_id = "r-1";
  now = seconds 1000000;
  duration_ms = int 3;
  policy_event_id = "e-1";
  event_id = "e-2";
  new_id = "n-1";
  nonce = "nonce";
}

abbrev pub steward : Principal
steward = record { subject = "sue"; tenant_id = "acme"; roles = "data_steward" ∷ [] }

abbrev pub analyst : Principal
analyst = record { subject = "ann"; tenant_id = "acme"; roles = "analyst" ∷ [] }

abbrev pub owner : Principal
owner = record { subject = "olga"; tenant_id = "acme"; roles = "data_owner" ∷ [] }

abbrev pub orders : Asset
orders = record {
  id = "a-1";
  tenant_id = "acme";
  source_id = "s-1";
  asset_type = AssetType.table;
  qualified_name = "shop.orders";
  name = "orders";
  database_name = some "shop";
  schema_name = none;
  technical_description = none;
  technical_metadata = null;
  row_count = some 10;
  last_discovered_at = 0;
  freshness_at = none;
  technical_version = 2;
  description = none;
  tags = array nil;
  owner = some "olga";
  classification = some "Internal, EMAIL_ADDRESS";
  domain_id = none;
  quality_score = none;
  quality_explainable_at = none;
  lifecycle_status = certified;
  curated_at = none;
  columns = [];
}

abbrev pub proposal : GovernanceProposal
proposal = record {
  id = "p-1";
  tenant_id = "acme";
  proposal_type = ProposalType.asset_curation;
  resource_type = "asset";
  resource_id = "a-1";
  title = "Describe orders";
  proposal_text = "Orders need a description";
  change_diff = field "description" (text "All orders") end;
  source_evidence = array nil;
  impact = object end;
  source_channel = "mcp";
  initiating_subject = "ann";
  initiating_agent_id = none;
  initiating_model_id = none;
  initiating_host_id = none;
  source_request_id = "r-0";
  policy_snapshot = end;
  version_preconditions = field "technical_version" (int 2) end;
  proposal_hash = "hash";
  status = ProposalStatus.pending_review;
  expires_at = seconds 2000000;
  approved_by = none;
  approved_at = none;
  rejected_by = none;
  rejected_at = none;
  cancelled_by = none;
  cancelled_at = none;
  review_note = none;
  approval_version = 0;
  confirmation_nonce_digest = none;
  confirmation_expires_at = none;
  execution_attempts = 0;
  executed_by = none;
  executed_at = none;
  execution_outcome = none;
  blocked_reason = none;
  audit_event_id = none;
}

abbrev pub approved_proposal : GovernanceProposal
approved_proposal = record proposal {
  status = ProposalStatus.approved;
  approved_by = some "sue";
  confirmation_nonce_digest = some "sha256:nonce";
  confirmation_expires_at = some (seconds 1000900);
}

abbrev pub tables_with : List Asset → List GovernanceProposal → Tables
tables_with assets proposals = record {
  assets = assets;
  domains = [];
  findings = [];
  certifications = [];
  proposals = proposals;
  schedules = [];
  versions = [];
  audit_events = [];
  sources = [];
  jobs = [];
  sync_states = [];
  documents = [];
  idempotency_records = [];
}

abbrev pub db_with : Tables → List Bool → Db
db_with tables faults = record {
  tenant = "acme";
  isolation = true;
  work = tables;
  saved = tables;
  faults = faults;
}

abbrev pub db : Db
db = db_with (tables_with (orders ∷ []) (proposal ∷ [])) []

abbrev pub approved_db : Db
approved_db = db_with (tables_with (orders ∷ []) (approved_proposal ∷ [])) []
