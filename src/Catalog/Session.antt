-- ===== src/Catalog/Session.antt =====
-- The tenant-scoped database session of apps/catalog-api/app/db/session.py, as far as the
-- services use it: rows are read under the session's tenant, writes stay in the working copy of
-- the tables until a commit, and a rollback returns to what was committed. Whether the next
-- flush or commit raises is the database's choice: it is read off a list.
use datagenie.Prelude.{
  ◌==◌, String, Bool, true, false, not, ◌||◌, Option, none, some, List, [], ◌∷◌, find_row, put_row,
  if◌then◌else◌,
}
use datagenie.Prelude.Exec.{ok, raised, Exec}
use datagenie.Prelude.Json.{Value}
use datagenie.Catalog.Models.{
  Instant, Asset, AssetMetadataVersion, GovernanceDomain, ClassificationFinding,
  CertificationRequest, AuditEvent, QualityCheckScheduleRequest, GovernanceProposal, DataSource,
  IngestionJob, SourceSyncState, IdempotencyRecord, SearchDocument,
}
use Prim.Native.Nat.{ℕ}

pub record Tables : Type 0 where
  pub assets : List Asset
  pub domains : List GovernanceDomain
  pub findings : List ClassificationFinding
  pub certifications : List CertificationRequest
  pub proposals : List GovernanceProposal
  pub schedules : List QualityCheckScheduleRequest
  pub versions : List AssetMetadataVersion
  pub audit_events : List AuditEvent
  pub sources : List DataSource
  pub jobs : List IngestionJob
  pub sync_states : List SourceSyncState
  pub documents : List SearchDocument
  pub idempotency_records : List IdempotencyRecord

pub record Db : Type 0 where
  pub tenant : String  -- `session_tenant_id`
  pub isolation : Bool  -- `settings.tenant_isolation_enabled`
  pub work : Tables
  pub saved : Tables
  pub faults : List Bool  -- `true`: the next flush or commit raises

-- What a call raises: `HTTPException` with its status and code, `PolicyEvaluationError`, or
-- anything else.
pub data Error : Type 0 where
  http : ℕ → String → Error
  policy_evaluation : Error
  other : Error

-- What the environment gives: sha256, the canonical JSON text of a value, the texts of numbers
-- and instants, what the database driver stores of a value in a nullable text column (`none`:
-- the flush raises), and whether a change inside a loaded JSON column is written back.
pub record Env : Type 0 where
  pub sha256 : String → String
  pub dumps : Value → String
  pub decimal : ℕ → String
  pub isoformat : Instant → String
  pub store_text : Value → Option (Option String)
  pub json_tracked : Bool

-- What one request draws: its clock, its identifiers and its random texts.
pub record Request : Type 0 where
  pub request_id : String
  pub now : Instant
  pub duration_ms : Value
  pub policy_event_id : String
  pub event_id : String
  pub new_id : String
  pub nonce : String

abbrev pub Action : Type 0 → Type 0
Action A = Exec Db Error A

-- `if test: raise …`
abbrev pub raise_if : Bool → Error → Action (Unit {0})
raise_if b e db = (if b then raised e else ok tt, db)

-- The predicate that `apply_tenant_scope` adds to every select.
abbrev pub in_scope : Db → String → Bool
in_scope db tenant_id = not db.isolation || tenant_id == db.tenant

-- `TenantSession.get`; `id` is the primary key.
unfoldable pub scoped : {A : Type 0} → (A → String) → (String → Bool) → Option A → Option A
scoped tenant_of visible none = none
scoped tenant_of visible (some r) = if visible (tenant_of r) then some r else none

unfoldable pub get_asset : String → Db → Option Asset
unfolding scoped
get_asset k db = scoped (λ a. a.tenant_id) (in_scope db) (find_row (λ a. a.id) k db.work.assets)

unfoldable pub get_domain : Option String → Db → Option GovernanceDomain
unfolding scoped
get_domain domain_id db = elim domain_id [
  | none ↦ none
  | some k ↦ scoped (λ d. d.tenant_id) (in_scope db) (find_row (λ d. d.id) k db.work.domains)
]

unfoldable pub get_finding : String → Db → Option ClassificationFinding
unfolding scoped
get_finding k db = scoped (λ f. f.tenant_id) (in_scope db) (find_row (λ f. f.id) k db.work.findings)

unfoldable pub get_certification : String → Db → Option CertificationRequest
unfolding scoped
get_certification k db =
    scoped (λ c. c.tenant_id) (in_scope db) (find_row (λ c. c.id) k db.work.certifications)

unfoldable pub get_proposal : String → Db → Option GovernanceProposal
unfolding scoped
get_proposal k db =
    scoped (λ p. p.tenant_id) (in_scope db) (find_row (λ p. p.id) k db.work.proposals)

abbrev pub update_tables : (Tables → Tables) → Action (Unit {0})
update_tables f db = (ok tt, record db { work = f db.work })

-- An attribute of a loaded row is set.
unfoldable pub write_proposal : GovernanceProposal → Action (Unit {0})
write_proposal p = update_tables λ t. record t { proposals = put_row (λ q. q.id) p t.proposals }

unfoldable pub write_asset : Asset → Action (Unit {0})
write_asset a = update_tables λ t. record t { assets = put_row (λ b. b.id) a t.assets }

unfoldable pub flush : Action (Unit {0})
flush db = elim db.faults [
  | [] ↦ (ok tt, db)
  | true ∷ fs ↦ (raised other, record db { faults = fs })
  | false ∷ fs ↦ (ok tt, record db { faults = fs })
]

unfoldable pub commit : Action (Unit {0})
commit db = elim db.faults [
  | [] ↦ (ok tt, record db { saved = db.work })
  | true ∷ fs ↦ (raised other, record db { faults = fs })
  | false ∷ fs ↦ (ok tt, record db { saved = db.work; faults = fs })
]

unfoldable pub rollback : Action (Unit {0})
rollback db = (ok tt, record db { work = db.saved })
