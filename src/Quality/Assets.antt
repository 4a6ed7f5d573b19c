-- ===== src/Quality/Assets.antt =====
-- The profiles, contexts and runs of an asset in apps/quality-api/app/services/quality_service.py,
-- and the coverage of the critical assets.
pub mod Coverage
use datagenie.Prelude.{
  String, Option, some, find_row, put_row, if◌then◌else◌, ◌++◌, List, none, ◌∷◌, false, [], keep,
}
use datagenie.Quality.Models.{
  QualityRun, AssetQualityProfile, AssetQualityContext, BusinessCriticality, Db, QualityTables,
  RunTrigger, Action, under_review, CertificationStatus, RunStatus, http, failure,
}
use datagenie.Prelude.Json.{Fields, end}
use datagenie.Prelude.Exec.{ok, raised, gets, ◌>>◌, pure, ◌>>=◌}
use datagenie.Quality.RuleEngine.Evaluations.{is_empty_fields}
use datagenie.Prelude.Store.{update_work, flush_or, commit_or}
use datagenie.Quality.Rules.{is_for_asset, Call}
use datagenie.Catalog.Models.{Instant}

unfoldable pub get_profile : String → Db → Option AssetQualityProfile
get_profile asset_id db = find_row (λ p. p.asset_id) asset_id db.work.profiles

unfoldable pub get_run : String → Db → Option QualityRun
get_run run_id db = find_row (λ r. r.id) run_id db.work.runs

abbrev pub write_run : QualityRun → QualityTables → QualityTables
write_run run t = record t { runs = put_row (λ r. r.id) run t.runs }

abbrev pub write_profile : AssetQualityProfile → QualityTables → QualityTables
write_profile p t = record t { profiles = put_row (λ q. q.asset_id) p t.profiles }

abbrev pub write_context : AssetQualityContext → QualityTables → QualityTables
write_context c t = record t { contexts = put_row (λ d. d.asset_id) c t.contexts }

-- `profile_snapshot or (dict(profile.snapshot) if profile else {})`
abbrev pub effective_snapshot : Fields → Option AssetQualityProfile → Fields
effective_snapshot snapshot none = snapshot
effective_snapshot snapshot (some p) = if is_empty_fields snapshot then p.snapshot else snapshot

unfoldable pub new_run : String → String → RunTrigger → String → Fields → QualityRun
new_run id asset_id trigger requested_by snapshot = record {
  id = id;
  asset_id = asset_id;
  status = RunStatus.queued;
  trigger = trigger;
  requested_by = requested_by;
  profile_snapshot = snapshot;
  effective_rule_versions = end;
  technical_score = none;
  explainable = false;
  error_message = none;
  started_at = none;
  completed_at = none;
}

abbrev pub add_run : QualityRun → QualityTables → QualityTables
add_run run t = record t { runs = t.runs ++ run ∷ [] }

unfoldable pub create_quality_run : Call → String → Fields → RunTrigger → String → Action QualityRun
create_quality_run call asset_id snapshot trigger requested_by = do
  profile ← gets (get_profile asset_id)
  let run = new_run call.new_id asset_id trigger requested_by (effective_snapshot snapshot profile)
  update_work (add_run run)
  commit_or (failure call.broken)
  pure run

abbrev pub found_or_404 : {A : Type 0} → String → (Db → Option A) → Action A
found_or_404 detail look db = elim (look db) [
  | none ↦ (raised (http 404 detail), db)
  | some a ↦ (ok a, db)
]

unfoldable pub get_run_or_404 : String → Action QualityRun
get_run_or_404 run_id = found_or_404 "Quality run not found." (get_run run_id)

unfoldable pub list_runs : Option String → Action (List QualityRun)
list_runs asset_id = gets (λ db. keep (λ r. is_for_asset asset_id r.asset_id) db.work.runs)

unfoldable pub get_profile_or_404 : String → Action AssetQualityProfile
get_profile_or_404 asset_id =
    found_or_404 "Quality profile not found for asset." (get_profile asset_id)

-- The table after an upsert of the profile: a new row, or the old one written over.
abbrev pub put_profile :
    Option AssetQualityProfile → AssetQualityProfile → QualityTables → QualityTables
put_profile none p t = record t { profiles = t.profiles ++ p ∷ [] }
put_profile (some _) p t = write_profile p t

unfoldable pub upsert_profile :
    Call → String → Fields → Instant → String → Action AssetQualityProfile
upsert_profile call asset_id snapshot observed_at profiled_by = do
  profile ← gets (get_profile asset_id)
  let row : AssetQualityProfile = record {
    asset_id = asset_id;
    snapshot = snapshot;
    observed_at = observed_at;
    profiled_by = profiled_by;
  }
  update_work (put_profile profile row)
  commit_or (failure call.broken)
  pure row

unfoldable pub new_context : String → AssetQualityContext
new_context asset_id = record {
  asset_id = asset_id;
  business_criticality = BusinessCriticality.medium;
  certification_status = under_review;
  accountable_owner = none;
  latest_explainable_run_at = none;
  latest_technical_score = none;
}

abbrev pub add_context : AssetQualityContext → QualityTables → QualityTables
add_context c t = record t { contexts = t.contexts ++ c ∷ [] }

unfoldable pub find_context : String → Db → Option AssetQualityContext
find_context asset_id db = find_row (λ c. c.asset_id) asset_id db.work.contexts

unfoldable pub get_or_create_context : String → String → Action AssetQualityContext
get_or_create_context broken asset_id db = elim (find_context asset_id db) [
  | some context ↦ (ok context, db)
  | none ↦
      (update_work (add_context (new_context asset_id))
          >> flush_or (failure broken)
          >> pure (new_context asset_id))
        db
]

pub record AssetQualityContextUpsert : Type 0 where
  pub business_criticality : BusinessCriticality
  pub certification_status : CertificationStatus
  pub accountable_owner : Option String

unfoldable pub upsert_context :
    Call → String → AssetQualityContextUpsert → Action AssetQualityContext
upsert_context call asset_id payload = do
  context ← get_or_create_context call.broken asset_id
  let row = record context {
    business_criticality = payload.business_criticality;
    certification_status = payload.certification_status;
    accountable_owner = payload.accountable_owner;
  }
  update_work (write_context row)
  commit_or (failure call.broken)
  pure row

-- The route: `get_context` and the commit.
unfoldable pub get_quality_context : Call → String → Action AssetQualityContext
get_quality_context call asset_id = do
  context ← get_or_create_context call.broken asset_id
  commit_or (failure call.broken)
  pure context
