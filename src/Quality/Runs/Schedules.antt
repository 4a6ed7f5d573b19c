-- ===== src/Quality/Runs/Schedules.antt =====
-- `dispatch_due_schedules` of apps/quality-api/app/services/execution_service.py. The runs' ids are
-- drawn by the rules'.
use datagenie.Prelude.{
  Option, Bool, String, false, ◌&&◌, some, List, true, leb, ◌+◌, none, none, ◌∷◌, keep, [],
}
use datagenie.Catalog.Models.{Instant}
use datagenie.Quality.Numbers.{Numbers}
use datagenie.Quality.Models.{
  QualityRule, AssetQualityProfile, Action, QualityRun, scheduled, failure,
}
use datagenie.Prelude.Json.{Fields, field, text, end}
use datagenie.Prelude.Exec.{pure, ◌>>=◌, gets, ◌>>◌}
use datagenie.Quality.Assets.{get_profile, new_run, add_run}
use datagenie.Prelude.Store.{commit_or, update_work}
use datagenie.Quality.Rules.{write_rule}

abbrev pub is_given : {A : Type 0} → Option A → Bool
is_given none = false
is_given (some _) = true

abbrev pub is_reached : Instant → Option Instant → Bool
is_reached now none = false
is_reached now (some t) = leb t now

abbrev pub is_due : Instant → QualityRule → Bool
is_due now rule = rule.enabled && is_given rule.schedule_cron && is_reached now rule.next_run_at

-- `{"scheduled_at": …, "profile_provider": "missing"}`, where there is no profile
abbrev pub scheduled_snapshot :
    {W : Type 0} → Numbers W → Instant → Option AssetQualityProfile → Fields
scheduled_snapshot nums now (some p) = p.snapshot
scheduled_snapshot nums now none =
    field "scheduled_at" (text (nums.iso now)) (field "profile_provider" (text "missing") end)

abbrev pub postponed : Instant → QualityRule → QualityRule
postponed now rule = record rule { next_run_at = some (now + 86400000000) }

module _ {W : Type 0} (nums : Numbers W) (now : Instant) (run_id : String → String) where
  -- The body of the loop.
  unfoldable pub schedule_rule : QualityRule → Action QualityRun
  schedule_rule rule = do
    profile ← gets (get_profile rule.asset_id)
    let run =
        new_run (run_id rule.id) rule.asset_id scheduled "quality-scheduler"
          (scheduled_snapshot nums now profile)
    update_work (add_run run)
    update_work (write_rule (postponed now rule))
    pure run

  unfoldable pub schedule_rules : List QualityRule → Action (List QualityRun)
  schedule_rules [] = pure []
  schedule_rules (rule ∷ rules) = do
    run ← schedule_rule rule
    runs ← schedule_rules rules
    pure (run ∷ runs)

  unfoldable pub dispatch_due_schedules : String → Action (List QualityRun)
  dispatch_due_schedules broken = do
    rules ← gets (λ db. keep (is_due now) db.work.rules)
    runs ← schedule_rules rules
    commit_or (failure broken)
    pure runs
