-- ===== src/Quality/Rules.antt =====
-- The rules of apps/quality-api/app/services/quality_service.py, with the routes that call them in
-- app/api/v1/quality.py. The messages and the columns that the database fills in are left out.
pub mod Versions
pub mod FirstVersion
pub mod Answers
pub mod Requests
pub mod Parameters
use datagenie.Catalog.Models.{Instant}
use datagenie.Quality.Models.{
  QualityRule, QualityRuleVersion, RuleType, QualityTables, Action, RuleSeverity, severity_text,
  type_text, failure, http,
}
use datagenie.Prelude.{
  String, Option, List, Bool, some, true, ◌∷◌, not, suc, ◌++◌, put_row, find_row, ◌==◌, false,
  if◌then◌else◌, [], ◌||◌, keep, any, same_text, none, same_bool, same_number,
}
use datagenie.Quality.Numbers.{Numbers}
use datagenie.Prelude.Json.{
  Fields, field, text, text_or_null, same_value, fields_or_null, bool, end,
}
use datagenie.Prelude.Exec.{gets, pure, ◌>>◌, ◌>>=◌, raise, raised, ok}
use datagenie.Quality.Rules.Parameters.{validate_rule_parameters}
use datagenie.Prelude.Store.{update_work, flush_or, commit_or}

-- What one request draws: its clock, an identifier and the text of what the database raises.
pub record Call : Type 0 where
  pub now : Instant
  pub new_id : String
  pub broken : String

-- `_rule_definition`
unfoldable pub rule_definition : QualityRule → Fields
rule_definition rule = field "name" (text rule.name) (
    field "asset_id" (text rule.asset_id) (
      field "column_name" (text_or_null rule.column_name) (
        field "rule_type" (text (type_text rule.rule_type)) (
          field "severity" (text (severity_text rule.severity)) (
            field "owner" (text_or_null rule.owner) (
              field "parameters" (fields_or_null rule.parameters) (
                field "enabled" (bool rule.enabled)
                  (field "schedule_cron" (text_or_null rule.schedule_cron) end))))))))

pub record QualityRuleCreate : Type 0 where
  pub asset_id : String
  pub column_name : Option String
  pub name : String
  pub rule_type : RuleType
  pub severity : RuleSeverity
  pub owner : Option String
  pub parameters : Fields
  pub schedule_cron : Option String
  pub next_run_at : Option Instant

unfoldable pub new_rule : Call → QualityRuleCreate → QualityRule
new_rule call payload = record {
  id = call.new_id;
  asset_id = payload.asset_id;
  column_name = payload.column_name;
  name = payload.name;
  rule_type = payload.rule_type;
  severity = payload.severity;
  owner = payload.owner;
  parameters = some payload.parameters;
  version = 1;
  enabled = true;
  schedule_cron = payload.schedule_cron;
  next_run_at = payload.next_run_at;
}

unfoldable pub version_row : QualityRule → String → Option String → QualityRuleVersion
unfolding rule_definition
version_row rule actor reason = record {
  rule_id = rule.id;
  version = rule.version;
  definition = rule_definition rule;
  changed_by = actor;
  change_reason = reason;
}

abbrev pub add_rule : QualityRule → QualityTables → QualityTables
add_rule rule t = record t { rules = t.rules ++ rule ∷ [] }

abbrev pub add_version : QualityRuleVersion → QualityTables → QualityTables
add_version v t = record t { versions = t.versions ++ v ∷ [] }

abbrev pub write_rule : QualityRule → QualityTables → QualityTables
write_rule rule t = record t { rules = put_row (λ r. r.id) rule t.rules }

unfoldable pub get_rule_or_404 : String → Action QualityRule
get_rule_or_404 rule_id db = elim (find_row (λ r. r.id) rule_id db.work.rules) [
  | none ↦ (raised (http 404 "Quality rule not found."), db)
  | some rule ↦ (ok rule, db)
]

-- `if asset_id`: the empty text is no filter. The order of the answer is left out.
abbrev pub is_for_asset : Option String → String → Bool
is_for_asset none k = true
is_for_asset (some s) k = s == "" || k == s

unfoldable pub list_rules : Option String → Action (List QualityRule)
list_rules asset_id = gets (λ db. keep (λ r. is_for_asset asset_id r.asset_id) db.work.rules)

-- The fields that an update sets. `set_null` is a `null` for the name, the severity or `enabled`,
-- which are never null.
pub data RuleUpdate : Type 0 where
  set_name : String → RuleUpdate
  set_severity : RuleSeverity → RuleUpdate
  set_owner : Option String → RuleUpdate
  set_parameters : Option Fields → RuleUpdate
  set_enabled : Bool → RuleUpdate
  set_schedule_cron : Option String → RuleUpdate
  set_next_run_at : Option Instant → RuleUpdate
  set_null : RuleUpdate

abbrev pub set_field : RuleUpdate → QualityRule → QualityRule
set_field (set_name s) rule = record rule { name = s }
set_field (set_severity s) rule = record rule { severity = s }
set_field (set_owner o) rule = record rule { owner = o }
set_field (set_parameters ps) rule = record rule { parameters = ps }
set_field (set_enabled b) rule = record rule { enabled = b }
set_field (set_schedule_cron c) rule = record rule { schedule_cron = c }
set_field (set_next_run_at t) rule = record rule { next_run_at = t }
set_field set_null rule = rule

unfoldable pub set_fields : List RuleUpdate → QualityRule → QualityRule
set_fields [] rule = rule
set_fields (u ∷ us) rule = set_fields us (set_field u rule)

-- `getattr(rule, field) != value`
abbrev pub differs : QualityRule → RuleUpdate → Bool
differs rule (set_name s) = not (rule.name == s)
differs rule (set_severity s) = not (severity_text rule.severity == severity_text s)
differs rule (set_owner o) = not (same_text rule.owner o)
differs rule (set_parameters ps) =
    not (same_value (fields_or_null rule.parameters) (fields_or_null ps))
differs rule (set_enabled b) = not (same_bool rule.enabled b)
differs rule (set_schedule_cron c) = not (same_text rule.schedule_cron c)
differs rule (set_next_run_at t) = not (same_number rule.next_run_at t)
differs rule set_null = true

abbrev pub is_null : RuleUpdate → Bool
is_null set_null = true
is_null _ = false

-- A null that is no parameters' is refused before the commit: by `_rule_definition` or by the flush.
abbrev pub bump : QualityRule → List RuleUpdate → QualityRule
bump rule updates =
    (let updated = set_fields updates rule in record updated { version = suc updated.version })

module _ {W : Type 0} (nums : Numbers W) where
  unfoldable pub create_rule : Call → QualityRuleCreate → String → Action QualityRule
  create_rule call payload actor = do
    validate_rule_parameters nums payload.rule_type payload.parameters
    update_work (add_rule (new_rule call payload))
    flush_or (failure call.broken)
    update_work
        (add_version (version_row (new_rule call payload) actor (some "initial definition")))
    commit_or (failure call.broken)
    pure (new_rule call payload)

  -- The parameters of an update, checked unless they are null.
  abbrev pub validate_update : QualityRule → RuleUpdate → Action (Unit {0})
  validate_update rule (set_parameters (some ps)) = validate_rule_parameters nums rule.rule_type ps
  validate_update rule _ = pure tt

  unfoldable pub validate_updates : QualityRule → List RuleUpdate → Action (Unit {0})
  validate_updates rule [] = pure tt
  validate_updates rule (u ∷ us) = validate_update rule u >> validate_updates rule us

-- The body of `if changed`.
unfoldable pub write_update :
    Call → QualityRule → List RuleUpdate → Option String → String → Action QualityRule
write_update call rule updates reason actor =
    if any is_null updates
    then raise (failure call.broken)
    else (update_work (write_rule (bump rule updates))
        >> update_work (add_version (version_row (bump rule updates) actor reason))
        >> commit_or (failure call.broken)
        >> pure (bump rule updates))

module _ {W : Type 0} (nums : Numbers W) where
  unfoldable pub update_rule :
      Call → QualityRule → List RuleUpdate → Option String → String → Action QualityRule
  update_rule call rule updates reason actor =
      validate_updates nums rule updates
      >> (if any (differs rule) updates
          then write_update call rule updates reason actor
          else pure rule)

  -- The route: the rule that the session has, then its update.
  unfoldable pub patch_quality_rule :
      Call → String → List RuleUpdate → Option String → String → Action QualityRule
  patch_quality_rule call rule_id updates reason actor =
      get_rule_or_404 rule_id >>= λ rule. update_rule call rule updates reason actor
