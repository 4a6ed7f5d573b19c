-- ===== src/Quality/Rules/Parameters.antt =====
-- `validate_rule_parameters` of apps/quality-api/app/services/quality_service.py.
use datagenie.Quality.Models.{
  RuleType, QualityError, http, Action, completeness, uniqueness, validity, freshness,
  referential_integrity, distribution_anomaly,
}
use datagenie.Prelude.Json.{
  Value, Fields, int, negative, field, fraction, get_field, has_field, end,
}
use datagenie.Quality.Numbers.{Numbers, is_number}
use datagenie.Prelude.{String, Bool, true, Option, leb, ◌&&◌, if◌then◌else◌, some, false, not, none}
use datagenie.Prelude.Exec.{ok, raised}

abbrev pub required : RuleType → String
required completeness = "minimum_ratio"
required uniqueness = "minimum_ratio"
required validity = "minimum_ratio"
required freshness = "maximum_age_minutes"
required referential_integrity = "maximum_orphan_ratio"
required distribution_anomaly = "maximum_z_score"

abbrev pub all_fields : (Value → Bool) → Fields → Bool
all_fields p end = true
all_fields p (field k v fs) = p v && all_fields p fs

-- A test of the value of a key, if the key is there.
abbrev pub if_given : (Value → Bool) → Option Value → Bool
if_given p none = true
if_given p (some v) = p v

abbrev pub invalid_rule_parameters : QualityError
invalid_rule_parameters = http 422 "invalid_rule_parameters"

module _ {W : Type 0} (nums : Numbers W) where
  -- `0 <= value <= 1` and `value < 0`, of numbers
  abbrev pub in_ratio : Value → Bool
  in_ratio (int n) = leb n 1
  in_ratio (fraction s) = nums.non_negative s && nums.at_most_one s
  in_ratio _ = false

  abbrev pub is_negative : Value → Bool
  is_negative (negative n) = true
  is_negative (fraction s) = not (nums.non_negative s)
  is_negative _ = false

  -- The tests after the missing parameters, all of which raise the same.
  unfoldable pub are_valid : Fields → Bool
  are_valid ps =
      all_fields is_number ps
      && if_given in_ratio (get_field "minimum_ratio" ps)
      && if_given in_ratio (get_field "maximum_orphan_ratio" ps)
      && if_given (λ v. not (is_negative v)) (get_field "maximum_age_minutes" ps)
      && if_given (λ v. not (is_negative v)) (get_field "maximum_z_score" ps)

  unfoldable pub validate_rule_parameters : RuleType → Fields → Action (Unit {0})
  validate_rule_parameters rule_type ps db = (
    if has_field (required rule_type) ps && are_valid ps
        then ok tt
        else raised invalid_rule_parameters,
    db,
  )
