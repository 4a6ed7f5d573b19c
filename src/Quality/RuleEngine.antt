-- ===== src/Quality/RuleEngine.antt =====
-- `evaluate_rule` of apps/quality-api/app/services/rule_engine.py.
pub mod Evaluations
pub mod Steps
pub mod Scoped
pub mod Verdict
use datagenie.Quality.Models.{
  RuleType, QualityRule, completeness, uniqueness, validity, freshness, referential_integrity,
  distribution_anomaly,
}
use datagenie.Quality.Numbers.{Numbers, as_number}
use datagenie.Quality.RuleEngine.Steps.{
  ratio_rule, freshness_rule, anomaly_rule, with_counts, with_orphans,
}
use datagenie.Quality.RuleEngine.Evaluations.{
  scope, not_evaluable, Evaluation, and_then, is_empty_fields, join, value_or_null, scope_text,
}
use datagenie.Prelude.Json.{Fields, get_field, put_field}
use datagenie.Prelude.{Option, if◌then◌else◌, true, some, ◌∷◌, false, []}
use datagenie.Catalog.Models.{Instant}

module _ {W : Type 0} (nums : Numbers W) where
  -- The branches of `evaluate_rule`, with the profile of the scope and the number of rows.
  unfoldable pub evaluate_type :
      RuleType → QualityRule → Fields → Fields → Option W → Instant → Option Evaluation
  unfolding ratio_rule freshness_rule anomaly_rule as_number
  evaluate_type completeness rule profile evidence rows now =
      and_then (as_number nums (get_field "null_count" profile)) λ nulls.
        ratio_rule nums rule rows nulls nums.sub evidence (with_counts nums "null_count")
          "minimum_ratio" "Completeness" "Completeness requires row_count and null_count evidence."
          true
  evaluate_type uniqueness rule profile evidence rows now =
      and_then (as_number nums (get_field "distinct_count" profile)) λ distinct.
        ratio_rule nums rule rows distinct (λ n d. d) evidence (with_counts nums "distinct_count")
          "minimum_ratio" "Uniqueness" "Uniqueness requires row_count and distinct_count evidence."
          true
  evaluate_type validity rule profile evidence rows now =
      and_then (as_number nums (get_field "invalid_count" profile)) λ invalid.
        ratio_rule nums rule rows invalid nums.sub evidence (with_counts nums "invalid_count")
          "minimum_ratio" "Validity" "Validity requires row_count and invalid_count evidence." true
  evaluate_type freshness rule profile evidence rows now =
      freshness_rule nums rule profile evidence now
  evaluate_type referential_integrity rule profile evidence rows now =
      and_then (as_number nums (get_field "orphan_count" profile)) λ orphans.
        ratio_rule nums rule rows orphans (λ n o. o) evidence (with_orphans nums profile)
          "maximum_orphan_ratio" "Referential-integrity orphan"
          "Referential integrity requires row_count and orphan_count evidence." false
  evaluate_type distribution_anomaly rule profile evidence rows now =
      and_then (as_number nums (get_field "current_value" profile)) λ current.
        and_then (as_number nums (get_field "baseline_mean" profile)) λ mean.
          and_then (as_number nums (get_field "baseline_stddev" profile))
            λ stddev. anomaly_rule nums rule current mean stddev evidence

  unfoldable pub evaluate_rule : QualityRule → Fields → Instant → Option Evaluation
  unfolding scope not_evaluable as_number evaluate_type
  evaluate_rule rule profile_snapshot now =
      and_then (scope profile_snapshot rule.column_name) λ (profile, evidence).
        if is_empty_fields profile
        then (not_evaluable rule evidence (
            join (
              "No profile evidence exists for rule scope "
              ∷ scope_text rule.column_name
              ∷ "."
              ∷ [])))
        else and_then (as_number nums (get_field "row_count" profile))
            λ rows. evaluate_type rule.rule_type rule profile evidence rows now
