-- ===== src/Quality/RuleEngine/Steps.antt =====
-- The steps of apps/quality-api/app/services/rule_engine.py. `none` is an exception: a number out of the float's
-- range, a parameter that is missing or no number, or a profile whose `columns` is no dictionary.
use Prim.Native.String.{◌++◌ as concat}
use datagenie.Prelude.{Bool, String, Option, if◌then◌else◌, ◌∷◌, some, [], none, none}
use datagenie.Prelude.Json.{Fields, get_field, put_field, end, field, text}
use datagenie.Quality.Models.{QualityRule}
use datagenie.Quality.Numbers.{Numbers, parse_timestamp}
use datagenie.Catalog.Models.{Instant}
use datagenie.Quality.RuleEngine.Evaluations.{
  and_then, not_evaluable, value_or_null, Evaluation, verdict, join, passed_text,
}

module _ {W : Type 0} (nums : Numbers W) where
  -- `float(rule.parameters[key])`
  abbrev pub parameter : QualityRule → String → Option W
  parameter rule key =
      and_then rule.parameters λ parameters. and_then (get_field key parameters) nums.of_value

  -- `_ratio_evaluation`
  unfoldable pub ratio_evaluation :
      QualityRule → W → W → W → String → Fields → Bool → Option Evaluation
  unfolding not_evaluable verdict
  ratio_evaluation rule numerator denominator threshold label evidence greater_or_equal =
      if nums.le denominator nums.zero
      then not_evaluable rule evidence
          (concat label " could not be evaluated because row_count must be greater than zero.")
      else (let ratio = nums.div numerator denominator in
          let passed =
            if greater_or_equal then nums.le threshold ratio else nums.le ratio threshold in
          let comparator = if greater_or_equal then ">=" else "<=" in
          verdict passed
            (field "ratio" (nums.to_value ratio) (
              field "numerator" (nums.to_value numerator)
                (field "denominator" (nums.to_value denominator) end)))
            (field "threshold" (nums.to_value threshold) (field "comparator" (text comparator) end))
            evidence
            (join (
              label
              ∷ " ratio "
              ∷ nums.fixed 4 ratio
              ∷ " "
              ∷ comparator
              ∷ " required threshold "
              ∷ nums.fixed 4 threshold
              ∷ ": "
              ∷ passed_text passed
              ∷ "."
              ∷ [])))

  -- A ratio of the rows, where both counts are there: the numerator is made of the two counts.
  unfoldable pub ratio_rule :
      QualityRule
      → Option W
      → Option W
      → (W → W → W)
      → Fields
      → (Fields → W → W → Fields)
      → String
      → String
      → String
      → Bool
      → Option Evaluation
  unfolding not_evaluable ratio_evaluation
  ratio_rule rule (some rows) (some count) numerator evidence update key label message up =
      and_then (parameter rule key) λ threshold.
        (ratio_evaluation rule (numerator rows count) rows threshold label
          (update evidence rows count) up)
  ratio_rule rule none count numerator evidence update key label message up =
      (not_evaluable rule evidence message)
  ratio_rule rule (some rows) none numerator evidence update key label message up =
      (not_evaluable rule evidence message)

  -- `evidence.update({"row_count": row_count, key: count})`
  abbrev pub with_counts : String → Fields → W → W → Fields
  with_counts key evidence rows count =
      put_field key (nums.to_value count) (put_field "row_count" (nums.to_value rows) evidence)

  -- The same with the orphans, and the asset that they should refer to.
  abbrev pub with_orphans : Fields → Fields → W → W → Fields
  with_orphans profile evidence rows orphans =
      put_field "related_asset_id" (value_or_null (get_field "related_asset_id" profile))
        (with_counts "orphan_count" evidence rows orphans)

  -- The freshness by the latest record's time.
  unfoldable pub freshness_at : QualityRule → Option Instant → Fields → Instant → Option Evaluation
  unfolding not_evaluable verdict
  freshness_at rule none evidence now =
      (not_evaluable rule evidence "Freshness requires a valid latest_record_at timestamp.")
  freshness_at rule (some latest) evidence now =
      and_then (parameter rule "maximum_age_minutes") λ maximum.
        (let age = nums.minutes latest now in
          let observed = if nums.lt nums.zero age then age else nums.zero in
          let passed = nums.le observed maximum in
          (verdict passed (field "age_minutes" (nums.to_value observed) end)
            (field "maximum_age_minutes" (nums.to_value maximum) end)
            (put_field "evaluated_at" (text (nums.iso now))
              (put_field "latest_record_at" (text (nums.iso latest)) evidence))
            (join (
              "Freshness age "
              ∷ nums.fixed 2 observed
              ∷ " minutes <= maximum "
              ∷ nums.fixed 2 maximum
              ∷ ": "
              ∷ passed_text passed
              ∷ "."
              ∷ []))))

  unfoldable pub freshness_rule : QualityRule → Fields → Fields → Instant → Option Evaluation
  unfolding freshness_at parse_timestamp
  freshness_rule rule profile evidence now =
      freshness_at rule (parse_timestamp nums (get_field "latest_record_at" profile)) evidence now

  abbrev pub z_score : W → W → W → W
  z_score current mean stddev =
      if nums.is_close stddev nums.zero
      then (if nums.is_close current mean then nums.zero else nums.infinite)
      else nums.div (nums.abs (nums.sub current mean)) stddev

  unfoldable pub anomaly_rule :
      QualityRule → Option W → Option W → Option W → Fields → Option Evaluation
  unfolding not_evaluable verdict
  anomaly_rule rule (some current) (some mean) (some stddev) evidence =
      if nums.lt stddev nums.zero
      then (not_evaluable rule evidence "Distribution anomaly baseline_stddev cannot be negative.")
      else and_then (parameter rule "maximum_z_score") λ maximum.
        (let z = z_score current mean stddev in
          let passed = nums.le z maximum in
          (verdict passed (field "z_score" (nums.to_value z) end)
            (field "maximum_z_score" (nums.to_value maximum) end)
            (put_field "baseline_stddev" (nums.to_value stddev) (
              put_field "baseline_mean" (nums.to_value mean)
                (put_field "current_value" (nums.to_value current) evidence)))
            (join (
              "Distribution z-score "
              ∷ nums.fixed 4 z
              ∷ " <= maximum "
              ∷ nums.fixed 4 maximum
              ∷ ": "
              ∷ passed_text passed
              ∷ "."
              ∷ []))))
  anomaly_rule rule current mean stddev evidence =
      (not_evaluable rule evidence
        "Distribution anomaly requires current_value, baseline_mean, and baseline_stddev evidence.")
