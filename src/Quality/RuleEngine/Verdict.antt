-- ===== src/Quality/RuleEngine/Verdict.antt =====
-- What every evaluation of a rule has in common.
-- A test that was made scores 100 or 0; one that could not be made fails, scores 0 and observes
-- nothing. Either way the evidence names the scope.
use datagenie.Quality.Models.{
  QualityRule, RuleType, completeness, uniqueness, validity, freshness, referential_integrity,
  distribution_anomaly,
}
use datagenie.Prelude.{
  String, ◌≡◌, Option, Bool, true, some, ◌⊎◌, inr, inl, Bool-cases, false, refl, none, none, subst,
}
use datagenie.Quality.RuleEngine.Steps.{
  ratio_evaluation, ratio_rule, freshness_rule, anomaly_rule, parameter, freshness_at, with_counts,
  with_orphans,
}
use datagenie.Quality.RuleEngine.Evaluations.{
  scope, Evaluation, not_evaluable, verdict, score_of, and_then, value_or_null, is_empty_fields,
}
use datagenie.Quality.Numbers.{Numbers, as_number}
use datagenie.Prelude.Json.{Fields, has_field, put_field, end, get_field, text}
use datagenie.Catalog.Models.{Instant}
use datagenie.Quality.RuleEngine.Scoped.{
  IsScoped, Always, Always-and_then, has_field-put_field, Any, scope-IsScoped, Always-Any,
}
use datagenie.Quality.RuleEngine.{evaluate_rule, evaluate_type}

pub record IsVerdict (rule : QualityRule) (e : Evaluation) : Type 0 where
  pub scored : ((e.passed ≡ true) × (e.score ≡ 100)) ⊎ ((e.passed ≡ false) × (e.score ≡ 0))
  pub not_made :
      (e.evaluated ≡ true)
      ⊎ (e.passed ≡ false) × (e.observed_value ≡ end) × (rule.parameters ≡ some e.expected_value)
  pub scoped : has_field "scope" e.evidence ≡ true

module _ {W : Type 0} (nums : Numbers W) (rule : QualityRule) where
  not_evaluable-IsVerdict :
      (evidence : Fields) (message : String)
      → has_field "scope" evidence ≡ true
      → Always (IsVerdict rule) (not_evaluable rule evidence message)
  unfolding not_evaluable
  not_evaluable-IsVerdict evidence message h = by_parameters rule.parameters refl
    where
      by_parameters :
          (o : Option Fields)
          → rule.parameters ≡ o
          → Always (IsVerdict rule) (not_evaluable rule evidence message)
      by_parameters none q = rw (q, not_evaluable) tt
      by_parameters (some ps) q =
          rw (q, not_evaluable)
            (record { scored = inr (refl, refl); not_made = inr (refl, refl, refl); scoped = h })

  verdict-IsVerdict :
      (passed : Bool) (observed expected evidence : Fields) (explanation : String)
      → has_field "scope" evidence ≡ true
      → Always (IsVerdict rule) (verdict passed observed expected evidence explanation)
  unfolding verdict
  verdict-IsVerdict passed observed expected evidence explanation h = record {
    scored = passed_score passed;
    not_made = inl refl;
    scoped = h;
  }
    where
      passed_score :
          (b : Bool) → ((b ≡ true) × (score_of b ≡ 100)) ⊎ ((b ≡ false) × (score_of b ≡ 0))
      passed_score true = inl (refl, refl)
      passed_score false = inr (refl, refl)

  ratio_evaluation-IsVerdict :
      (numerator denominator threshold : W) (label : String) (evidence : Fields) (up : Bool)
      → has_field "scope" evidence ≡ true
      → Always
          (IsVerdict rule)
          (ratio_evaluation nums rule numerator denominator threshold label evidence up)
  unfolding ratio_evaluation
  ratio_evaluation-IsVerdict numerator denominator threshold label evidence up h =
      elim (Bool-cases (nums.le denominator nums.zero)) [
        | inl e ↦ rw e (not_evaluable-IsVerdict evidence _ h)
        | inr e ↦ rw e (verdict-IsVerdict _ _ _ evidence _ h)
      ]

  ratio_rule-IsVerdict :
      (rows count : Option W) (numerator : W → W → W) (evidence : Fields)
      (update : Fields → W → W → Fields) (key label message : String) (up : Bool)
      → IsScoped evidence
      → ((n c : W) → IsScoped (update evidence n c))
      → Always
          (IsVerdict rule)
          (ratio_rule nums rule rows count numerator evidence update key label message up)
  unfolding ratio_rule
  ratio_rule-IsVerdict none count numerator evidence update key label message up h u =
      not_evaluable-IsVerdict evidence message h
  ratio_rule-IsVerdict (some n) none numerator evidence update key label message up h u =
      not_evaluable-IsVerdict evidence message h
  ratio_rule-IsVerdict (some n) (some c) numerator evidence update key label message up h u =
      Always-and_then Any (IsVerdict rule) (parameter nums rule key) _ (Always-Any _) (λ t _.
        ratio_evaluation-IsVerdict (numerator n c) n t label (update evidence n c) up (u n c))

  freshness_at-IsVerdict :
      (latest : Option Instant) (evidence : Fields) (now : Instant)
      → IsScoped evidence
      → Always (IsVerdict rule) (freshness_at nums rule latest evidence now)
  unfolding freshness_at
  freshness_at-IsVerdict none evidence now h = not_evaluable-IsVerdict evidence _ h
  freshness_at-IsVerdict (some latest) evidence now h =
      Always-and_then Any (IsVerdict rule) (parameter nums rule "maximum_age_minutes") _
        (Always-Any _)
        (λ m _. verdict-IsVerdict _ _ _ _ _ (
          has_field-put_field "scope" "evaluated_at" (text (nums.iso now))
            (put_field "latest_record_at" (text (nums.iso latest)) evidence)
            (has_field-put_field "scope" "latest_record_at" (text (nums.iso latest)) evidence h)))

  anomaly_rule-IsVerdict :
      (current mean stddev : Option W) (evidence : Fields)
      → IsScoped evidence
      → Always (IsVerdict rule) (anomaly_rule nums rule current mean stddev evidence)
  unfolding anomaly_rule
  anomaly_rule-IsVerdict none mean stddev evidence h = not_evaluable-IsVerdict evidence _ h
  anomaly_rule-IsVerdict (some c) none stddev evidence h = not_evaluable-IsVerdict evidence _ h
  anomaly_rule-IsVerdict (some c) (some m) none evidence h = not_evaluable-IsVerdict evidence _ h
  anomaly_rule-IsVerdict (some c) (some m) (some s) evidence h =
      elim (Bool-cases (nums.lt s nums.zero)) [
        | inl e ↦ rw e (not_evaluable-IsVerdict evidence _ h)
        | inr e ↦ rw e (
            Always-and_then Any (IsVerdict rule) (parameter nums rule "maximum_z_score") _
              (Always-Any _)
              (λ z _. verdict-IsVerdict _ _ _ _ _ (
                has_field-put_field "scope" "baseline_stddev" (nums.to_value s)
                  (put_field "baseline_mean" (nums.to_value m)
                    (put_field "current_value" (nums.to_value c) evidence))
                  (has_field-put_field "scope" "baseline_mean" (nums.to_value m)
                    (put_field "current_value" (nums.to_value c) evidence)
                    (has_field-put_field "scope" "current_value" (nums.to_value c) evidence h)))))
      ]

  with_counts-IsScoped :
      (key : String) (evidence : Fields) (rows count : W)
      → IsScoped evidence
      → IsScoped (with_counts nums key evidence rows count)
  with_counts-IsScoped key evidence rows count h =
      has_field-put_field "scope" key (nums.to_value count)
        (put_field "row_count" (nums.to_value rows) evidence)
        (has_field-put_field "scope" "row_count" (nums.to_value rows) evidence h)

  module _ (profile evidence : Fields) (rows : Option W) (now : Instant)
      (h : IsScoped evidence) where
    by_count :
        (key : String) (f : Option W → Option Evaluation)
        → ((count : Option W) → Always (IsVerdict rule) (f count))
        → Always (IsVerdict rule) (and_then (as_number nums (get_field key profile)) f)
    by_count key f each =
        Always-and_then Any (IsVerdict rule) (as_number nums (get_field key profile)) f
          (Always-Any _) (λ c _. each c)

    evaluate_type-IsVerdict :
        (t : RuleType)
        → Always (IsVerdict rule) (evaluate_type nums t rule profile evidence rows now)
    unfolding evaluate_type freshness_rule
    evaluate_type-IsVerdict completeness = by_count _ _ (λ c.
        ratio_rule-IsVerdict rows c _ evidence (with_counts nums "null_count") _ _ _ _ h
          (λ n k. with_counts-IsScoped "null_count" evidence n k h))
    evaluate_type-IsVerdict uniqueness = by_count _ _ (λ c.
        ratio_rule-IsVerdict rows c _ evidence (with_counts nums "distinct_count") _ _ _ _ h
          (λ n k. with_counts-IsScoped "distinct_count" evidence n k h))
    evaluate_type-IsVerdict validity = by_count _ _ (λ c.
        ratio_rule-IsVerdict rows c _ evidence (with_counts nums "invalid_count") _ _ _ _ h
          (λ n k. with_counts-IsScoped "invalid_count" evidence n k h))
    evaluate_type-IsVerdict freshness = freshness_at-IsVerdict _ evidence now h
    evaluate_type-IsVerdict referential_integrity = by_count _ _ (λ c.
        ratio_rule-IsVerdict rows c _ evidence (with_orphans nums profile) _ _ _ _ h (λ n k.
          has_field-put_field "scope" "related_asset_id"
            (value_or_null (get_field "related_asset_id" profile))
            (with_counts nums "orphan_count" evidence n k)
            (with_counts-IsScoped "orphan_count" evidence n k h)))
    evaluate_type-IsVerdict distribution_anomaly =
        by_count _ _
          (λ c. by_count _ _ (λ m. by_count _ _ (λ s. anomaly_rule-IsVerdict c m s evidence h)))

  evaluate_rule-Always :
      (profile_snapshot : Fields) (now : Instant)
      → Always (IsVerdict rule) (evaluate_rule nums rule profile_snapshot now)
  unfolding evaluate_rule
  evaluate_rule-Always profile_snapshot now =
      Always-and_then (λ r. IsScoped r.1) (IsVerdict rule) (scope profile_snapshot rule.column_name)
        _ (scope-IsScoped profile_snapshot rule.column_name)
        (λ (profile, evidence) h. elim (Bool-cases (is_empty_fields profile)) [
          | inl e ↦ rw e (not_evaluable-IsVerdict evidence _ h)
          | inr e ↦ rw e (
              Always-and_then Any (IsVerdict rule) (as_number nums (get_field "row_count" profile))
                _ (Always-Any _)
                (λ rows _. evaluate_type-IsVerdict profile evidence rows now h rule.rule_type))
        ])

  -- Whatever the numbers are, a rule that is evaluated scores 100 if it passed and else 0; one that
  -- could not be evaluated fails with no observation and expects the rule's parameters; and the
  -- evidence always names the scope.
  pub evaluate_rule-IsVerdict :
      (profile_snapshot : Fields) (now : Instant) {e : Evaluation}
      → evaluate_rule nums rule profile_snapshot now ≡ some e
      → IsVerdict rule e
  evaluate_rule-IsVerdict profile_snapshot now {e = e} h =
      subst (Always (IsVerdict rule)) h (evaluate_rule-Always profile_snapshot now)
