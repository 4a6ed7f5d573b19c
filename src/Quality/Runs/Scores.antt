-- ===== src/Quality/Runs/Scores.antt =====
-- The technical score of a run: the mean of the scores that were made, weighted by severity.
-- `round` is exact here: the float of a quotient of small integers is nowhere so near to a half that
-- it would be taken for one.
-- `SEVERITY_WEIGHT`
use datagenie.Quality.Models.{RuleSeverity, QualityRule, QualityRuleResult}
use datagenie.Prelude.{
  ℕ, List, ◌∷◌, ◌/◌, ◌+◌, ◌%◌, keep, Option, Bool, if◌then◌else◌, none, ltb, [], ◌*◌, some, length,
  suc, ◌&&◌, eqb, all, not,
}
use datagenie.Quality.RuleEngine.Evaluations.{is_empty_fields}

abbrev pub severity_weight : RuleSeverity → ℕ
severity_weight RuleSeverity.low = 1
severity_weight RuleSeverity.medium = 2
severity_weight RuleSeverity.high = 3
severity_weight RuleSeverity.critical = 4

abbrev pub total : {A : Type 0} → (A → ℕ) → List A → ℕ
total f [] = 0
total f (x ∷ xs) = f x + total f xs

-- `round(m / n)`, a half to the even neighbour.
unfoldable pub round_div : ℕ → ℕ → ℕ
round_div m n =
    let q = m / n in
    let r = m % n in if ltb (2 * r) n then q else if ltb n (2 * r) then suc q else q + q % 2

abbrev pub evaluated_of :
    List (QualityRule × QualityRuleResult) → List (QualityRule × QualityRuleResult)
evaluated_of results = keep (λ r. r.1.evaluated) results

abbrev pub weight_of : QualityRule × QualityRuleResult → ℕ
weight_of r = severity_weight r.0.severity

unfoldable pub mean_score : List (QualityRule × QualityRuleResult) → Option ℕ
mean_score [] = none
mean_score (r ∷ rs) =
    some (round_div (total (λ s. weight_of s * s.1.score) (r ∷ rs)) (total weight_of (r ∷ rs)))

unfoldable pub technical_score : List (QualityRule × QualityRuleResult) → Option ℕ
technical_score results = mean_score (evaluated_of results)

unfoldable pub is_explainable : List (QualityRule × QualityRuleResult) → Bool
is_explainable results =
    ltb 0 (length results)
    && eqb (length (evaluated_of results)) (length results)
    && all (λ r. not (is_empty_fields r.1.evidence)) results
