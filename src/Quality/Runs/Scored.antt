-- ===== src/Quality/Runs/Scored.antt =====
-- The score of a run.
use native.Mathlib.Nat.{div-add-mod, div-lt_iff_lt-mul}
use datagenie.Quality.Runs.Scores.{
  round_div, mean_score, total, severity_weight, evaluated_of, weight_of,
}
use datagenie.Prelude.{
  List, ℕ, ◌<◌, ◌≤◌, Bool, ◌*◌, all, ◌/◌, leb, ◌≡◌, ◌%◌, arith, Bool-cases, ltb, inl, inr, true,
  some, ◌∷◌, ◌+◌, [], refl,
}
use datagenie.Quality.Models.{QualityRule, QualityRuleResult, RuleSeverity}

round_div-le : (m n : ℕ) → 0 < n → m ≤ 100 * n → round_div m n ≤ 100
unfolding round_div
round_div-le m n pos le = elim (Bool-cases (ltb (m / n) 100)) [
  | inl small ↦ ground arith
  | inr big ↦
      at_top (ground (arith, (div-lt_iff_lt-mul {k = n} {x = m} {y = 101} pos).1 (omega arith)))
]
  where
    at_top : m / n ≡ 100 → round_div m n ≤ 100
    at_top e = rw e (ground (arith, no_rest))
      where
        no_rest : m % n ≡ 0
        no_rest = omega (arith, rw e at (div-add-mod m n))

-- Every score is at most 100.
abbrev pub has_scores : List (QualityRule × QualityRuleResult) → Bool
has_scores results = all (λ r. leb r.1.score 100) results

weighted-le :
    (rs : List (QualityRule × QualityRuleResult))
    → has_scores rs ≡ true
    → total (λ s. weight_of s * s.1.score) rs ≤ 100 * total weight_of rs
weighted-le [] h = omega arith
weighted-le ((rule, result) ∷ rs) h =
    by_severity rule.severity (ground arith) (weighted-le rs (ground arith))
  where
    by_severity :
        (s : RuleSeverity)
        → result.score ≤ 100
        → total (λ s. weight_of s * s.1.score) rs ≤ 100 * total weight_of rs
        → severity_weight s * result.score + total (λ s. weight_of s * s.1.score) rs
          ≤ 100 * (severity_weight s + total weight_of rs)
    by_severity RuleSeverity.low a b = omega arith
    by_severity RuleSeverity.medium a b = omega arith
    by_severity RuleSeverity.high a b = omega arith
    by_severity RuleSeverity.critical a b = omega arith

weight_of-pos : (s : RuleSeverity) → 0 < severity_weight s
weight_of-pos RuleSeverity.low = omega arith
weight_of-pos RuleSeverity.medium = omega arith
weight_of-pos RuleSeverity.high = omega arith
weight_of-pos RuleSeverity.critical = omega arith

pub mean_score-le :
    (rs : List (QualityRule × QualityRuleResult)) {n : ℕ}
    → has_scores rs ≡ true
    → mean_score rs ≡ some n
    → n ≤ 100
unfolding mean_score
mean_score-le [] h e = absurd (ground arith)
mean_score-le (r ∷ rs) h e = grind (
  arith,
  round_div-le (total (λ s. weight_of s * s.1.score) (r ∷ rs)) (total weight_of (r ∷ rs))
      (omega (arith, weight_of-pos r.0.severity)) (weighted-le (r ∷ rs) h),
)

pub evaluated_of-has_scores :
    (rs : List (QualityRule × QualityRuleResult))
    → has_scores rs ≡ true
    → has_scores (evaluated_of rs) ≡ true
evaluated_of-has_scores [] h = refl
evaluated_of-has_scores (r ∷ rs) h = ground (arith, evaluated_of-has_scores rs)
