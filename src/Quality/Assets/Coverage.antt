-- ===== src/Quality/Assets/Coverage.antt =====
-- `critical_coverage` of apps/quality-api/app/services/quality_service.py. The clock counts
-- microseconds, so an age in hours is compared without a division.
use datagenie.Prelude.{
  ℕ, Bool, Option, List, ◌+◌, true, ltb, suc, if◌then◌else◌, ◌∷◌, false, truthy, ◌*◌, keep, ◌&&◌,
  some, [], length, leb, none, ◌≡◌, arith, Bool-cases, refl, inl, inr,
}
use datagenie.Quality.Models.{BusinessCriticality, AssetQualityContext, Action, Db}
use datagenie.Catalog.Models.{Instant}
use datagenie.Prelude.Exec.{gets, ok}

pub record Exclusions : Type 0 where
  pub missing_owner : ℕ
  pub no_explainable_run : ℕ
  pub stale_explainable_run : ℕ

pub record Coverage : Type 0 where
  pub covered : ℕ
  pub reasons : Exclusions

abbrev pub is_critical : BusinessCriticality → Bool
is_critical BusinessCriticality.critical = true
is_critical _ = false

-- `age_hours > recency_hours`
abbrev pub is_stale : Instant → ℕ → Instant → Bool
is_stale now recency_hours run_at = ltb (run_at + recency_hours * 3600000000) now

abbrev pub none_counted : Coverage
none_counted = record {
  covered = 0;
  reasons = record { missing_owner = 0; no_explainable_run = 0; stale_explainable_run = 0 };
}

-- The body of the loop.
abbrev pub count_run : Instant → ℕ → Option Instant → Coverage → Coverage
count_run now recency_hours none c = record c {
  reasons = record c.reasons { no_explainable_run = suc c.reasons.no_explainable_run };
}
count_run now recency_hours (some run_at) c =
    if is_stale now recency_hours run_at
    then record c {
      reasons = record c.reasons { stale_explainable_run = suc c.reasons.stale_explainable_run };
    }
    else record c { covered = suc c.covered }

abbrev pub count_context : Instant → ℕ → AssetQualityContext → Coverage → Coverage
count_context now recency_hours context c =
    if truthy context.accountable_owner
    then count_run now recency_hours context.latest_explainable_run_at c
    else record c { reasons = record c.reasons { missing_owner = suc c.reasons.missing_owner } }

unfoldable pub count_contexts : Instant → ℕ → List AssetQualityContext → Coverage → Coverage
count_contexts now recency_hours [] c = c
count_contexts now recency_hours (x ∷ xs) c =
    count_contexts now recency_hours xs (count_context now recency_hours x c)

unfoldable pub critical_coverage : Instant → ℕ → Action (ℕ × Coverage)
critical_coverage now recency_hours = gets (λ db.
    let contexts = keep (λ c. is_critical c.business_criticality) db.work.contexts in
    (length contexts, count_contexts now recency_hours contexts none_counted))

-- What a covered asset is: it has an owner and an explainable run that is recent.
abbrev pub is_recent : Instant → ℕ → Option Instant → Bool
is_recent now recency_hours none = false
is_recent now recency_hours (some run_at) = leb now (run_at + recency_hours * 3600000000)

abbrev pub is_covered : Instant → ℕ → AssetQualityContext → Bool
is_covered now recency_hours context =
    truthy context.accountable_owner
    && is_recent now recency_hours context.latest_explainable_run_at

abbrev pub total : Coverage → ℕ
total c =
    c.covered + c.reasons.missing_owner + c.reasons.no_explainable_run
    + c.reasons.stale_explainable_run

count_context-total :
    (now : Instant) (hours : ℕ) (x : AssetQualityContext) (c : Coverage)
    → total (count_context now hours x c) ≡ suc (total c)
count_context-total now hours x c = elim (Bool-cases (truthy x.accountable_owner)) [
  | inr e ↦ rw e (omega arith)
  | inl e ↦ rw e (by_run x.latest_explainable_run_at)
]
  where
    by_run : (o : Option Instant) → total (count_run now hours o c) ≡ suc (total c)
    by_run none = omega arith
    by_run (some t) = elim (Bool-cases (is_stale now hours t)) [
      | inl e ↦ rw e (omega arith)
      | inr e ↦ rw e (omega arith)
    ]

count_contexts-total :
    (now : Instant) (hours : ℕ) (xs : List AssetQualityContext) (c : Coverage)
    → total (count_contexts now hours xs c) ≡ total c + length xs
unfolding count_contexts
count_contexts-total now hours [] c = omega arith
count_contexts-total now hours (x ∷ xs) c = omega (
  arith,
  count_contexts-total now hours xs (count_context now hours x c),
  count_context-total now hours x c,
)

count_context-covered :
    (now : Instant) (hours : ℕ) (x : AssetQualityContext) (c : Coverage)
    → (count_context now hours x c).covered ≡ c.covered + (if is_covered now hours x then 1 else 0)
count_context-covered now hours x c = elim (Bool-cases (truthy x.accountable_owner)) [
  | inr e ↦ rw e (omega arith)
  | inl e ↦ rw e (by_run x.latest_explainable_run_at)
]
  where
    by_run :
        (o : Option Instant)
        → (count_run now hours o c).covered ≡ c.covered + (if is_recent now hours o then 1 else 0)
    by_run none = omega arith
    by_run (some t) = ground arith

count_contexts-covered :
    (now : Instant) (hours : ℕ) (xs : List AssetQualityContext) (c : Coverage)
    → (count_contexts now hours xs c).covered ≡ c.covered + length (keep (is_covered now hours) xs)
unfolding count_contexts
count_contexts-covered now hours [] c = omega arith
count_contexts-covered now hours (x ∷ xs) c = ground (
  arith,
  count_contexts-covered now hours xs (count_context now hours x c),
  count_context-covered now hours x c,
)

-- The coverage is of all critical assets, it changes nothing, its covered and excluded assets add up
-- to them, and it covers those that have an owner and an explainable run within the hours given.
pub critical_coverage-adds_up :
    (now : Instant) (hours : ℕ) (db : Db)
    → let contexts = keep (λ c. is_critical c.business_criticality) db.work.contexts in
      (c : Coverage) × (critical_coverage now hours db ≡ (ok (length contexts, c), db))
      × (total c ≡ length contexts)
      × (c.covered ≡ length (keep (is_covered now hours) contexts))
unfolding critical_coverage
critical_coverage-adds_up now hours db = (
  _,
  refl,
  omega (
    arith,
    count_contexts-total now hours (keep (λ c. is_critical c.business_criticality) db.work.contexts)
        none_counted,
  ),
  omega (
    arith,
    count_contexts-covered now hours
        (keep (λ c. is_critical c.business_criticality) db.work.contexts) none_counted,
  ),
)
