-- ===== src/Quality/Rules/Versions.antt =====
-- Each rule has a version row that holds its definition, and no version row is newer.
use mathlib.Core.Option.{some-injective}
use datagenie.Prelude.{
  String, ℕ, List, find_row, Option, none, Bool, ◌≡◌, all, ◌∷◌, not, some, true, if◌then◌else◌,
  ◌==◌, ◌++◌, ◌<◌, ◌≤◌, suc, ◌&&◌, ◌||◌, arith, [], eqb, leb, eq_iff, ◌≢◌, put_row, sym,
  find_row-put_ne, ◌∙◌, find_row-put_at, refl, subst, Bool-cases, inl, inr,
}
use datagenie.Quality.Models.{QualityTables, QualityRule, QualityRuleVersion}
use datagenie.Quality.Rules.{
  set_fields, version_row, RuleUpdate, rule_definition, set_field, add_version, set_name,
  write_rule, set_severity, set_owner, set_parameters, set_enabled, set_schedule_cron,
  set_next_run_at, set_null,
}

unfoldable pub find_version : String → ℕ → List QualityRuleVersion → Option QualityRuleVersion
find_version k n [] = none
find_version k n (v ∷ vs) =
    if v.rule_id == k && eqb v.version n then some v else find_version k n vs

abbrev pub is_at_most : String → ℕ → QualityRuleVersion → Bool
is_at_most k n v = not (v.rule_id == k) || leb v.version n

pub record IsVersioned (t : QualityTables) : Type 0 where
  pub current :
      (k : String) (r : QualityRule)
      → find_row (λ x. x.id) k t.rules ≡ some r
      → (v : QualityRuleVersion) × (find_version k r.version t.versions ≡ some v)
        × (v.definition ≡ rule_definition r)
  pub newest :
      (k : String) (r : QualityRule)
      → find_row (λ x. x.id) k t.rules ≡ some r
      → all (is_at_most k r.version) t.versions ≡ true

pub find_version-append :
    (k : String) (n : ℕ) (vs ws : List QualityRuleVersion) (v : QualityRuleVersion)
    → find_version k n vs ≡ some v
    → find_version k n (vs ++ ws) ≡ some v
unfolding find_version
find_version-append k n [] ws v h = absurd (ground arith)
find_version-append k n (x ∷ vs) ws v h = ground (arith, find_version-append k n vs ws v)

find_version-new :
    (k : String) (n m : ℕ) (vs : List QualityRuleVersion) (v : QualityRuleVersion)
    → all (is_at_most k m) vs ≡ true
    → m < n
    → v.rule_id ≡ k
    → v.version ≡ n
    → find_version k n (vs ++ v ∷ []) ≡ some v
unfolding find_version
find_version-new k n m [] v h lt e f = ground (arith, eq_iff v.rule_id k)
find_version-new k n m (x ∷ vs) v h lt e f =
    ground (arith, find_version-new k n m vs v (ground arith) lt e f)

pub all-is_at_most_append :
    (k : String) (m n : ℕ) (vs : List QualityRuleVersion) (v : QualityRuleVersion)
    → all (is_at_most k m) vs ≡ true
    → m ≤ n
    → is_at_most k n v ≡ true
    → all (is_at_most k n) (vs ++ v ∷ []) ≡ true
all-is_at_most_append k m n [] v h le e = ground arith
all-is_at_most_append k m n (x ∷ vs) v h le e =
    ground (arith, all-is_at_most_append k m n vs v (ground arith) le e)

pub set_fields-key :
    (us : List RuleUpdate) (r : QualityRule)
    → ((set_fields us r).id ≡ r.id) × ((set_fields us r).version ≡ r.version)
unfolding set_fields
set_fields-key [] r = (refl, refl)
set_fields-key (u ∷ us) r = (
  (set_fields-key us (set_field u r)).0 ∙ (by_field u).0,
  (set_fields-key us (set_field u r)).1 ∙ (by_field u).1,
)
  where
    by_field :
        (u : RuleUpdate) → ((set_field u r).id ≡ r.id) × ((set_field u r).version ≡ r.version)
    by_field (set_name _) = (refl, refl)
    by_field (set_severity _) = (refl, refl)
    by_field (set_owner _) = (refl, refl)
    by_field (set_parameters _) = (refl, refl)
    by_field (set_enabled _) = (refl, refl)
    by_field (set_schedule_cron _) = (refl, refl)
    by_field (set_next_run_at _) = (refl, refl)
    by_field set_null = (refl, refl)

-- The tables after a rule's row is written over with its next version.
pub next_version-IsVersioned :
    (t : QualityTables) (old new : QualityRule) (actor : String) (reason : Option String)
    → IsVersioned t
    → find_row (λ x. x.id) new.id t.rules ≡ some old
    → new.version ≡ suc old.version
    → IsVersioned (add_version (version_row new actor reason) (write_rule new t))
unfolding version_row
next_version-IsVersioned t old new actor reason h found next = record {
  current = λ k r q. elim (Bool-cases (k == new.id)) [
    | inl e ↦ own k r ((eq_iff k new.id).0 e) q
    | inr e ↦
        (let c = h.current k r (others k (λ p. ground (arith, eq_iff k new.id)) q) in
          (c.0, find_version-append k r.version t.versions _ c.0 c.1, c.2))
  ];
  newest = λ k r q. elim (Bool-cases (k == new.id)) [
    | inl e ↦ own_newest k r ((eq_iff k new.id).0 e) q
    | inr e ↦
        all-is_at_most_append k r.version r.version t.versions (version_row new actor reason)
          (h.newest k r (others k (λ p. ground (arith, eq_iff k new.id)) q)) (omega arith)
          (ground (arith, eq_iff new.id k, eq_iff k new.id))
  ];
}
  where
    others :
        (k : String) {r : QualityRule}
        → k ≢ new.id
        → find_row (λ x. x.id) k (put_row (λ x. x.id) new t.rules) ≡ some r
        → find_row (λ x. x.id) k t.rules ≡ some r
    others k ne q = sym (find_row-put_ne (λ x. x.id) k new t.rules ne) ∙ q

    at_own :
        (k : String) (r : QualityRule)
        → k ≡ new.id
        → find_row (λ x. x.id) k (put_row (λ x. x.id) new t.rules) ≡ some r
        → some new ≡ some r
    at_own k r e q =
        sym (
          find_row-put_at (λ x. x.id) k new old t.rules (sym e)
            (subst (λ i. find_row (λ x. x.id) i t.rules ≡ some old) (sym e) found))
        ∙ q

    own :
        (k : String) (r : QualityRule)
        → k ≡ new.id
        → find_row (λ x. x.id) k (put_row (λ x. x.id) new t.rules) ≡ some r
        → (v : QualityRuleVersion) × (find_version k r.version
              (t.versions ++ version_row new actor reason ∷ [])
            ≡ some v)
          × (v.definition ≡ rule_definition r)
    own k r e q =
        subst
          (λ o.
            (v : QualityRuleVersion) × (find_version k o.version
                (t.versions ++ version_row new actor reason ∷ [])
              ≡ some v)
            × (v.definition ≡ rule_definition o))
          (some-injective new r (at_own k r e q))
          (
            version_row new actor reason,
            find_version-new k new.version old.version t.versions (version_row new actor reason)
                (h.newest k old
                  (subst (λ i. find_row (λ x. x.id) i t.rules ≡ some old) (sym e) found))
                (omega arith) (sym e) refl,
            refl,
          )

    own_newest :
        (k : String) (r : QualityRule)
        → k ≡ new.id
        → find_row (λ x. x.id) k (put_row (λ x. x.id) new t.rules) ≡ some r
        → all (is_at_most k r.version) (t.versions ++ version_row new actor reason ∷ []) ≡ true
    own_newest k r e q =
        subst
          (λ o.
            all (is_at_most k o.version) (t.versions ++ version_row new actor reason ∷ []) ≡ true)
          (some-injective new r (at_own k r e q))
          (all-is_at_most_append k old.version new.version t.versions (version_row new actor reason)
            (h.newest k old (subst (λ i. find_row (λ x. x.id) i t.rules ≡ some old) (sym e) found))
            (omega arith) (ground arith))
