-- ===== src/Quality/Rules/FirstVersion.antt =====
-- A new rule and its first version row.
use mathlib.Core.Option.{none-ne-some}
use datagenie.Prelude.{
  find_row, String, List, ℕ, ◌++◌, Option, ◌∷◌, all, [], not, ◌≡◌, ◌==◌, some, true, ◌⊎◌, arith,
  none, inr, eq_iff, refl, Bool-cases, inl, subst, sym, ◌∙◌,
}
use datagenie.Quality.Rules.Versions.{
  find_version, IsVersioned, is_at_most, all-is_at_most_append, find_version-append,
}
use datagenie.Quality.Models.{QualityTables, QualityRule, QualityRuleVersion}
use datagenie.Quality.Rules.{version_row, add_version, add_rule, rule_definition}

find_row-append_new :
    (k : String) (rs : List QualityRule) (new r : QualityRule)
    → find_row (λ x. x.id) k (rs ++ new ∷ []) ≡ some r
    → (find_row (λ x. x.id) k rs ≡ some r) ⊎ (k ≡ new.id) × (new ≡ r)
unfolding find_row
find_row-append_new k [] new r h = inr (grind (arith, eq_iff new.id k))
find_row-append_new k (x ∷ rs) new r h = elim (Bool-cases (x.id == k)) [
  | inl e ↦ inl (rw e (rw e at h))
  | inr e ↦ rw e (find_row-append_new k rs new r (rw e at h))
]

find_version-first :
    (vs : List QualityRuleVersion) (v : QualityRuleVersion)
    → all (λ x. not (x.rule_id == v.rule_id)) vs ≡ true
    → find_version v.rule_id v.version (vs ++ v ∷ []) ≡ some v
unfolding find_version
find_version-first [] v h = ground (arith, eq_iff v.rule_id v.rule_id)
find_version-first (x ∷ vs) v h = ground (arith, find_version-first vs v)

all-is_at_most :
    (k : String) (n : ℕ) (vs : List QualityRuleVersion)
    → all (λ x. not (x.rule_id == k)) vs ≡ true
    → all (is_at_most k n) vs ≡ true
all-is_at_most k n [] h = refl
all-is_at_most k n (x ∷ vs) h = ground (arith, all-is_at_most k n vs)

-- A new rule, whose id no rule and no version row has, is added with its first version.
module _ (t : QualityTables) (new : QualityRule) (actor : String) (reason : Option String) where
  pub first_version-IsVersioned :
      IsVersioned t
      → all (λ x. not (x.rule_id == new.id)) t.versions ≡ true
      → find_row (λ x. x.id) new.id t.rules ≡ none
      → IsVersioned (add_version (version_row new actor reason) (add_rule new t))
  unfolding version_row
  first_version-IsVersioned h fresh absent = record {
    current = λ k r q. elim (find_row-append_new k t.rules new r q) [
      | inl old ↦
          (let c = h.current k r old in
            (c.0, find_version-append k r.version t.versions _ c.0 c.1, c.2))
      | inr (e, same) ↦ subst HasVersion same first k e
    ];
    newest = λ k r q. elim (find_row-append_new k t.rules new r q) [
      | inl old ↦
          all-is_at_most_append k r.version r.version t.versions (version_row new actor reason)
            (h.newest k r old) (omega arith) (is_other k r old)
      | inr (e, same) ↦ subst IsNewest same newest k e
    ];
  }
    where
      versions : List QualityRuleVersion
      versions = t.versions ++ version_row new actor reason ∷ []

      HasVersion : QualityRule → Type 0
      HasVersion r =
          (k : String)
          → k ≡ new.id
          → (v : QualityRuleVersion) × (find_version k r.version versions ≡ some v)
            × (v.definition ≡ rule_definition r)

      first : HasVersion new
      first k e = (
        version_row new actor reason,
        subst (λ i. find_version i new.version versions ≡ some (version_row new actor reason))
            (sym e) (find_version-first t.versions (version_row new actor reason) fresh),
        refl,
      )

      IsNewest : QualityRule → Type 0
      IsNewest r = (k : String) → k ≡ new.id → all (is_at_most k r.version) versions ≡ true

      newest : IsNewest new
      newest k e =
          all-is_at_most_append k new.version new.version t.versions (version_row new actor reason)
            (all-is_at_most k new.version t.versions
              (subst (λ i. all (λ x. not (x.rule_id == i)) t.versions ≡ true) (sym e) fresh))
            (omega arith) (ground arith)

      is_other :
          (k : String) (r : QualityRule)
          → find_row (λ x. x.id) k t.rules ≡ some r
          → is_at_most k r.version (version_row new actor reason) ≡ true
      is_other k r old = elim (Bool-cases (new.id == k)) [
        | inr e ↦ ground arith
        | inl e ↦ absurd (
            none-ne-some r (
              sym absent
              ∙ subst (λ i. find_row (λ x. x.id) i t.rules ≡ some r) (sym ((eq_iff new.id k).0 e))
                  old))
      ]
