-- ===== src/Quality/Runs/Incidents.antt =====
-- The incidents that executions leave: at most one that is unresolved, for each asset and rule.
use datagenie.Prelude.{
  List, Bool, String, ◌≡◌, length, false, keep, arith, ◌≤◌, ◌==◌, ◌∷◌, ◌&&◌, Bool-cases, true,
  eq_iff, inl, inr, subst, [], [], refl, ◌⊎◌, some, Option, none,
}
use datagenie.Quality.Runs.Results.{
  RunCall, upsert_first, new_incident, upsert_incident, seen_again, is_unresolved, raises_incident,
  run_rule, run_rules, new_result,
}
use datagenie.Quality.Models.{
  QualityIncident, QualityRun, QualityRule, QualityRuleResult, QualityTables, Db, Action,
  QualityError,
}
use datagenie.Quality.Numbers.{Numbers}
use datagenie.Prelude.Store.{flush_or}
use datagenie.Quality.RuleEngine.Evaluations.{Evaluation}
use datagenie.Quality.RuleEngine.{evaluate_rule}
use datagenie.Prelude.Exec.{◌>>=◌, pure, Result, continue, ok, raised}

-- No two unresolved incidents are of one asset and rule.
abbrev pub IsSingle : List QualityIncident → Type 0
IsSingle is = (asset_id rule_id : String) → length (keep (is_unresolved asset_id rule_id) is) ≤ 1

module _ {A : Type 0} (p : A → Bool) (f : A → A) (new : A) where
  upsert_first-other :
      (q : A → Bool)
      → ((x : A) → q (f x) ≡ q x)
      → q new ≡ false
      → (xs : List A) → length (keep q (upsert_first p f new xs)) ≡ length (keep q xs)
  unfolding upsert_first
  upsert_first-other q same out [] = ground (arith, out)
  upsert_first-other q same out (x ∷ xs) = elim (Bool-cases (p x)) [
    | inl e ↦ rw e (ground (arith, same x))
    | inr e ↦ rw e (ground (arith, upsert_first-other q same out xs))
  ]

  upsert_first-same :
      ((x : A) → p (f x) ≡ p x)
      → (xs : List A) → length (keep p xs) ≤ 1
      → length (keep p (upsert_first p f new xs)) ≤ 1
  unfolding upsert_first
  upsert_first-same same [] h = ground arith
  upsert_first-same same (x ∷ xs) h = elim (Bool-cases (p x)) [
    | inl e ↦ rw e (rw (same x) (rw e (rw e at h)))
    | inr e ↦ rw e (rw e (upsert_first-same same xs (rw e at h)))
  ]

module _ (call : RunCall) (run : QualityRun) where
  new_incident-other :
      (rule : QualityRule) (result : QualityRuleResult) (a r : String)
      → (run.asset_id == a && rule.id == r) ≡ false
      → is_unresolved a r (new_incident call run rule result) ≡ false
  unfolding new_incident
  new_incident-other rule result a r h = ground arith

  upsert_incident-IsSingle :
      (rule : QualityRule) (result : QualityRuleResult) (t : QualityTables)
      → IsSingle t.incidents
      → IsSingle (upsert_incident call run rule result t).incidents
  unfolding upsert_incident seen_again
  upsert_incident-IsSingle rule result t h a r = elim (Bool-cases (raises_incident rule result)) [
    | inr e ↦ rw e (h a r)
    | inl e ↦ rw e (by_key (Bool-cases (run.asset_id == a && rule.id == r)))
  ]
    where
      again : QualityIncident → QualityIncident
      again = seen_again call run rule result

      incident : QualityIncident
      incident = new_incident call run rule result

      single : String → String → Type 0
      single i j =
          length (
            keep (is_unresolved i j)
              (upsert_first (is_unresolved run.asset_id rule.id) again incident t.incidents))
          ≤ 1

      same : single run.asset_id rule.id
      same =
          upsert_first-same (is_unresolved run.asset_id rule.id) again incident (λ x. refl)
            t.incidents (h run.asset_id rule.id)

      by_key :
          ((run.asset_id == a && rule.id == r) ≡ true)
            ⊎ ((run.asset_id == a && rule.id == r) ≡ false)
          → single a r
      by_key (inl e) =
          subst (single a) ((eq_iff rule.id r).0 (ground arith))
            (subst (λ i. single i rule.id) ((eq_iff run.asset_id a).0 (ground arith)) same)
      by_key (inr ne) =
          rw
            (upsert_first-other (is_unresolved run.asset_id rule.id) again incident
              (is_unresolved a r) (λ x. refl) (new_incident-other rule result a r ne) t.incidents)
            (h a r)

module _ {W : Type 0} (nums : Numbers W) (call : RunCall) where
  run_rule-IsSingle :
      (run : QualityRun) (rule : QualityRule) (db : Db)
      → IsSingle db.work.incidents
      → IsSingle (run_rule nums call run rule db).1.work.incidents
  unfolding run_rule flush_or
  run_rule-IsSingle run rule db h =
      by_evaluation (evaluate_rule nums rule run.profile_snapshot (call.now rule.id)) refl
    where
      by_faults :
          (e : Evaluation) (fs : List Bool)
          → db.faults ≡ fs
          → evaluate_rule nums rule run.profile_snapshot (call.now rule.id) ≡ some e
          → IsSingle (run_rule nums call run rule db).1.work.incidents
      by_faults e [] q k =
          rw (k, run_rule)
            (rw q (upsert_incident-IsSingle call run rule (new_result call run rule e) _ h))
      by_faults e (true ∷ fs) q k = rw (k, run_rule) (rw q h)
      by_faults e (false ∷ fs) q k =
          rw (k, run_rule)
            (rw q (upsert_incident-IsSingle call run rule (new_result call run rule e) _ h))

      by_evaluation :
          (o : Option Evaluation)
          → evaluate_rule nums rule run.profile_snapshot (call.now rule.id) ≡ o
          → IsSingle (run_rule nums call run rule db).1.work.incidents
      by_evaluation none q = rw (q, run_rule) h
      by_evaluation (some e) q = by_faults e db.faults refl q

  pub run_rules-IsSingle :
      (run : QualityRun) (rules : List QualityRule) (db : Db)
      → IsSingle db.work.incidents
      → IsSingle (run_rules nums call run rules db).1.work.incidents
  unfolding run_rules
  run_rules-IsSingle run [] db h = h
  run_rules-IsSingle run (rule ∷ rules) db h =
      by_result (run_rules-IsSingle run rules) (run_rule nums call run rule db).0
        (run_rule nums call run rule db).1 (run_rule-IsSingle run rule db h)
    where
      rest_of : QualityRuleResult → Action (List (QualityRule × QualityRuleResult))
      rest_of result = do rest ← run_rules nums call run rules; pure ((rule, result) ∷ rest)

      by_rest :
          (result : QualityRuleResult)
          (r : Result QualityError (List (QualityRule × QualityRuleResult))) (t : Db)
          → IsSingle t.work.incidents
          → IsSingle
              (continue {B = List (QualityRule × QualityRuleResult)}
                (λ rest. pure ((rule, result) ∷ rest))
                r
                t).1.work.incidents
      by_rest result (ok _) t k = k
      by_rest result (raised _) t k = k

      by_result :
          ((t : Db)
            → IsSingle t.work.incidents
            → IsSingle (run_rules nums call run rules t).1.work.incidents)
          → (r : Result QualityError QualityRuleResult) (t : Db) → IsSingle t.work.incidents
          → IsSingle (continue rest_of r t).1.work.incidents
      by_result later (ok result) t k =
          by_rest result (run_rules nums call run rules t).0 (run_rules nums call run rules t).1
            (later t k)
      by_result later (raised e) t k = k
