-- ===== src/Quality/Rules/Requests.antt =====
-- The requests that write rules keep every rule's version row.
use datagenie.Prelude.{
  find_row, String, List, Option, all, not, ◌≡◌, ◌==◌, some, true, ◌⊎◌, arith, none, inr, inl,
  subst, sym, ◌∙◌, ap, suc, Option-cases, find_row-key,
}
use datagenie.Quality.Rules.Versions.{
  IsVersioned, set_fields-key, next_version-IsVersioned, is_at_most,
}
use datagenie.Quality.Models.{QualityRule, Db, QualityError, http}
use datagenie.Quality.Rules.{
  version_row, add_version, add_rule, Call, create_rule, RuleUpdate, QualityRuleCreate, new_rule,
  write_rule, update_rule, patch_quality_rule, get_rule_or_404,
}
use datagenie.Quality.Numbers.{Numbers}
use datagenie.Prelude.Exec.{Result, raised}
use datagenie.Quality.Rules.FirstVersion.{first_version-IsVersioned}
use datagenie.Quality.Rules.Answers.{
  IsRefused, IsInvalidRule, IsInvalidUpdate, IsCreated, IsUnchanged, create_rule-answer, IsUpdated,
  update_rule-Answer, Answer,
}

module _ {W : Type 0} (nums : Numbers W) (call : Call) where
  -- A new rule is asked for under an id that no rule and no version row has. The request is
  -- refused only for parameters that do not fit the type, or for a fault of the database, and then
  -- commits nothing. Else the rule is committed with the fields that were asked for, at version 1
  -- and enabled, with one version row of its definition, its author and its reason; nothing else
  -- changes. Either way every committed rule keeps its version row, and has none newer.
  pub create_rule-IsVersioned :
      (payload : QualityRuleCreate) (actor : String) (db : Db)
      → IsVersioned db.work
      → IsVersioned db.saved
      → all (λ v. not (v.rule_id == call.new_id)) db.work.versions ≡ true
      → find_row (λ r. r.id) call.new_id db.work.rules ≡ none
      → let answer = create_rule nums call payload actor db in
        IsVersioned answer.1.saved
        × (IsRefused (IsInvalidRule nums call payload db) db answer
            ⊎ IsCreated call payload actor db answer)
  unfolding new_rule version_row
  create_rule-IsVersioned payload actor db h g fresh absent = (
    kept (create_rule-answer nums call payload actor db),
    create_rule-answer nums call payload actor db,
  )
    where
      kept :
          IsRefused (IsInvalidRule nums call payload db) db (create_rule nums call payload actor db)
            ⊎ IsCreated call payload actor db (create_rule nums call payload actor db)
          → IsVersioned (create_rule nums call payload actor db).1.saved
      kept (inl (e, r, same, why)) = subst IsVersioned (sym same) g
      kept (inr (rule, r, fields, same)) =
          let tables : (create_rule nums call payload actor db).1.saved
              ≡ add_version (version_row (new_rule call payload) actor (some "initial definition"))
                  (add_rule (new_rule call payload) db.work) =
            ground (arith, same, fields) in
          subst IsVersioned (sym tables) (
            first_version-IsVersioned db.work (new_rule call payload) actor
              (some "initial definition") h fresh absent)

  updated-IsVersioned :
      (rule : QualityRule) (updates : List RuleUpdate) (reason : Option String) (actor : String)
      (db : Db) (answer : Result QualityError QualityRule × Db)
      → IsVersioned db.work
      → IsVersioned db.saved
      → find_row (λ r. r.id) rule.id db.work.rules ≡ some rule
      → Answer nums call rule updates reason actor db answer
      → IsVersioned answer.1.saved
  unfolding version_row
  updated-IsVersioned rule updates reason actor db answer h g row (inl (e, r, same, why)) =
      subst IsVersioned (sym same) g
  updated-IsVersioned rule updates reason actor db answer h g row (inr (inl (d, r, same))) =
      subst IsVersioned (sym same) g
  updated-IsVersioned rule updates reason actor db answer h g row
        (inr (inr (rule', d, r, next, same))) =
      let (key, version) = set_fields-key updates rule in
      let id : rule'.id ≡ rule.id = ground (arith, next, key) in
      let number : rule'.version ≡ suc rule.version = ground (arith, next) in
      let tables : answer.1.saved
          ≡ add_version (version_row rule' actor reason) (write_rule rule' db.work) =
        ground (arith, same, id, number) in
      subst IsVersioned (sym tables) (
        next_version-IsVersioned db.work rule rule' actor reason h
          (subst (λ k. find_row (λ r. r.id) k db.work.rules ≡ some rule) (sym id) row) number)

  -- An update that finds no rule is a 404. One of a rule is refused only for parameters that do not
  -- fit, for a null, or for a fault of the database, and then commits nothing. One that changes
  -- nothing answers the rule and commits nothing. Any other commits the rule with the updates at
  -- the next version, with one version row of its definition, its author and its reason, and
  -- nothing else; no version row of the rule had a number above the rule's before. So every
  -- committed rule keeps its version row, and has none newer.
  pub patch_quality_rule-IsVersioned :
      (rule_id : String) (updates : List RuleUpdate) (reason : Option String) (actor : String)
      (db : Db)
      → IsVersioned db.work
      → IsVersioned db.saved
      → let answer = patch_quality_rule nums call rule_id updates reason actor db in
        IsVersioned answer.1.saved
        × (((find_row (λ r. r.id) rule_id db.work.rules ≡ none)
              × (answer ≡ (raised (http 404 "Quality rule not found."), db)))
            ⊎ ((rule : QualityRule) × (find_row (λ r. r.id) rule_id db.work.rules ≡ some rule)
                × (all (is_at_most rule_id rule.version) db.work.versions ≡ true)
                × (IsRefused (IsInvalidUpdate nums call rule updates db) db answer
                    ⊎ (IsUnchanged rule updates db answer
                        ⊎ IsUpdated rule updates reason actor db answer))))
  unfolding patch_quality_rule get_rule_or_404
  patch_quality_rule-IsVersioned rule_id updates reason actor db h g =
      elim (Option-cases (find_row (λ r. r.id) rule_id db.work.rules)) [
        | inl q ↦ (rw (q, get_rule_or_404) g, inl (q, rw (q, get_rule_or_404)))
        | inr (rule, q) ↦
            let outcome = update_rule-Answer nums call rule updates reason actor db in
            let same = find_row-key (λ r. r.id) rule_id db.work.rules rule q in
            let row : find_row (λ r. r.id) rule.id db.work.rules ≡ some rule =
              ap (λ k. find_row (λ r. r.id) k db.work.rules) same ∙ q in
            let run : patch_quality_rule nums call rule_id updates reason actor db
                ≡ update_rule nums call rule updates reason actor db =
              rw (q, get_rule_or_404) in
            rw run (
              updated-IsVersioned rule updates reason actor db
                  (update_rule nums call rule updates reason actor db) h g row outcome,
              inr (rule, q, h.newest rule_id rule q, outcome),
            )
      ]
