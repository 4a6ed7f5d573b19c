-- ===== src/Quality/Rules/Answers.antt =====
-- What the requests that write rules answer, and what they commit.
use datagenie.Prelude.{
  String, List, Option, ◌∷◌, [], ◌≡◌, some, true, ◌⊎◌, arith, none, inr, refl, Bool-cases, inl,
  subst, sym, ◌∙◌, if◌then◌else◌, any, ap, ◌++◌, false, ◌+◌, put_row, ◌≢◌,
}
use datagenie.Quality.Rules.Versions.{set_fields-key}
use datagenie.Quality.Models.{QualityRule, Db, QualityError, Action}
use datagenie.Quality.Rules.{
  version_row, add_version, Call, create_rule, write_update, RuleUpdate, QualityRuleCreate, bump,
  new_rule, write_rule, validate_updates, validate_update, set_parameters, set_name, set_severity,
  set_owner, set_enabled, set_schedule_cron, set_next_run_at, set_null, update_rule, differs,
  set_fields, rule_definition, is_null,
}
use datagenie.Quality.Numbers.{Numbers}
use datagenie.Prelude.Exec.{Result, continue, ok, raised, pure, Result-cases}
use datagenie.Quality.Rules.Parameters.{validate_rule_parameters}
use datagenie.Prelude.Store.{commit_or, flush_or}

-- A request that raises leaves the committed tables as they were. It was not valid, or the
-- database has a fault.
abbrev pub IsRefused : (QualityError → Type 0) → Db → Result QualityError QualityRule × Db → Type 0
IsRefused IsInvalid db answer =
    (e : QualityError) × (answer.0 ≡ raised e)
    × (answer.1.saved ≡ db.saved)
    × (IsInvalid e ⊎ (db.faults ≢ []))

-- The rule is answered and committed, at its first version, with one version row; the other tables
-- are those of the session.
abbrev pub IsCreated :
    Call → QualityRuleCreate → String → Db → Result QualityError QualityRule × Db → Type 0
IsCreated call payload actor db answer =
    (rule : QualityRule) × (answer.0 ≡ ok rule)
    × (rule ≡ record {
      id = call.new_id;
      asset_id = payload.asset_id;
      column_name = payload.column_name;
      name = payload.name;
      rule_type = payload.rule_type;
      severity = payload.severity;
      owner = payload.owner;
      parameters = some payload.parameters;
      version = 1;
      enabled = true;
      schedule_cron = payload.schedule_cron;
      next_run_at = payload.next_run_at;
    })
    × (answer.1.saved ≡ record db.work {
      rules = db.work.rules ++ rule ∷ [];
      versions =
          db.work.versions
          ++ record {
            rule_id = call.new_id;
            version = 1;
            definition = rule_definition rule;
            changed_by = actor;
            change_reason = some "initial definition";
          }
            ∷ [];
    })

-- Nothing differs: the rule is answered as it is, and nothing is committed.
abbrev pub IsUnchanged :
    QualityRule → List RuleUpdate → Db → Result QualityError QualityRule × Db → Type 0
IsUnchanged rule updates db answer =
    (any (differs rule) updates ≡ false) × (answer.0 ≡ ok rule) × (answer.1.saved ≡ db.saved)

-- The rule with the updates is answered and committed, at the next version, with one version row;
-- the other tables are those of the session.
abbrev pub IsUpdated :
    QualityRule
    → List RuleUpdate
    → Option String
    → String
    → Db
    → Result QualityError QualityRule × Db
    → Type 0
IsUpdated rule updates reason actor db answer =
    (rule' : QualityRule) × (any (differs rule) updates ≡ true)
    × (answer.0 ≡ ok rule')
    × (rule' ≡ record (set_fields updates rule) { version = rule.version + 1 })
    × (answer.1.saved ≡ record db.work {
      rules = put_row (λ r. r.id) rule' db.work.rules;
      versions =
          db.work.versions
          ++ record {
            rule_id = rule.id;
            version = rule.version + 1;
            definition = rule_definition rule';
            changed_by = actor;
            change_reason = reason;
          }
            ∷ [];
    })

module _ {W : Type 0} (nums : Numbers W) (call : Call) where
  abbrev pub IsInvalidRule : QualityRuleCreate → Db → QualityError → Type 0
  IsInvalidRule payload db e =
      (validate_rule_parameters nums payload.rule_type payload.parameters db).0 ≡ raised e

  pub create_rule-answer :
      (payload : QualityRuleCreate) (actor : String) (db : Db)
      → let answer = create_rule nums call payload actor db in
        IsRefused (IsInvalidRule payload db) db answer ⊎ IsCreated call payload actor db answer
  unfolding create_rule validate_rule_parameters flush_or commit_or new_rule version_row
  create_rule-answer payload actor db =
      elim (Result-cases (create_rule nums call payload actor db).0) [
        | inl (rule, h) ↦ inr (new_rule call payload, ground arith, refl, ground arith)
        | inr (e, h) ↦ inl (
          e,
          h,
          ground arith,
          elim (Result-cases
              (validate_rule_parameters nums payload.rule_type payload.parameters db).0) [
                | inr (x, v) ↦ inl (ground arith)
                | inl (u, v) ↦ inr (λ calm. ground arith)
              ],
        )
      ]

  write_update-answer :
      (rule : QualityRule) (updates : List RuleUpdate) (reason : Option String) (actor : String)
      (db : Db)
      → let answer = write_update call rule updates reason actor db in
        IsRefused (λ e. any is_null updates ≡ true) db answer
        ⊎ ((answer.0 ≡ ok (bump rule updates))
            × (answer.1.saved
                ≡ add_version
                    (version_row (bump rule updates) actor reason)
                    (write_rule (bump rule updates) db.work)))
  unfolding write_update commit_or
  write_update-answer rule updates reason actor db =
      elim (Result-cases (write_update call rule updates reason actor db).0) [
        | inl (r, h) ↦ inr (ground arith, ground arith)
        | inr (e, h) ↦ inl (
          e,
          h,
          ground arith,
          elim (Bool-cases (any is_null updates)) [
            | inl nulls ↦ inl nulls
            | inr nulls ↦ inr (λ calm. ground arith)
          ],
        )
      ]

  validate_updates-state :
      (rule : QualityRule) (updates : List RuleUpdate) (db : Db)
      → (validate_updates nums rule updates db).1 ≡ db
  unfolding validate_updates validate_rule_parameters
  validate_updates-state rule [] db = refl
  validate_updates-state rule (u ∷ us) db =
      by_answer (validate_updates-state rule us) (validate_update nums rule u db).0
        (validate_update nums rule u db).1
      ∙ by_update u
    where
      by_answer :
          ((t : Db) → (validate_updates nums rule us t).1 ≡ t)
          → (r : Result QualityError (Unit {0})) (t : Db)
          → (continue {B = Unit {0}} (λ _. validate_updates nums rule us) r t).1 ≡ t
      by_answer later (ok _) t = later t
      by_answer later (raised e) t = refl

      by_update : (u : RuleUpdate) → (validate_update nums rule u db).1 ≡ db
      by_update (set_parameters (some ps)) = refl
      by_update (set_parameters none) = refl
      by_update (set_name _) = refl
      by_update (set_severity _) = refl
      by_update (set_owner _) = refl
      by_update (set_enabled _) = refl
      by_update (set_schedule_cron _) = refl
      by_update (set_next_run_at _) = refl
      by_update set_null = refl

  -- What makes an update of a rule invalid: parameters that do not fit the rule's type, or a null.
  abbrev pub IsInvalidUpdate : QualityRule → List RuleUpdate → Db → QualityError → Type 0
  IsInvalidUpdate rule updates db e =
      ((validate_updates nums rule updates db).0 ≡ raised e) ⊎ (any is_null updates ≡ true)

  -- What an update of a rule answers.
  abbrev pub Answer :
      QualityRule
      → List RuleUpdate
      → Option String
      → String
      → Db
      → Result QualityError QualityRule × Db
      → Type 0
  Answer rule updates reason actor db answer =
      IsRefused (IsInvalidUpdate rule updates db) db answer
      ⊎ (IsUnchanged rule updates db answer ⊎ IsUpdated rule updates reason actor db answer)

  pub update_rule-Answer :
      (rule : QualityRule) (updates : List RuleUpdate) (reason : Option String) (actor : String)
      (db : Db)
      → Answer rule updates reason actor db (update_rule nums call rule updates reason actor db)
  unfolding update_rule version_row
  update_rule-Answer rule updates reason actor db =
      by_answer (validate_updates nums rule updates db).0 (validate_updates nums rule updates db).1
        refl (validate_updates-state rule updates db)
    where
      write : Action QualityRule
      write =
          if any (differs rule) updates
          then write_update call rule updates reason actor
          else pure rule

      nulls :
          {x : QualityError}
          → (any is_null updates ≡ true) ⊎ (db.faults ≢ [])
          → IsInvalidUpdate rule updates db x ⊎ (db.faults ≢ [])
      nulls (inl n) = inl (inr n)
      nulls (inr n) = inr n

      written : Answer rule updates reason actor db (write db)
      written = elim (Bool-cases (any (differs rule) updates)) [
        | inr e ↦ rw e (inr (inl (refl, refl, refl)))
        | inl e ↦ elim (write_update-answer rule updates reason actor db) [
          | inl (x, r, same, why) ↦ rw e (inl (x, r, same, nulls why))
          | inr (r, same) ↦
              let (key, version) = set_fields-key updates rule in
              let next : bump rule updates
                  ≡ record (set_fields updates rule) { version = rule.version + 1 } =
                ground (arith, version) in
              rw e
                (inr (inr (bump rule updates, refl, r, next, ground (arith, same, key, version))))
        ]
      ]

      by_answer :
          (r : Result QualityError (Unit {0})) (t : Db)
          → (validate_updates nums rule updates db).0 ≡ r
          → t ≡ db
          → Answer rule updates reason actor db (continue (λ _. write) r t)
      by_answer (ok _) t v q =
          subst (λ x. Answer rule updates reason actor db (write x)) (sym q) written
      by_answer (raised e) t v q = inl (e, refl, ap {A = Db} (λ x. x.saved) q, inl (inl v))
