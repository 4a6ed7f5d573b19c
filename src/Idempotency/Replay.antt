-- ===== src/Idempotency/Replay.antt =====
-- A stored response is the one that is replayed, until it expires, and only for the same body.
use datagenie.Prelude.Text.{Codes, codes_eq}
use datagenie.Prelude.{
  if◌then◌else◌, Bool, List, ◌≡◌, true, none, ℕ, ◌∷◌, keep, ◌++◌, arith, [], some, refl, not,
  eq_refl, String, ◌&&◌, ◌≤◌, ◌+◌, ◌==◌, ap, Bool-cases, Option, inl, ◌∙◌, inr,
}
use datagenie.Catalog.Session.{Request, Db, Error, in_scope, http}
use datagenie.Idempotency.{
  IdempotencyContext, find, store_response, new_record, find_record, replay_response, is_for,
  is_past, replay_record, Response,
}
use datagenie.Prelude.Json.{Value}
use datagenie.Prelude.Exec.{Result, ok, raised}
use datagenie.Catalog.Models.{IdempotencyRecord, seconds}

codes_eq_self : (s : Codes) → codes_eq s s ≡ true
codes_eq_self [] = refl
codes_eq_self (c ∷ s) = ground (arith, codes_eq_self s)

module _ {A : Type 0} (p q : A → Bool) where
  find-keep : (xs : List A) → find p xs ≡ none → find p (keep q xs) ≡ none
  find-keep [] h = refl
  find-keep (x ∷ xs) h = ground (arith, find-keep xs)

module _ {A : Type 0} (p : A → Bool) where
  find-append :
      (xs : List A) (y : A) → find p xs ≡ none → p y ≡ true → find p (xs ++ y ∷ []) ≡ some y
  find-append [] y h e = ground arith
  find-append (x ∷ xs) y h e = ground (arith, find-append xs y)

module _ (req : Request) (context : IdempotencyContext) (body : Value) (status ttl : ℕ)
    (db : Db) where
  abbrev stored : Result Error (Unit {0}) × Db
  stored = store_response req (some context) body status ttl db

  abbrev added : IdempotencyRecord
  added = new_record req db.tenant context body status ttl

  store_response-ok :
      stored.0 ≡ ok tt
      → (stored.1.tenant ≡ db.tenant)
        × (stored.1.isolation ≡ db.isolation)
        × (stored.1.saved ≡ stored.1.work)
        × (stored.1.work.idempotency_records
            ≡ keep (λ r. not (is_past req.now r)) db.work.idempotency_records ++ added ∷ [])
  unfolding store_response
  store_response-ok h = ground arith

  is_for-added : is_for context added ≡ true
  unfolding new_record
  is_for-added = ground (
    arith,
    eq_refl context.principal_subject,
    codes_eq_self context.key,
    eq_refl context.method,
    eq_refl context.path,
  )

  find_record-store :
      find_record context db ≡ none → stored.0 ≡ ok tt → find_record context stored.1 ≡ some added
  unfolding find_record new_record
  find_record-store none_there h =
      let (tenant, isolation, _, rows) = store_response-ok h in
      rw (tenant, isolation, rows)
        (find-append (λ r. in_scope db r.tenant_id && is_for context r)
          (keep (λ r. not (is_past req.now r)) db.work.idempotency_records) added
          (find-keep (λ r. in_scope db r.tenant_id && is_for context r)
            (λ r. not (is_past req.now r)) db.work.idempotency_records none_there)
          (ground (arith, is_for-added, eq_refl db.tenant)))

  replay_record-added :
      (later : Request) (hash : String)
      → later.now ≤ req.now + seconds ttl
      → replay_record later (record context { request_hash = hash }) added stored.1 ≡ (
        if context.request_hash == hash
            then ok (some (record { status_code = status; content = body }))
            else raised (http 409 "idempotency_conflict"),
        stored.1,
      )
  unfolding replay_record new_record
  replay_record-added later hash early = elim (Bool-cases (context.request_hash == hash)) [
    | inl e ↦ rw e (ground arith)
    | inr e ↦ rw e (ground arith)
  ]

  -- Once a response has been stored under a key that had none, every later request under that key,
  -- by the same caller to the same route and before the record expires, is answered with the stored
  -- status and body if its own body has the same hash, and else with a 409; either way nothing is
  -- written.
  pub replay_response-store_response :
      find_record context db ≡ none
      → stored.0 ≡ ok tt
      → (later : Request) (hash : String) → later.now ≤ req.now + seconds ttl
      → replay_response later (some (record context { request_hash = hash })) stored.1 ≡ (
        if context.request_hash == hash
            then ok (some (record { status_code = status; content = body }))
            else raised (http 409 "idempotency_conflict"),
        stored.1,
      )
  unfolding replay_response
  replay_response-store_response none_there h later hash early =
      ap
        (λ (o : Option IdempotencyRecord). elim o as (λ _. Result Error (Option Response) × Db) [
          | none ↦ (ok none, stored.1)
          | some r ↦ replay_record later (record context { request_hash = hash }) r stored.1
        ])
        (find_record-store none_there h)
      ∙ replay_record-added later hash early
