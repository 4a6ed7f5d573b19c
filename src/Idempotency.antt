-- ===== src/Idempotency.antt =====
-- apps/catalog-api/app/services/idempotency_service.py: a mutation that is sent again under its
-- Idempotency-Key is answered from the record of the first time.
use mathlib.Core.Option.{Option, none, some}
pub mod Replay
use datagenie.Prelude.Text.{Codes, strip, codes_eq, codes}
use datagenie.Prelude.{
  ℕ, String, Bool, ◌==◌, List, not, ◌&&◌, ◌∷◌, leb, ◌+◌, if◌then◌else◌, keep, [], eqb, ◌++◌, length,
  ◌||◌,
}
use datagenie.Catalog.Session.{
  raise_if, Env, Db, commit, Request, flush, in_scope, Action, update_tables, http,
}
use datagenie.Catalog.Models.{IdempotencyRecord, Instant, seconds}
use datagenie.Prelude.Json.{Value}
use datagenie.Catalog.Principals.{Principal}
use datagenie.Prelude.Exec.{pure, ok, ◌>>◌, raise, ◌>>=◌, gets}

pub record IdempotencyContext : Type 0 where
  pub key : Codes
  pub principal_subject : String
  pub method : String
  pub path : String
  pub request_hash : String

-- What a replay answers; its `Idempotent-Replayed` header is implied.
pub record Response : Type 0 where
  pub status_code : ℕ
  pub content : Value

-- The header, the path, the method and the body of the HTTP request.
pub record HttpRequest : Type 0 where
  pub idempotency_key : Option String
  pub method : String
  pub path : String
  pub body : String

unfoldable pub get_idempotency_context :
    Env → HttpRequest → Principal → Action (Option IdempotencyContext)
get_idempotency_context env request principal = elim (request.idempotency_key) [
  | none ↦ pure none
  | some header ↦
      (let key = strip (codes header) in
        raise_if (eqb (length key) 0 || not (leb (length key) 255))
          (http 422 "invalid_idempotency_key")
        >> pure (
            some (record {
              key = key;
              principal_subject = principal.subject;
              method = request.method;
              path = request.path;
              request_hash = env.sha256 request.body;
            })))
]

-- The `where` of the lookup.
abbrev pub is_for : IdempotencyContext → IdempotencyRecord → Bool
is_for context r =
    r.principal_subject == context.principal_subject
    && (codes_eq r.idempotency_key context.key
        && (r.method == context.method && r.path == context.path))

-- `db.scalar(select(…).where(test))`
abbrev pub find : {A : Type 0} → (A → Bool) → List A → Option A
find p [] = none
find p (x ∷ xs) = let rest = find p xs in if p x then some x else rest

unfoldable pub find_record : IdempotencyContext → Db → Option IdempotencyRecord
find_record context db =
    find (λ r. in_scope db r.tenant_id && is_for context r) db.work.idempotency_records

abbrev pub is_past : Instant → IdempotencyRecord → Bool
is_past now r = not (leb now r.expires_at)

unfoldable pub delete_record : IdempotencyRecord → Action (Unit {0})
delete_record r =
    update_tables
      λ t. record t { idempotency_records = keep (λ q. not (q.id == r.id)) t.idempotency_records }

-- The answer from a record that is there.
unfoldable pub replay_record :
    Request → IdempotencyContext → IdempotencyRecord → Action (Option Response)
unfolding delete_record commit
replay_record req context r =
    if is_past req.now r
    then (delete_record r >> commit) >> pure none
    else if not (r.request_hash == context.request_hash)
    then raise (http 409 "idempotency_conflict")
    else pure (some (record { status_code = r.status_code; content = r.response_body }))

unfoldable pub replay_response : Request → Option IdempotencyContext → Action (Option Response)
unfolding find_record replay_record
replay_response req none db = (ok none, db)
replay_response req (some context) db = elim (find_record context db) [
  | none ↦ (ok none, db)
  | some r ↦ replay_record req context r db
]

unfoldable pub new_record :
    Request → String → IdempotencyContext → Value → ℕ → ℕ → IdempotencyRecord
new_record req tenant context response_body status_code ttl = record {
  id = req.new_id;
  tenant_id = tenant;
  principal_subject = context.principal_subject;
  idempotency_key = context.key;
  method = context.method;
  path = context.path;
  request_hash = context.request_hash;
  status_code = status_code;
  response_body = response_body;
  expires_at = req.now + seconds ttl;
}

-- The `delete` is a statement and so, unlike a select, under no tenant filter; `ttl` is
-- `settings.idempotency_ttl_seconds`.
unfoldable pub store_response :
    Request → Option IdempotencyContext → Value → ℕ → ℕ → Action (Unit {0})
unfolding flush commit new_record
store_response req none response_body status_code ttl = commit
store_response req (some context) response_body status_code ttl = do
  flush
  update_tables λ t. record t {
    idempotency_records = keep (λ r. not (is_past req.now r)) t.idempotency_records;
  }
  tenant ← gets (λ db. db.tenant)
  update_tables λ t. record t {
    idempotency_records =
        t.idempotency_records ++ new_record req tenant context response_body status_code ttl ∷ [];
  }
  commit
