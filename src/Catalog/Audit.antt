-- ===== src/Catalog/Audit.antt =====
-- apps/catalog-api/app/services/audit_service.py
pub mod Redaction
use datagenie.Prelude.{
  String, Bool, false, Option, none, some, List, [], ◌∷◌, ◌++◌, any, if◌then◌else◌,
}
use datagenie.Prelude.Text.{codes, lower, is_infix}
use datagenie.Prelude.Exec.{ok}
use datagenie.Prelude.Json.{
  Value, null, bool, int, text, array, object, Items, nil, cons, Fields, end, field, negative,
  fraction,
}
use datagenie.Catalog.Models.{AuditEvent}
use datagenie.Catalog.Session.{Action}
use datagenie.Catalog.Principals.{Principal}

abbrev pub sensitive_metadata_key_fragments : List String
sensitive_metadata_key_fragments =
    "secret" ∷ "password" ∷ "token" ∷ "authorization" ∷ "credential" ∷ "connection_string"
    ∷ "private_key" ∷ []

-- `any(fragment in key.lower() for fragment in …)`; an empty key is not looked at.
unfoldable pub is_sensitive_key : String → Bool
is_sensitive_key String.[] = false
is_sensitive_key key =
    any (λ fragment. is_infix (codes fragment) (lower (codes key))) sensitive_metadata_key_fragments

-- `sanitize_audit_metadata`; the key of a field is tested where the field is walked.
unfoldable mutual
  pub sanitize_value : Value → Value
  sanitize_value null = null
  sanitize_value (bool b) = bool b
  sanitize_value (int n) = int n
  sanitize_value (negative n) = negative n
  sanitize_value (fraction s) = fraction s
  sanitize_value (text s) = text s
  sanitize_value (array xs) = array (sanitize_items xs)
  sanitize_value (object fs) = object (sanitize_fields fs)

  pub sanitize_items : Items → Items
  sanitize_items nil = nil
  sanitize_items (cons v vs) = cons (sanitize_value v) (sanitize_items vs)

  pub sanitize_fields : Fields → Fields
  sanitize_fields end = end
  sanitize_fields (field k v fs) =
      field k (if is_sensitive_key k then text "[REDACTED]" else sanitize_value v)
        (sanitize_fields fs)

-- Sorted role names: `sorted(principal.roles)` is the order in which `roles` is listed.
unfoldable pub record_audit_event :
    Option Principal
    → String
    → String
    → String
    → Option String
    → String
    → String
    → Value
    → Action AuditEvent
record_audit_event principal id action resource_type resource_id outcome request_id metadata db =
    let event : AuditEvent = record {
      id = id;
      actor_subject = elim principal [ none ↦ none | some p ↦ some p.subject ];
      actor_roles = elim principal [ none ↦ [] | some p ↦ p.roles ];
      action = action;
      resource_type = resource_type;
      resource_id = resource_id;
      outcome = outcome;
      request_id = request_id;
      metadata_json = sanitize_value metadata;
    } in
    (
      ok event,
      record db { work = record (db.work) { audit_events = db.work.audit_events ++ event ∷ [] } },
    )
