-- ===== src/Catalog/Authorization.antt =====
-- The role tests of apps/catalog-api/app/core/security.py.
-- The event is written in a session of its own, and whatever raises there is passed over.
use datagenie.Catalog.Audit.{record_audit_event}
use datagenie.Catalog.Session.{Request, commit, Db, Action, http}
use datagenie.Catalog.Principals.{Principal, has_any_role, role_data_steward, role_data_owner}
use datagenie.Prelude.{
  String, Option, List, Bool, some, if◌then◌else◌, not, ◌∷◌, [], ◌||◌, contains, ◌&&◌, is_text,
}
use datagenie.Prelude.Json.{object, field, text, array, texts, end}
use datagenie.Prelude.Exec.{raised, ok, ◌>>◌}
use datagenie.Policy.Decision.{sorted_set}

unfoldable pub record_authorization_denial :
    Request → Principal → String → String → List String → Db → Db
unfolding record_audit_event commit
record_authorization_denial req principal method path accepted_roles db =
    let (_, own) =
      (record_audit_event (some principal) req.event_id "authorization.denied" "api_route"
            (some path) "denied" req.request_id
            (object (
              field "method" (text method)
                (field "accepted_roles" (array (texts (sorted_set accepted_roles))) end)))
          >> commit)
        (record db { work = db.saved }) in
    record db { saved = own.saved; faults = own.faults }

unfoldable pub require_roles :
    Request → String → String → List String → Principal → Action Principal
unfolding record_authorization_denial
require_roles req method path accepted_roles principal db =
    if not (has_any_role principal accepted_roles)
    then (
      raised (http 403 "The current role is not authorized for this operation."),
      record_authorization_denial req principal method path accepted_roles db,
    )
    else (ok principal, db)

unfoldable pub can_curate_asset : Principal → Option String → Bool
can_curate_asset principal owner =
    has_any_role principal (role_data_steward ∷ [])
    || contains role_data_owner principal.roles && is_text owner principal.subject
