-- ===== src/Quality/Incidents.antt =====
-- The incidents of apps/quality-api/app/services/quality_service.py, with the routes that call them.
pub mod Dated
use datagenie.Prelude.{
  String, Option, some, find_row, List, none, put_row, ◌++◌, none, ◌∷◌, keep, [],
}
use datagenie.Catalog.Models.{Instant}
use datagenie.Quality.Models.{
  QualityIncident, QualityIncidentComment, Db, Action, IncidentStatus, QualityTables, resolved,
  failure,
}
use datagenie.Prelude.Exec.{gets, raise, ◌>>=◌, ◌>>◌, pure}
use datagenie.Quality.Rules.{is_for_asset, Call}
use datagenie.Quality.Assets.{found_or_404}
use datagenie.Prelude.Store.{update_work, commit_or}

unfoldable pub get_incident : String → Db → Option QualityIncident
get_incident incident_id db = find_row (λ i. i.id) incident_id db.work.incidents

unfoldable pub get_incident_or_404 : String → Action QualityIncident
get_incident_or_404 incident_id =
    found_or_404 "Quality incident not found." (get_incident incident_id)

-- The order of the answer is left out.
unfoldable pub list_incidents : Option String → Action (List QualityIncident)
list_incidents asset_id =
    gets (λ db. keep (λ i. is_for_asset asset_id i.asset_id) db.work.incidents)

-- A field that is not set is `none`; `some none` is a `null`.
pub record IncidentUpdate : Type 0 where
  pub status : Option (Option IncidentStatus)
  pub assignee : Option (Option String)

abbrev pub set_assignee : Option (Option String) → QualityIncident → QualityIncident
set_assignee none incident = incident
set_assignee (some a) incident = record incident { assignee = a }

-- The status and the time that goes with it. A status that is null never reaches the table.
abbrev pub set_status : Instant → IncidentStatus → QualityIncident → QualityIncident
set_status now resolved incident = record incident { status = resolved; resolved_at = some now }
set_status now status incident = record incident { status = status; resolved_at = none }

abbrev pub write_incident : QualityIncident → QualityTables → QualityTables
write_incident i t = record t { incidents = put_row (λ j. j.id) i t.incidents }

unfoldable pub save_incident : Call → QualityIncident → Action QualityIncident
save_incident call incident =
    update_work (write_incident incident) >> commit_or (failure call.broken) >> pure incident

-- A null status is refused by the commit.
unfoldable pub update_status :
    Call → Option (Option IncidentStatus) → QualityIncident → Action QualityIncident
update_status call none incident = save_incident call incident
update_status call (some none) incident = raise (failure call.broken)
update_status call (some (some status)) incident =
    save_incident call (set_status call.now status incident)

unfoldable pub update_incident : Call → QualityIncident → IncidentUpdate → Action QualityIncident
update_incident call incident payload =
    update_status call payload.status (set_assignee payload.assignee incident)

unfoldable pub patch_quality_incident : Call → String → IncidentUpdate → Action QualityIncident
patch_quality_incident call incident_id payload =
    get_incident_or_404 incident_id >>= λ incident. update_incident call incident payload

abbrev pub add_comment : QualityIncidentComment → QualityTables → QualityTables
add_comment c t = record t { comments = t.comments ++ c ∷ [] }

unfoldable pub add_incident_comment :
    Call → QualityIncident → String → String → Action QualityIncidentComment
add_incident_comment call incident author body = do
  let comment : QualityIncidentComment = record {
    incident_id = incident.id;
    author = author;
    body = body;
  }
  update_work (add_comment comment)
  commit_or (failure call.broken)
  pure comment

unfoldable pub create_incident_comment :
    Call → String → String → String → Action QualityIncidentComment
create_incident_comment call incident_id author body =
    get_incident_or_404 incident_id >>= λ incident. add_incident_comment call incident author body
