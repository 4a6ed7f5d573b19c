-- ===== src/Quality/Incidents/Dated.antt =====
-- An incident has the time of its resolution exactly while it is resolved.
use datagenie.Quality.Models.{
  QualityIncident, IncidentStatus, Db, Action, open_, acknowledged, QualityError, resolved, http,
}
use datagenie.Prelude.{
  put_row, find_row, Option, Bool, List, String, same_bool, all, ◌≡◌, true, some, ◌∷◌, arith, none,
  none, refl, [], [], ◌∙◌, subst, sym,
}
use datagenie.Catalog.Models.{Instant}
use datagenie.Quality.Incidents.{
  save_incident, update_status, patch_quality_incident, get_incident_or_404, set_assignee,
  set_status, get_incident, update_incident, IncidentUpdate,
}
use datagenie.Prelude.Store.{commit_or}
use datagenie.Quality.Rules.{Call}
use datagenie.Quality.Runs.Results.{is_resolved}
use datagenie.Quality.Runs.Schedules.{is_given}
use datagenie.Prelude.Exec.{Result, continue, raised, ok}
use datagenie.Quality.Assets.{found_or_404}

abbrev pub is_dated : QualityIncident → Bool
is_dated i = same_bool (is_resolved i.status) (is_given i.resolved_at)

all-put_row :
    (i : QualityIncident) (is : List QualityIncident)
    → all is_dated is ≡ true
    → is_dated i ≡ true
    → all is_dated (put_row (λ j. j.id) i is) ≡ true
unfolding put_row
all-put_row i [] h d = refl
all-put_row i (x ∷ is) h d = ground (arith, all-put_row i is)

all-find_row :
    (k : String) (is : List QualityIncident) (i : QualityIncident)
    → all is_dated is ≡ true
    → find_row (λ j. j.id) k is ≡ some i
    → is_dated i ≡ true
unfolding find_row
all-find_row k [] i h f = absurd (ground arith)
all-find_row k (x ∷ is) i h f = ground (arith, all-find_row k is i)

set_assignee-is_dated :
    (a : Option (Option String)) (i : QualityIncident) → is_dated (set_assignee a i) ≡ is_dated i
set_assignee-is_dated none i = refl
set_assignee-is_dated (some a) i = refl

set_status-is_dated :
    (now : Instant) (s : IncidentStatus) (i : QualityIncident)
    → is_dated (set_status now s i) ≡ true
set_status-is_dated now open_ i = refl
set_status-is_dated now acknowledged i = refl
set_status-is_dated now resolved i = refl

save_incident-is_dated :
    (call : Call) (i : QualityIncident) (db : Db)
    → all is_dated db.work.incidents ≡ true
    → all is_dated db.saved.incidents ≡ true
    → is_dated i ≡ true
    → all is_dated (save_incident call i db).1.saved.incidents ≡ true
unfolding save_incident commit_or
save_incident-is_dated call i db h g d = ground (arith, all-put_row i db.work.incidents h d)

update_status-is_dated :
    (call : Call) (s : Option (Option IncidentStatus)) (i : QualityIncident) (db : Db)
    → all is_dated db.work.incidents ≡ true
    → all is_dated db.saved.incidents ≡ true
    → is_dated i ≡ true
    → all is_dated (update_status call s i db).1.saved.incidents ≡ true
unfolding update_status
update_status-is_dated call none i db h g d = save_incident-is_dated call i db h g d
update_status-is_dated call (some none) i db h g d = g
update_status-is_dated call (some (some s)) i db h g d =
    save_incident-is_dated call (set_status call.now s i) db h g (set_status-is_dated call.now s i)

module _ {A : Type 0} (detail : String) (look : Db → Option A) (db : Db) where
  found_or_404-none : look db ≡ none → found_or_404 detail look db ≡ (raised (http 404 detail), db)
  found_or_404-none h = rw (h, found_or_404) refl

  found_or_404-some : {a : A} → look db ≡ some a → found_or_404 detail look db ≡ (ok a, db)
  found_or_404-some h = rw (h, found_or_404) refl

-- If every incident has the time of its resolution exactly while it is resolved, that stays so among
-- the committed incidents after any update, also one that reopens an incident or fails.
pub patch_quality_incident-is_dated :
    (call : Call) (incident_id : String) (payload : IncidentUpdate) (db : Db)
    → all is_dated db.work.incidents ≡ true
    → all is_dated db.saved.incidents ≡ true
    → all is_dated (patch_quality_incident call incident_id payload db).1.saved.incidents ≡ true
unfolding patch_quality_incident get_incident_or_404 get_incident update_incident
patch_quality_incident-is_dated call incident_id payload db h g =
    by_found (find_row (λ i. i.id) incident_id db.work.incidents) refl
  where
    update : QualityIncident → Action QualityIncident
    update i = update_incident call i payload

    Keeps : Result QualityError QualityIncident × Db → Type 0
    Keeps answer = all is_dated (continue update answer.0 answer.1).1.saved.incidents ≡ true

    absent :
        find_row (λ i. i.id) incident_id db.work.incidents ≡ none
        → get_incident_or_404 incident_id db ≡ (raised (http 404 "Quality incident not found."), db)
    absent q = found_or_404-none "Quality incident not found." (get_incident incident_id) db q

    present :
        (i : QualityIncident)
        → find_row (λ j. j.id) incident_id db.work.incidents ≡ some i
        → get_incident_or_404 incident_id db ≡ (ok i, db)
    present i q = found_or_404-some "Quality incident not found." (get_incident incident_id) db q

    by_found :
        (o : Option QualityIncident)
        → find_row (λ i. i.id) incident_id db.work.incidents ≡ o
        → Keeps (get_incident_or_404 incident_id db)
    by_found none q = subst Keeps (sym (absent q)) g
    by_found (some i) q = subst Keeps (sym (present i q)) (
        update_status-is_dated call payload.status (set_assignee payload.assignee i) db h g (
          set_assignee-is_dated payload.assignee i
          ∙ all-find_row incident_id db.work.incidents i h q))
