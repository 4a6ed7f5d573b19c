-- ===== src/Policy/Enforcement.antt =====
-- `enforce_policy`: a protected route goes on only after a permission that is on record.
-- The event that records a decision.
use datagenie.Catalog.Session.{Env, Request, Db, Error, http}
use datagenie.Catalog.Principals.{Principal}
use datagenie.Prelude.{
  String, Option, some, List, ◌≡◌, [], Bool, if◌then◌else◌, none, true, ◌++◌, ◌∷◌, arith, inr, inl,
  ◌||◌, ◌&&◌, not, ◌⊎◌, false,
}
use datagenie.Policy.Decision.{PolicyResource, PolicyDecision, allow, outcome_value}
use datagenie.Catalog.Models.{AuditEvent}
use datagenie.Policy.Access.{
  decide_access, enforce_policy, is_allow, decision_metadata, refusal, decide_and_commit, refuse,
  evaluate_rest_policy, is_human_approval,
}
use datagenie.Prelude.Exec.{Result, ok, raised, Result-cases}
use datagenie.Catalog.Audit.{sanitize_value}
use datagenie.Prelude.Json.{object, field, text, array, end, texts}

abbrev pub decision_event :
    Env
    → Request
    → Principal
    → String
    → PolicyResource
    → Option String
    → PolicyDecision
    → AuditEvent
decision_event env req principal action resource purpose d = record {
  id = req.policy_event_id;
  actor_subject = some principal.subject;
  actor_roles = principal.roles;
  action = "policy.decision";
  resource_type = resource.resource_type;
  resource_id = if d.resource_visible then some resource.resource_id else none;
  outcome = outcome_value d.outcome;
  request_id = d.request_id;
  metadata_json = sanitize_value (decision_metadata env req action purpose d);
}

-- The event of a refusal.
abbrev pub denial_event :
    Request → Principal → String → PolicyResource → PolicyDecision → AuditEvent
denial_event req principal action resource d = record {
  id = req.event_id;
  actor_subject = some principal.subject;
  actor_roles = principal.roles;
  action = action;
  resource_type = resource.resource_type;
  resource_id = if d.resource_visible then some resource.resource_id else none;
  outcome = "denied";
  request_id = req.request_id;
  metadata_json = sanitize_value (
      object (
        field "policy_outcome" (text (outcome_value d.outcome))
          (field "rule_ids" (array (texts d.rule_ids)) end)));
}

module _ (env : Env) (req : Request) (principal : Principal) (action resource_type id : String)
    (purpose : Option String) (db : Db) where
  abbrev resource : PolicyResource
  resource = record { resource_type = resource_type; resource_id = id }

  abbrev d : PolicyDecision
  d = decide_access env req principal principal.tenant_id action resource purpose db

  abbrev enforced : Result Error (Unit {0}) × Db
  enforced = enforce_policy env req principal action resource_type id purpose db

  abbrev event : AuditEvent
  event = decision_event env req principal action resource purpose d

  abbrev decided : Result Error PolicyDecision × Db
  decided =
      decide_and_commit (evaluate_rest_policy env req principal action resource_type id purpose) db

  decide_and_commit-ok :
      {x : PolicyDecision}
      → decided.0 ≡ ok x
      → (x ≡ d)
        × (decided.1.saved ≡ decided.1.work)
        × (decided.1.work.audit_events ≡ db.work.audit_events ++ event ∷ [])
  unfolding decide_and_commit evaluate_rest_policy
  decide_and_commit-ok h = ground arith

  decide_and_commit-no_faults : db.faults ≡ [] → (decided.0 ≡ ok d) × (decided.1.faults ≡ [])
  unfolding decide_and_commit evaluate_rest_policy
  decide_and_commit-no_faults h = ground arith

  refuse-raised :
      (x : PolicyDecision) (t : Db)
      → (refuse req principal action resource_type id x t).0 ≡ ok tt
      → x.outcome ≡ allow
  unfolding refuse
  refuse-raised x t h = ground arith

  refuse-no_faults :
      (x : PolicyDecision) (t : Db)
      → t.faults ≡ []
      → let refused = refuse req principal action resource_type id x t in
        (refused.0 ≡ raised (refusal x.outcome))
        × (refused.1.saved ≡ refused.1.work)
        × (refused.1.work.audit_events
            ≡ t.work.audit_events ++ denial_event req principal action resource x ∷ [])
  unfolding refuse
  refuse-no_faults x t h = ground arith

  -- A protected route goes on only if the decision is a plain permission and the event that
  -- records it has been committed.
  pub enforce_policy-ok :
      enforced.0 ≡ ok tt
      → (d.outcome ≡ allow)
        × (enforced.1.saved ≡ enforced.1.work)
        × (enforced.1.saved.audit_events ≡ db.work.audit_events ++ event ∷ [])
  unfolding enforce_policy
  enforce_policy-ok h = elim (Result-cases decided.0) [
    | inr (e, f) ↦ absurd (ground arith)
    | inl (x, f) ↦
        let (same, saved, events) = decide_and_commit-ok f in
        ground (arith, refuse-raised x decided.1)
  ]

  -- Where the database raises nothing, the decision is on record and so is a refusal; the route
  -- goes on exactly after a plain permission, and a refusal is a 409 for an approval that is
  -- missing and else a 403.
  pub enforce_policy-no_faults :
      db.faults ≡ []
      → (enforced.0 ≡ (
          if is_allow d.outcome
          then ok tt
          else raised (
              if is_human_approval d.outcome
              then http 409 "policy_requires_human_approval"
              else http 403 "policy_denied")))
        × (enforced.1.saved ≡ enforced.1.work)
        × (enforced.1.saved.audit_events ≡ (
            if is_allow d.outcome
            then db.work.audit_events ++ event ∷ []
            else (db.work.audit_events ++ event ∷ [])
              ++ denial_event req principal action resource d ∷ []))
  unfolding enforce_policy
  enforce_policy-no_faults h =
      let (f, quiet) = decide_and_commit-no_faults h in
      let (same, saved, events) = decide_and_commit-ok f in
      let (refused, kept, grown) = refuse-no_faults d decided.1 quiet in ground arith

  -- Where an event cannot be recorded the route does not go on. A flush of the decision's event that
  -- raises is a 503 with everything uncommitted given up, and nothing is committed. A commit of it
  -- that raises is let through as it is, no 503, and nothing is committed either. After a decision
  -- that is on record and is no plain permission, a commit of the refusal's event that raises is a
  -- 503, and of the events the decision's alone is committed.
  pub enforce_policy-no_audit :
      (flushed committed refused : Bool) {fs : List Bool}
      → db.faults ≡ flushed ∷ committed ∷ refused ∷ fs
      → (flushed || committed || refused && not (is_allow d.outcome)) ≡ true
      → ((flushed ≡ true)
          × (enforced.0 ≡ raised (http 503 "policy_unavailable"))
          × (enforced.1.work ≡ db.saved)
          × (enforced.1.saved ≡ db.saved))
        ⊎ (((flushed ≡ false)
              × (committed ≡ true)
              × (enforced.0 ≡ raised Error.other)
              × (enforced.1.saved ≡ db.saved))
            ⊎ ((flushed ≡ false)
                × (committed ≡ false)
                × (enforced.0 ≡ raised (http 503 "policy_unavailable"))
                × (enforced.1.work ≡ enforced.1.saved)
                × (enforced.1.saved.audit_events ≡ db.work.audit_events ++ event ∷ [])))
  unfolding enforce_policy
  enforce_policy-no_audit true committed refused h any = inl (ground arith)
  enforce_policy-no_audit false true refused h any = inr (inl (ground arith))
  enforce_policy-no_audit false false refused h any = inr (inr (ground arith))
