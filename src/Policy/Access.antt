-- ===== src/Policy/Access.antt =====
-- `evaluate_access`, `_record_policy_decision` and the REST adapters, with `enforce_policy` of
-- apps/catalog-api/app/core/policy.py.
use datagenie.Prelude.{
  ◌==◌, String, Bool, true, false, not, ◌&&◌, ◌||◌, Option, none, some, List, [], ◌∷◌, any, truthy,
  if◌then◌else◌,
}
use datagenie.Prelude.Exec.{ok, raised, pure, raise, gets, ◌>>=◌, ◌>>◌}
use datagenie.Prelude.Json.{
  Value, bool, text, array, object, Items, nil, cons, end, field, texts, text_or_null,
}
use datagenie.Catalog.Principals.{Principal}
use datagenie.Catalog.Session.{
  Db, Error, http, policy_evaluation, Env, Request, Action, flush, commit, rollback,
}
use datagenie.Catalog.Audit.{record_audit_event}
use datagenie.Policy.Decision.{
  PolicyOutcome, allow, deny, requires_human_approval, outcome_value, PolicyResource,
  PolicyEvidenceReference, PolicyDecision, evidence_of, decision, resolve_resource,
}
use datagenie.Policy.Rules.{evaluate_rules}

abbrev pub policy_decision_version : String
policy_decision_version = "1.0.0"

-- `SUPPORTED_ACTIONS`: each action with the type of its resource. The second component, whether a
-- purpose is required, changes nothing: both branches of `effective_purpose` are `purpose`.
abbrev pub supported_actions : List (String × String)
supported_actions =
    ("asset.read", "asset")
    ∷ ("asset.curate", "asset")
    ∷ ("quality_evidence.update", "asset")
    ∷ ("classification.review", "classification_finding")
    ∷ ("certification.decide", "certification_request")
    ∷ ("governance.proposal.create", "asset")
    ∷ ("governance.proposal.approve", "asset")
    ∷ ("governance.proposal.execute", "asset")
    ∷ []

unfoldable pub is_supported : String → String → Bool
is_supported action resource_type =
    any (λ (entry : String × String). entry.0 == action && entry.1 == resource_type)
      supported_actions

abbrev pub evidence_values : List PolicyEvidenceReference → Items
evidence_values [] = nil
evidence_values (e ∷ es) =
    cons (object (field "type" (text e.type) (field "reference" (text e.reference) end)))
      (evidence_values es)

abbrev pub purpose_digest : Env → Option String → Option String
purpose_digest env none = none
purpose_digest env (some purpose) = some (env.sha256 purpose)

unfoldable pub decision_metadata : Env → Request → String → Option String → PolicyDecision → Value
decision_metadata env req action purpose d = object (
    field "policy_action" (text action) (
      field "decision_version" (text policy_decision_version) (
        field "rule_ids" (array (texts d.rule_ids)) (
          field "evidence_references" (array (evidence_values d.evidence)) (
            field "obligations" (array (texts d.obligations)) (
              field "expires_at" (text (env.isoformat d.expires_at)) (
                field "purpose_digest" (text_or_null (purpose_digest env purpose)) (
                  field "purpose_category" (text (if truthy purpose then "declared" else "missing"))
                    (field "resource_visible" (bool d.resource_visible)
                      (field "duration_ms" req.duration_ms end))))))))))

-- The `except` of `_record_policy_decision`: whatever raises becomes a `PolicyEvaluationError`.
unfoldable pub or_policy_error : {A : Type 0} → Action A → Action A
or_policy_error m db =
    let (r, db') = m db in
    elim r [ ok a ↦ (ok a, db') | raised e ↦ (raised policy_evaluation, db') ]

unfoldable pub record_policy_decision :
    Env
    → Request
    → Principal
    → String
    → PolicyResource
    → Option String
    → PolicyDecision
    → Action (Unit {0})
unfolding or_policy_error record_audit_event flush
record_policy_decision env req principal action resource purpose d = or_policy_error (
    record_audit_event (some principal) req.policy_event_id "policy.decision" resource.resource_type
      (if d.resource_visible then some resource.resource_id else none) (outcome_value d.outcome)
      d.request_id (decision_metadata env req action purpose d)
    >>= λ _. flush)

-- The decision that `evaluate_access` comes to, before it is recorded.
unfoldable pub decide_access :
    Env
    → Request
    → Principal
    → String
    → String
    → PolicyResource
    → Option String
    → Db
    → PolicyDecision
decide_access env req subject tenant action resource purpose db =
    if not (is_supported action resource.resource_type)
    then decision deny ("DG-POLICY-CONTRACT-UNSUPPORTED" ∷ [])
        (evidence_of "contract" "unsupported-action-or-resource" ∷ []) [] req.now req.request_id
        false
    else if not (tenant == subject.tenant_id) || not (tenant == db.tenant)
    then decision deny ("DG-POLICY-TENANT-MISMATCH" ∷ [])
        (evidence_of "tenant" "tenant-context-mismatch" ∷ []) [] req.now req.request_id false
    else evaluate_rules env subject action (resolve_resource resource db) purpose req.request_id
        req.now

unfoldable pub evaluate_access :
    Env
    → Request
    → Principal
    → String
    → String
    → PolicyResource
    → Option String
    → Action PolicyDecision
unfolding record_policy_decision
evaluate_access env req subject tenant action resource purpose = do
  d ← gets (decide_access env req subject tenant action resource purpose)
  record_policy_decision env req subject action resource purpose d
  pure d

unfoldable pub evaluate_rest_policy :
    Env → Request → Principal → String → String → String → Option String → Action PolicyDecision
unfolding evaluate_access
evaluate_rest_policy env req principal action resource_type resource_id purpose =
    evaluate_access env req principal principal.tenant_id action
      (record { resource_type = resource_type; resource_id = resource_id }) purpose

abbrev pub is_allow : PolicyOutcome → Bool
is_allow allow = true
is_allow _ = false

abbrev pub is_human_approval : PolicyOutcome → Bool
is_human_approval requires_human_approval = true
is_human_approval _ = false

abbrev pub policy_unavailable : Error
policy_unavailable = http 503 "policy_unavailable"

-- The first `try` of `enforce_policy`: only a `PolicyEvaluationError` is turned into a 503 after a
-- rollback; what the commit raises goes on as it is.
unfoldable pub decide_and_commit : Action PolicyDecision → Action PolicyDecision
unfolding commit rollback
decide_and_commit evaluate db =
    let (r, db') = (evaluate >>= λ d. commit >> pure d) db in
    elim r [
      | ok d ↦ (ok d, db')
      | raised policy_evaluation ↦ (rollback >> raise policy_unavailable) db'
      | raised (http status code) ↦ (raised (http status code), db')
      | raised Error.other ↦ (raised Error.other, db')
    ]

-- The second `try`: the denial that could not be committed is a 503.
unfoldable pub commit_denial : Action (Unit {0})
unfolding commit rollback
commit_denial db =
    let (r, db') = commit db in
    elim r [ ok _ ↦ (ok tt, db') | raised _ ↦ (rollback >> raise policy_unavailable) db' ]

abbrev pub refusal : PolicyOutcome → Error
refusal outcome =
    if is_human_approval outcome
    then http 409 "policy_requires_human_approval"
    else http 403 "policy_denied"

unfoldable pub refuse :
    Request → Principal → String → String → String → PolicyDecision → Action (Unit {0})
unfolding record_audit_event commit_denial
refuse req principal action resource_type resource_id d = do
  record_audit_event (some principal) req.event_id action resource_type
      (if d.resource_visible then some resource_id else none) "denied" req.request_id
      (object (
        field "policy_outcome" (text (outcome_value d.outcome))
          (field "rule_ids" (array (texts d.rule_ids)) end)))
  commit_denial
  raise (refusal d.outcome)

unfoldable pub enforce_policy :
    Env → Request → Principal → String → String → String → Option String → Action (Unit {0})
unfolding evaluate_rest_policy decide_and_commit refuse
enforce_policy env req principal action resource_type resource_id purpose =
    decide_and_commit
      (evaluate_rest_policy env req principal action resource_type resource_id purpose)
    >>= λ d.
        if is_allow d.outcome
        then pure tt
        else refuse req principal action resource_type resource_id d
