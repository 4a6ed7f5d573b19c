-- ===== src/Policy/Rules.antt =====
-- `_role_allows`, `_quality_is_fresh`, `_resource_evidence` and `_evaluate_rules`.
use Prim.Native.String.{◌++◌ as concat}
use datagenie.Prelude.{
  ◌==◌, ◌-◌, ◌*◌, String, Bool, true, false, not, ◌&&◌, ◌||◌, Option, none, some, List, [], ◌∷◌,
  ◌++◌, leb, truthy, is_text, contains, if◌then◌else◌,
}
use datagenie.Catalog.Models.{
  Instant, seconds, Asset, LifecycleStatus, GovernanceDomain, under_review, certified, deprecated,
}
use datagenie.Catalog.Session.{Env}
use datagenie.Catalog.Principals.{
  Principal, intersects, role_platform_admin, role_data_steward, role_data_owner, role_analyst,
  role_read_only,
}
use datagenie.Policy.Text.{has_sensitive_classification, purpose_is_permitted}
use datagenie.Policy.Decision.{
  PolicyOutcome, allow, deny, allow_with_obligations, requires_human_approval,
  PolicyEvidenceReference, ResolvedPolicyResource, PolicyDecision, evidence_of, decision,
}

abbrev pub readers : List String
readers = role_data_steward ∷ role_data_owner ∷ role_analyst ∷ role_read_only ∷ []

abbrev pub steward_actions : List String
steward_actions =
    "governance.proposal.approve" ∷ "governance.proposal.execute" ∷ "quality_evidence.update"
    ∷ "classification.review" ∷ "certification.decide" ∷ []

unfoldable pub role_allows : Principal → String → Bool
role_allows principal action =
    if contains role_platform_admin principal.roles
    then true
    else if action == "asset.read"
    then intersects principal.roles readers
    else if action == "asset.curate"
    then intersects principal.roles (role_data_steward ∷ role_data_owner ∷ [])
    else if action == "governance.proposal.create"
    then intersects principal.roles readers
    else if contains action steward_actions
    then contains role_data_steward principal.roles
    else false

-- `QUALITY_FRESHNESS_MAX_AGE`: seven days
abbrev pub quality_freshness_max_age : Instant
quality_freshness_max_age = seconds (7 * 24 * 60 * 60)

unfoldable pub quality_is_fresh : Asset → Instant → Bool
quality_is_fresh asset now = elim (asset.quality_explainable_at) [
  | none ↦ false
  | some at ↦ leb (now - quality_freshness_max_age) at
]

abbrev pub lifecycle_value : LifecycleStatus → String
lifecycle_value under_review = "under_review"
lifecycle_value certified = "certified"
lifecycle_value deprecated = "deprecated"

abbrev pub is_certified : Option LifecycleStatus → Bool
is_certified (some certified) = true
is_certified _ = false

abbrev pub is_deprecated : Option LifecycleStatus → Bool
is_deprecated (some deprecated) = true
is_deprecated _ = false

abbrev pub evidence_if : Bool → PolicyEvidenceReference → List PolicyEvidenceReference
evidence_if b e = if b then e ∷ [] else []

abbrev pub text_or_empty : Option String → String
text_or_empty none = ""
text_or_empty (some s) = s

abbrev pub has_steward : Option GovernanceDomain → Bool
has_steward none = false
has_steward (some d) = truthy d.data_steward

abbrev pub quality_evidence : Env → Option Instant → PolicyEvidenceReference
quality_evidence env none = evidence_of "quality" "explainable-quality-missing"
quality_evidence env (some at) = evidence_of "quality" (concat "explainable-at:" (env.isoformat at))

abbrev pub asset_evidence : Env → ResolvedPolicyResource → Asset → List PolicyEvidenceReference
asset_evidence env resolved asset =
    (evidence_of "tenant" "active-tenant"
      ∷ evidence_of "asset" (concat "asset:metadata-version:" (env.decimal asset.technical_version))
      ∷ evidence_of "lifecycle" (lifecycle_value asset.lifecycle_status)
      ∷ [])
    ++ (evidence_if (truthy asset.classification) (
          evidence_of "classification"
            (concat "classification:" (text_or_empty asset.classification)))
        ++ (evidence_if (truthy asset.owner) (evidence_of "owner_assignment" "asset-owner-assigned")
            ++ (evidence_if (has_steward resolved.domain)
                  (evidence_of "steward_assignment" "domain-steward-assigned")
                ++ (quality_evidence env asset.quality_explainable_at ∷ []))))

unfoldable pub resource_evidence : Env → ResolvedPolicyResource → List PolicyEvidenceReference
resource_evidence env resolved =
    let hidden = evidence_of "resource" "not-visible" ∷ [] in
    elim (resolved.asset) [
      | none ↦ hidden
      | some asset ↦ if resolved.visible then asset_evidence env resolved asset else hidden
    ]

-- The rules from the lifecycle on: the roles, and for a curation the ownership, are settled.
unfoldable pub evaluate_state_rules :
    String
    → ResolvedPolicyResource
    → Asset
    → Option String
    → String
    → Instant
    → List String
    → List PolicyEvidenceReference
    → PolicyDecision
evaluate_state_rules action resolved asset purpose request_id now rule_ids evidence =
    let decide =
      λ (outcome : PolicyOutcome) (rules : List String) (found : List PolicyEvidenceReference)
          (obligations : List String).
        decision outcome (rule_ids ++ rules) (evidence ++ found) obligations now request_id true in
    let allowed = decide allow ("DG-POLICY-ACTION-ALLOW" ∷ []) [] [] in
    let sensitive =
      if not (purpose_is_permitted purpose)
      then decide deny ("DG-POLICY-CLASSIFICATION-PURPOSE-DENY" ∷ [])
          (evidence_of "purpose" "not-permitted-for-sensitive-classification" ∷ []) []
      else decide allow_with_obligations ("DG-POLICY-CLASSIFICATION-OBLIGATION" ∷ [])
          (evidence_of "purpose" "declared-permitted" ∷ [])
          ("cite_governance_evidence" ∷ "handle_sensitive_data" ∷ []) in
    if is_deprecated resolved.lifecycle_status && action == "asset.read"
    then decide deny ("DG-POLICY-LIFECYCLE-DEPRECATED-DENY" ∷ []) [] []
    else if action == "asset.read"
    then if has_sensitive_classification resolved.classification
      then sensitive
      else if is_certified resolved.lifecycle_status && not (quality_is_fresh asset now)
      then decide allow_with_obligations ("DG-POLICY-QUALITY-FRESHNESS-OBLIGATION" ∷ []) []
          ("review_quality_evidence" ∷ [])
      else allowed
    else if action == "certification.decide" && not (quality_is_fresh asset now)
    then decide requires_human_approval ("DG-POLICY-QUALITY-FRESHNESS-APPROVAL" ∷ []) []
        ("obtain_current_explainable_quality_evidence" ∷ "eligible_steward_approval" ∷ [])
    else allowed

-- `_evaluate_rules`; the resource is hidden where it is not visible or has no asset.
unfoldable pub evaluate_asset_rules :
    Principal
    → String
    → ResolvedPolicyResource
    → Asset
    → Option String
    → String
    → Instant
    → List PolicyEvidenceReference
    → PolicyDecision
evaluate_asset_rules principal action resolved asset purpose request_id now evidence =
    let eligible = evidence ++ evidence_of "rbac" "validated-role-eligible" ∷ [] in
    let rule_ids = "DG-POLICY-TENANT-ALLOW" ∷ "DG-POLICY-RBAC-ALLOW" ∷ [] in
    let is_steward =
      contains role_data_steward principal.roles || contains role_platform_admin principal.roles in
    let is_owner =
      contains role_data_owner principal.roles && is_text resolved.owner principal.subject in
    let curation_rule =
      if is_owner then "DG-POLICY-OWNERSHIP-ALLOW" else "DG-POLICY-STEWARDSHIP-ALLOW" in
    if not (role_allows principal action)
    then decision deny ("DG-POLICY-RBAC-DENY" ∷ [])
        (evidence ++ evidence_of "rbac" "role-not-eligible" ∷ []) [] now request_id true
    else if action == "asset.curate"
    then if not is_steward && not is_owner
      then decision deny (rule_ids ++ "DG-POLICY-OWNERSHIP-DENY" ∷ [])
          (eligible ++ evidence_of "owner_assignment" "subject-not-asset-owner" ∷ []) [] now
          request_id true
      else evaluate_state_rules action resolved asset purpose request_id now
          (rule_ids ++ curation_rule ∷ []) eligible
    else evaluate_state_rules action resolved asset purpose request_id now rule_ids eligible

unfoldable pub evaluate_rules :
    Env
    → Principal
    → String
    → ResolvedPolicyResource
    → Option String
    → String
    → Instant
    → PolicyDecision
evaluate_rules env principal action resolved purpose request_id now =
    let evidence = resource_evidence env resolved in
    let hidden =
      decision deny ("DG-POLICY-TENANT-NONVISIBLE" ∷ []) evidence [] now request_id false in
    elim (resolved.asset) [
      | none ↦ hidden
      | some asset ↦
          if not resolved.visible
          then hidden
          else evaluate_asset_rules principal action resolved asset purpose request_id now evidence
    ]
