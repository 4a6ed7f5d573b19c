-- ===== src/Policy/Decision.antt =====
-- What a policy evaluation is about, and what it answers.
use Prim.Native.String.{compare}
use Prim.Native.Nat.{Ordering}
use datagenie.Prelude.{
  ◌==◌, ◌+◌, ◌*◌, String, Bool, true, false, Option, none, some, List, [], ◌∷◌, if◌then◌else◌,
}
use datagenie.Catalog.Models.{
  Instant, seconds, Asset, LifecycleStatus, GovernanceDomain, CertificationRequest,
}
use datagenie.Catalog.Session.{Db, get_asset, get_domain, get_finding, get_certification}

pub data PolicyOutcome : Type 0 where
  allow deny allow_with_obligations requires_human_approval : PolicyOutcome

unfoldable pub outcome_value : PolicyOutcome → String
outcome_value allow = "allow"
outcome_value deny = "deny"
outcome_value allow_with_obligations = "allow_with_obligations"
outcome_value requires_human_approval = "requires_human_approval"

pub record PolicyResource : Type 0 where
  pub resource_type : String
  pub resource_id : String

pub record PolicyEvidenceReference : Type 0 where
  pub type : String
  pub reference : String

pub record ResolvedPolicyResource : Type 0 where
  pub resource : PolicyResource
  pub asset : Option Asset
  pub visible : Bool
  pub classification : Option String
  pub lifecycle_status : Option LifecycleStatus
  pub owner : Option String
  pub domain : Option GovernanceDomain
  pub certification : Option CertificationRequest

pub record PolicyDecision : Type 0 where
  pub outcome : PolicyOutcome
  pub rule_ids : List String
  pub evidence : List PolicyEvidenceReference
  pub obligations : List String
  pub evaluated_at : Instant
  pub expires_at : Instant
  pub request_id : String
  pub resource_visible : Bool

abbrev pub evidence_of : String → String → PolicyEvidenceReference
evidence_of type reference = record { type = type; reference = reference }

-- `sorted(set(…))`
unfoldable pub insert_sorted : String → List String → List String
insert_sorted s [] = s ∷ []
insert_sorted s (t ∷ ts) = elim (compare s t) [
  | Ordering.lt ↦ s ∷ t ∷ ts
  | Ordering.eq ↦ t ∷ ts
  | Ordering.gt ↦ t ∷ insert_sorted s ts
]

unfoldable pub sorted_set : List String → List String
unfolding insert_sorted
sorted_set [] = []
sorted_set (s ∷ ss) = insert_sorted s (sorted_set ss)

-- `_decision`, with its default time to live of five minutes.
unfoldable pub decision :
    PolicyOutcome
    → List String
    → List PolicyEvidenceReference
    → List String
    → Instant
    → String
    → Bool
    → PolicyDecision
decision outcome rule_ids evidence obligations evaluated_at request_id resource_visible = record {
  outcome = outcome;
  rule_ids = rule_ids;
  evidence = evidence;
  obligations = sorted_set obligations;
  evaluated_at = evaluated_at;
  expires_at = evaluated_at + seconds (5 * 60);
  request_id = request_id;
  resource_visible = resource_visible;
}

-- `ResolvedPolicyResource(resource, None, False, None, …)`
abbrev pub unresolved : PolicyResource → ResolvedPolicyResource
unresolved resource = record {
  resource = resource;
  asset = none;
  visible = false;
  classification = none;
  lifecycle_status = none;
  owner = none;
  domain = none;
  certification = none;
}

abbrev pub resolved_as :
    PolicyResource → Option Asset → Option CertificationRequest → Db → ResolvedPolicyResource
resolved_as resource found certification db = elim found [
  | none ↦ unresolved resource
  | some asset ↦ record {
    resource = resource;
    asset = some asset;
    visible = true;
    classification = asset.classification;
    lifecycle_status = some asset.lifecycle_status;
    owner = asset.owner;
    domain = get_domain asset.domain_id db;
    certification = certification;
  }
]

unfoldable pub resolve_resource : PolicyResource → Db → ResolvedPolicyResource
resolve_resource resource db =
    if resource.resource_type == "asset"
    then resolved_as resource (get_asset resource.resource_id db) none db
    else if resource.resource_type == "classification_finding"
    then elim (get_finding resource.resource_id db) [
      | none ↦ unresolved resource
      | some finding ↦ resolved_as resource (get_asset finding.asset_id db) none db
    ]
    else if resource.resource_type == "certification_request"
    then elim (get_certification resource.resource_id db) [
      | none ↦ unresolved resource
      | some request ↦ resolved_as resource (get_asset request.asset_id db) (some request) db
    ]
    else unresolved resource
