-- ===== src/Policy/Outcomes.antt =====
-- Which outcome `_evaluate_rules` comes to, for each action.
use datagenie.Prelude.{
  ◌≡◌, refl, ◌≢◌, ◌↔◌, ◌⊎◌, inr, String, Bool, true, ◌||◌, contains, false, Option, some, List, [],
  arith, Bool-cases, eq_iff, is_text_iff, ◌==◌, inl,
}
use datagenie.Catalog.Models.{Instant, Asset, deprecated}
use datagenie.Catalog.Principals.{
  Principal, role_platform_admin, role_data_owner, role_data_steward, intersects-pair,
}
use datagenie.Policy.Text.{has_sensitive_classification, purpose_is_permitted}
use datagenie.Policy.Decision.{
  allow, deny, ResolvedPolicyResource, PolicyDecision, PolicyEvidenceReference, decision,
  sorted_set, insert_sorted,
}
use datagenie.Policy.Rules.{
  role_allows, evaluate_state_rules, evaluate_asset_rules, steward_actions,
}

-- What a reader of an asset has to have.
abbrev pub MayRead : Principal → Asset → Option String → Type 0
MayRead principal asset purpose =
    (role_allows principal "asset.read" ≡ true)
    × (asset.lifecycle_status ≢ deprecated)
    × ((has_sensitive_classification asset.classification ≡ false)
        ⊎ (purpose_is_permitted purpose ≡ true))

-- The role by which an action other than a curation is permitted.
abbrev pub IsSteward : Principal → Type 0
IsSteward principal =
    contains role_platform_admin principal.roles || contains role_data_steward principal.roles
    ≡ true

-- A curator is a steward, or the owner whom the asset names.
abbrev pub MayCurate : Principal → Asset → Type 0
MayCurate principal asset =
    IsSteward principal
    ⊎ (contains role_data_owner principal.roles ≡ true) × (asset.owner ≡ some principal.subject)

-- A decision carries obligations exactly if it is neither a plain permission nor a refusal.
abbrev pub ObligationsMatch : PolicyDecision → Type 0
ObligationsMatch d = (d.obligations ≡ []) ↔ ((d.outcome ≡ allow) ⊎ (d.outcome ≡ deny))

-- The actions for stewards, one by one.
steward_actions-cases :
    (C : String → Type 0) (action : String)
    → contains action steward_actions ≡ true
    → C "governance.proposal.approve"
    → C "governance.proposal.execute"
    → C "quality_evidence.update"
    → C "classification.review"
    → C "certification.decide"
    → C action
steward_actions-cases C action h c0 c1 c2 c3 c4 =
    elim (Bool-cases ("governance.proposal.approve" == action)) [
      | inl e ↦ rw (← (eq_iff _ action).0 e) c0
      | inr n0 ↦ elim (Bool-cases ("governance.proposal.execute" == action)) [
        | inl e ↦ rw (← (eq_iff _ action).0 e) c1
        | inr n1 ↦ elim (Bool-cases ("quality_evidence.update" == action)) [
          | inl e ↦ rw (← (eq_iff _ action).0 e) c2
          | inr n2 ↦ elim (Bool-cases ("classification.review" == action)) [
            | inl e ↦ rw (← (eq_iff _ action).0 e) c3
            | inr n3 ↦ elim (Bool-cases ("certification.decide" == action)) [
              | inl e ↦ rw (← (eq_iff _ action).0 e) c4
              | inr n4 ↦ absurd (ground arith)
            ]
          ]
        ]
      ]
    ]

role_allows-steward :
    (principal : Principal) (action : String)
    → contains action steward_actions ≡ true
    → role_allows principal action
      ≡ contains role_platform_admin principal.roles || contains role_data_steward principal.roles
unfolding role_allows
role_allows-steward principal action h =
    steward_actions-cases
      (λ a.
        role_allows principal a
        ≡ contains role_platform_admin principal.roles
          || contains role_data_steward principal.roles)
      action h (ground arith) (ground arith) (ground arith) (ground arith) (ground arith)

module _ (principal : Principal) (resolved : ResolvedPolicyResource) (asset : Asset)
    (purpose : Option String) (request_id : String) (now : Instant)
    (evidence : List PolicyEvidenceReference)
    (as_asset : resolved.lifecycle_status ≡ some asset.lifecycle_status)
    (classified : resolved.classification ≡ asset.classification)
    (owned : resolved.owner ≡ asset.owner) where
  abbrev evaluate : String → PolicyDecision
  evaluate action =
      evaluate_asset_rules principal action resolved asset purpose request_id now evidence

  pub read_iff : ((evaluate "asset.read").outcome ≢ deny) ↔ MayRead principal asset purpose
  unfolding evaluate_asset_rules evaluate_state_rules decision
  read_iff = ((λ h. ground arith), λ h. ground arith)

  pub curate_iff : ((evaluate "asset.curate").outcome ≢ deny) ↔ MayCurate principal asset
  unfolding evaluate_asset_rules evaluate_state_rules decision role_allows
  curate_iff = (
    (λ h. ground (
      arith,
      intersects-pair principal.roles role_data_steward role_data_owner,
      (is_text_iff asset.owner principal.subject).0,
    )),
    λ h. ground (
      arith,
      intersects-pair principal.roles role_data_steward role_data_owner,
      (is_text_iff asset.owner principal.subject).1,
    ),
  )

  IsSteward-at :
      (action : String)
      → ((action == "asset.curate") ≡ false) × ((action == "asset.read") ≡ false)
      → (role_allows principal action
          ≡ contains role_platform_admin principal.roles
            || contains role_data_steward principal.roles)
      → ((evaluate action).outcome ≢ deny) ↔ IsSteward principal
  unfolding evaluate_asset_rules evaluate_state_rules decision
  IsSteward-at action other roles = ((λ h. ground arith), λ h. ground arith)

  -- A review, an approval or an execution is for stewards.
  pub IsSteward-iff :
      (action : String)
      → contains action steward_actions ≡ true
      → ((evaluate action).outcome ≢ deny) ↔ IsSteward principal
  IsSteward-iff action listed =
      IsSteward-at action
        (steward_actions-cases
          (λ a. ((a == "asset.curate") ≡ false) × ((a == "asset.read") ≡ false)) action listed
          (refl, refl) (refl, refl) (refl, refl) (refl, refl) (refl, refl))
        (role_allows-steward principal action listed)

decision-ObligationsMatch :
    (rules : List String) (found : List PolicyEvidenceReference) (now : Instant)
    (request_id : String) (visible : Bool)
    → ObligationsMatch (decision deny rules found [] now request_id visible)
unfolding decision sorted_set
decision-ObligationsMatch rules found now request_id visible = ((λ _. inr refl), λ _. refl)

evaluate_state_rules-ObligationsMatch :
    (action : String) (resolved : ResolvedPolicyResource) (asset : Asset) (purpose : Option String)
    (request_id : String) (now : Instant) (rule_ids : List String)
    (evidence : List PolicyEvidenceReference)
    → ObligationsMatch
        (evaluate_state_rules action resolved asset purpose request_id now rule_ids evidence)
unfolding evaluate_state_rules decision sorted_set insert_sorted
evaluate_state_rules-ObligationsMatch action resolved asset purpose request_id now rule_ids
      evidence =
    ground arith
