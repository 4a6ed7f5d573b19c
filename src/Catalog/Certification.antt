-- ===== src/Catalog/Certification.antt =====
-- The certification requests of apps/catalog-api/app/services/governance_service.py. Both lookups
-- are under the session's tenant.
use datagenie.Prelude.{
  String, Option, Bool, true, some, false, put_row, none, ◌≡◌, ◌++◌, if◌then◌else◌, ◌∷◌, ◌⊎◌, [],
  arith, inl, Option-cases, inr, refl,
}
use datagenie.Catalog.Session.{
  Request, commit, Action, write_asset, get_certification, update_tables, get_asset, raise_if, Db,
  http,
}
use datagenie.Catalog.Models.{UsageDecisionStatus, CertificationRequest, Asset, LifecycleStatus}
use datagenie.Prelude.Exec.{◌>>=◌, ◌>>◌, gets, raised, ok, pure}
use datagenie.Prelude.Json.{text_or_null}

abbrev pub asset_or_404 : String → Action Asset
asset_or_404 asset_id db = elim (get_asset asset_id db) [
  | none ↦ (raised (http 404 "Catalog asset not found."), db)
  | some asset ↦ (ok asset, db)
]

abbrev pub request_or_404 : String → Action CertificationRequest
request_or_404 request_id db = elim (get_certification request_id db) [
  | none ↦ (raised (http 404 "Certification request not found."), db)
  | some request ↦ (ok request, db)
]

unfoldable pub create_certification_request :
    Request → String → String → Option String → Action CertificationRequest
create_certification_request req asset_id actor note = do
  asset ← asset_or_404 asset_id
  tenant ← gets (λ db. db.tenant)
  let request : CertificationRequest = record {
    id = req.new_id;
    tenant_id = tenant;
    asset_id = asset_id;
    requested_by = actor;
    status = UsageDecisionStatus.pending;
    decision_by = none;
    decision_note = text_or_null note;
    decided_at = none;
  }
  update_tables λ t. record t { certifications = t.certifications ++ request ∷ [] }
  commit
  pure request

abbrev pub is_open : UsageDecisionStatus → Bool
is_open UsageDecisionStatus.pending = true
is_open _ = false

abbrev pub is_approval : UsageDecisionStatus → Bool
is_approval UsageDecisionStatus.approved = true
is_approval _ = false

abbrev pub decided :
    Request
    → UsageDecisionStatus
    → Option String
    → String
    → CertificationRequest
    → CertificationRequest
decided req decision note actor request = record request {
  status = decision;
  decision_by = some actor;
  decision_note = text_or_null note;
  decided_at = some req.now;
}

abbrev pub write_certification : CertificationRequest → Action (Unit {0})
write_certification c =
    update_tables λ t. record t { certifications = put_row (λ d. d.id) c t.certifications }

unfoldable pub certify : CertificationRequest → Action (Unit {0})
certify request = do
  asset ← asset_or_404 request.asset_id
  write_asset (record asset { lifecycle_status = LifecycleStatus.certified })

unfoldable pub decide_certification_request :
    Request
    → CertificationRequest
    → UsageDecisionStatus
    → Option String
    → String
    → Action CertificationRequest
decide_certification_request req request decision note actor = do
  raise_if (is_open decision) (http 422 "A certification decision must be approved or rejected.")
  write_certification (decided req decision note actor request)
  (if is_approval decision then certify request else pure tt)
  commit
  pure (decided req decision note actor request)

-- A decision that is made is an approval or a rejection; the request is answered and committed
-- with that status, its decider, note and time, and else as it was. The assets that are committed
-- with it are those of the session, with the asset of the request certified after an approval and
-- none changed after a rejection.
pub decide_certification_request-ok :
    (req : Request) (request : CertificationRequest) (decision : UsageDecisionStatus)
    (reason : Option String) (actor : String) (db : Db) {request' : CertificationRequest}
    → let call = decide_certification_request req request decision reason actor db in
      call.0 ≡ ok request'
      → (is_open decision ≡ false)
        × (request' ≡ record request {
          status = decision;
          decision_by = some actor;
          decision_note = text_or_null reason;
          decided_at = some req.now;
        })
        × (call.1.saved.certifications ≡ put_row (λ d. d.id) request' db.work.certifications)
        × (((is_approval decision ≡ false) × (call.1.saved.assets ≡ db.work.assets))
            ⊎ ((asset : Asset) × (is_approval decision ≡ true)
                × (get_asset request.asset_id db ≡ some asset)
                × (call.1.saved.assets
                    ≡ put_row
                        (λ a. a.id)
                        (record asset { lifecycle_status = LifecycleStatus.certified })
                        db.work.assets)))
unfolding decide_certification_request certify commit write_asset get_asset
decide_certification_request-ok req request UsageDecisionStatus.pending reason actor db h =
    absurd (ground arith)
decide_certification_request-ok req request UsageDecisionStatus.rejected reason actor db h =
    (refl, ground arith, ground arith, inl (refl, ground arith))
decide_certification_request-ok req request UsageDecisionStatus.approved reason actor db h =
    elim (Option-cases (find_asset db)) [
      | inl e ↦ absurd (ground arith)
      | inr (asset, e) ↦ (refl, ground arith, ground arith, inr (asset, refl, e, ground arith))
    ]
  where
    find_asset : Db → Option Asset
    find_asset d = get_asset request.asset_id d
