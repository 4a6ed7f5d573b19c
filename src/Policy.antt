-- ===== src/Policy.antt =====
-- The policy decision service, apps/catalog-api/app/services/policy_service.py, with its types in
-- apps/catalog-api/app/schemas/policy.py. The counters of app/core/observability.py, which
-- nothing reads back, are left out.
pub mod Text
pub mod Decision
pub mod Rules
pub mod Access
pub mod Outcomes
pub mod Boundary
pub mod Curation
pub mod Enforcement
