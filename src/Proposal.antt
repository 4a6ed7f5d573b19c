-- ===== src/Proposal.antt =====
-- Governance proposals, apps/catalog-api/app/services/proposal_service.py, with the request bodies
-- of apps/catalog-api/app/schemas/proposals.py.
pub mod Defs
pub mod Diff
pub mod Create
pub mod Review
pub mod Change
pub mod Execute
pub mod Steps
pub mod Approval
pub mod Execution
pub mod Confirmed
pub mod Executed
pub mod Closed
pub mod Refused
