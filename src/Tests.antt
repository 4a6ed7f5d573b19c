-- ===== src/Tests.antt =====
-- Concrete inputs, runs on them, and the theorems at such inputs.
mod Fixtures
mod PolicyRuns
mod ProposalRuns
mod ServiceRuns
mod QualityFixtures
mod QualityRuns
mod GatewayRuns
pub mod IngestionFixtures
pub mod IngestionRuns
