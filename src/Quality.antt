-- ===== src/Quality.antt =====
-- The quality service: apps/quality-api.
pub mod Models
pub mod Numbers
pub mod RuleEngine
pub mod Rules
pub mod Assets
pub mod Incidents
pub mod Runs
