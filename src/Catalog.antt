-- ===== src/Catalog.antt =====
-- The rows and the database session that the services of apps/catalog-api/app share.
pub mod Models
pub mod Session
pub mod Audit
pub mod Authorization
pub mod Principals
pub mod Certification
pub mod SearchIndex
