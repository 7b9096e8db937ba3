-- ===== src/Persistence.antt =====
-- The SQLAlchemy repositories of adapters/persistence, one module each. A table is a list of its
-- rows, the newest first; SQL leaves the order of rows open where no ORDER BY stands.
pub mod Users
pub mod Teams
pub mod RecipientLists
pub mod Consents
pub mod AuditLog
pub mod Templates
pub mod Notifications
pub mod Deliveries
pub mod Tokens
pub mod Settings
pub mod Upsert
pub mod SalesData
pub mod BrandPerformance
pub mod Doctors
pub mod ImportRuns
pub mod Staging
