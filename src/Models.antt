-- ===== src/Models.antt =====
-- The domain entities of domain/models.py, one record for each dataclass and one data type for
-- each StrEnum. A UUID is a natural number, a datetime is a natural number of microseconds, a date
-- is the number of its day.
mod People
mod Messages
mod Audit
mod Reports
mod Imports
pub use People.*
pub use Messages.*
pub use Audit.*
pub use Reports.*
pub use Imports.*
