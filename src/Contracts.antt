-- ===== src/Contracts.antt =====
-- The data model of src/domain/contracts/models.py. A `datetime` is a count of microseconds, and a
-- score between 0.0 and 1.0 is a count of ten-thousandths.
mod Kinds
mod Plan
mod Incident
unfoldable pub use Kinds.*
pub use Plan.*
unfoldable pub use Incident.*
