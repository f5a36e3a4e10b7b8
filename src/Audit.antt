-- ===== src/Audit.antt =====
-- backend/audit: the audit log and its service.
mod Service
mod Middleware
pub mod BestEffort
unfoldable pub use Service.*
unfoldable pub use Middleware.*
