-- ===== src/Organizations.antt =====
-- backend/organizations, and the part of backend/dashboard that registers organizations.
mod Codes
mod Register
pub mod Termination
pub mod Registration
unfoldable pub use Codes.*
unfoldable pub use Register.*
