-- ===== src/Api.antt =====
-- The views of the REST interface: what a request does behind its permission class.
mod Accounts
mod ApiKeys
mod Tenants
pub mod Reinstating
pub mod Suspending
pub mod Keys
pub mod Signing
unfoldable pub use Accounts.*
unfoldable pub use ApiKeys.*
unfoldable pub use Tenants.*
