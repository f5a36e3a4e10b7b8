-- ===== src/Tenants.antt =====
-- backend/tenants: tenants, their domains, and the middleware that finds a request's tenant.
mod Save
mod Domains
mod Lifecycle
mod Resolver
mod Tasks
mod Routing
pub mod Resolution
pub mod Isolation
pub mod Direct
pub mod Suspension
pub mod Enforcement
pub mod SaveEffect
pub mod Registering
pub mod Backups
unfoldable pub use Save.*
unfoldable pub use Domains.*
unfoldable pub use Lifecycle.*
unfoldable pub use Resolver.*
unfoldable pub use Tasks.*
unfoldable pub use Routing.*
