-- ===== src/Fineract.antt =====
-- backend/fineract_gateway: the HTTP client of Apache Fineract, the administrator's client, and
-- the banking services over a tenant's client.
mod Client
mod Admin
mod Services
pub mod Header
unfoldable pub use Client.*
unfoldable pub use Admin.*
unfoldable pub use Services.*
