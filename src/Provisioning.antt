-- ===== src/Provisioning.antt =====
-- backend/provisioning: the pipeline that builds a tenant's database, its Fineract registration
-- and its administrator, and that undoes them when a step fails.
mod State
mod Database
mod Registrar
mod Rollback
mod Pipeline
mod Task
pub mod Frame
pub mod Outcome
pub mod Kept
pub mod Started
pub mod Failure
pub mod Cleanup
pub mod TaskOutcome
pub mod Taken
pub mod TakenRun
pub mod Laws
pub mod Undo
pub mod Rewind
unfoldable pub use State.*
unfoldable pub use Database.*
unfoldable pub use Registrar.*
unfoldable pub use Rollback.*
unfoldable pub use Pipeline.*
unfoldable pub use Task.*
