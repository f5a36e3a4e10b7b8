-- ===== src/Authentication.antt =====
-- backend/authentication: accounts, login with its lockout, sessions and second factors.
mod Users
mod Lockout
mod Sessions
mod Mfa
mod Service
mod RateLimit
mod Permissions
mod Backends
mod Passwords
mod Sequences
pub mod Strength
pub mod Enrollment
pub mod Attempt
pub mod Guesses
pub mod Admission
pub mod SignIn
pub mod Rotation
pub mod Reuse
pub mod Counter
pub mod Window
pub mod Access
unfoldable pub use Users.*
unfoldable pub use Lockout.*
unfoldable pub use Sessions.*
unfoldable pub use Mfa.*
unfoldable pub use Service.*
unfoldable pub use RateLimit.*
unfoldable pub use Permissions.*
unfoldable pub use Backends.*
unfoldable pub use Passwords.*
