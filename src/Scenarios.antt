-- ===== src/Scenarios.antt =====
-- Runs at concrete inputs: a small environment, tests of the definitions, and the theorems applied.
mod Toy
mod Provision
mod Resolve
mod SignIn
mod Limits
mod Access
mod Registers
mod Tasks
mod Banking
mod Passwords
mod Auditing
mod Sweeping
mod Routes
mod Api
mod Adding
mod Pages
mod Reaching
mod Reinstating
mod Serving
mod Mails
