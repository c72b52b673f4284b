-- ===== src/Examples.antt =====
-- Tests, and the theorems applied at concrete inputs.
pub mod Data
mod Searches
pub mod Submissions
pub mod Handlers
mod Running
mod Endings
mod Sweeps
pub mod Sorting
mod Providers
pub mod Server
pub mod Logins
pub mod Requests
pub mod Endpoints
mod Setups
pub mod Slots
mod Startups
