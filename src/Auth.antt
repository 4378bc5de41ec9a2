-- ===== src/Auth.antt =====
-- Accounts, roles, sessions and execution authority (auth/).
pub mod Accounts
pub mod Capabilities
pub mod Edits
pub mod Execution
pub mod Passwords
pub mod Enrolled
pub mod Policy
pub mod Queries
pub mod Sessions
mod Tests
mod SessionTests
pub mod Model
