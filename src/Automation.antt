-- ===== src/Automation.antt =====
-- A declared operation run over HTTP from a command line (automation/automation.go). Children hold the
-- route's address and the files of credentials.
pub mod Address
pub mod Files
pub mod Output
pub mod Run
pub mod Declared
pub mod Allowed
pub mod Sent
pub mod Secrets
mod Tests
