-- ===== src/Tests.antt =====
-- Test data, runs of the definitions, and the theorems at concrete inputs.
pub mod Data
pub mod Ingest
pub mod Consumers
pub mod Attendance
pub mod Permissions
pub mod Reports
pub mod Snapshots
pub mod Accounts
pub mod Sessions
pub mod Events
