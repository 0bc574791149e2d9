-- ===== src/Reports.antt =====
-- The reports of reporting-api/app/repositories.py that are computed in Python from event rows.
pub mod Rounding
pub mod Attendance
pub mod Summary
pub mod Cache
pub mod Presets
pub mod Snapshots
pub mod Precompute
pub mod Events
pub mod Employees
pub mod Remarks
