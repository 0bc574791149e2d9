-- ===== src/Attendance.antt =====
-- The attendance rules and reports of reporting-api/app/repositories.py.
pub mod Lateness
pub mod Gate
