-- ===== src/Lib.antt =====
-- The reporting service of the access-control system (reporting-api/), written in Python over
-- PostgreSQL, Kafka and Redis. The access service publishes each swipe at a gate to a Kafka topic and
-- to a Redis stream; the Kafka consumer stores it in the reporting database, the recovery consumer
-- stores from the stream what Kafka did not bring in time, and the report queries read what is stored,
-- each within the departments that its user may see.
--
-- The files and the code they model:
--   Prelude         helpers: Boolean tests, lists, dicts, texts; no code of the service
--   Timestamp       points in time in Asia/Taipei: `_local_datetime`, `_local_date` of
--                   reporting-api/app/repositories.py
--   Calendar        Python's dates, and `_subtract_months` of reporting-api/app/repositories.py
--   Schema          the tables of reporting-api/app/models.py as lists of records, and the
--                   constraints on their rows
--   Result          exceptions as values; a raise is an `err`
--   Ingest          `save_access_event` and what it calls (reporting-api/app/repositories.py): Parse
--                   reads a payload, `stage` is what the session reads, `commit` what the transaction
--                   writes and the constraints check, on the database as it is by then
--   Consumers       reporting-api/app/consumers/: Kafka is access_events.py, Recovery is
--                   redis_recovery.py, both over an interface of a store that Store fills with
--                   `save_access_event`; Pipeline lets both run interleaved on one database and one
--                   Redis, the reads and the commit of each session as steps of their own, so that
--                   the two sessions overlap, with crashes and outages
--   Permissions     reporting-api/app/permissions.py and the scoped queries of
--                   reporting-api/app/repositories.py; Departments is the recursive query
--   Attendance      the late rule and the main-gate pattern of reporting-api/app/repositories.py, each
--                   in its Python and its SQL form
--   Reports         reports that reporting-api/app/repositories.py computes in Python:
--                   Attendance is `_compute_report_center_attendance`, Summary `get_access_summary`,
--                   Cache `_store_report_center_cache`, Presets the windows of the range presets,
--                   Snapshots the stored reports (`get_report_center`,
--                   `refresh_report_center_snapshot` and what they call), Precompute the worker of
--                   reporting-api/app/report_precompute_worker.py, Events and Employees the paged
--                   lists and the export, Remarks the remarks on anomalies
--   Accounts        logins and the password reset of reporting-api/app/routers/auth.py, over an
--                   interface of what reporting-api/app/security.py computes; Sessions is
--                   that file, over an interface of HMAC, PBKDF2 and Base64, with
--                   reporting-api/app/dependencies.py, the user of a request
--   Tests           the definitions and theorems at concrete inputs
--
-- Conventions. A timestamp counts microseconds on the wall clock of Asia/Taipei. Durations and rates of
-- reports are exact quotients, rounded to hundredths with ties to even, where the program rounds
-- doubles. What Python's standard library parses (JSON, ISO dates, integers) is a record of functions,
-- `Runtime`, of which nothing is assumed, with what the driver makes of a number in a column of texts. What answers during a call (database, Redis) and when the
-- consumer is asked to stop are arguments, so that a theorem over all of them holds under every outage.
--
-- Loops and fuel. The retry loop runs over the list of turns it is given, and a result `retrying` says
-- that these ran out. The recursive department query may really not end, so it takes fuel and answers
-- `none` without; how much is enough on a table without cycles, and that none is on one with a cycle,
-- is stated of it.
--
-- What PostgreSQL decides by itself (LIKE, ILIKE, casts, the collation) is an argument where a model
-- uses it. The order of rows that an ORDER BY leaves open is that of the table in these definitions, where
-- PostgreSQL may answer each query with another one.
--
-- Not modelled: commits that fail for other reasons than a constraint (the consumers' outages are
-- steps of their model), raw SQL of the reports, connections and tracing, the web routes but those of logins,
-- the main loop of the worker, the other caches, demonstration data, the access service
-- (access-api/, in Go) and the frontend.
pub mod Prelude
pub mod Timestamp
pub mod Calendar
pub mod Schema
pub mod Result
pub mod Ingest
pub mod Consumers
pub mod Tests
pub mod Attendance
pub mod Permissions
pub mod Reports
pub mod Accounts
