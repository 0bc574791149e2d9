-- ===== src/Reports/Snapshots/Center.antt =====
-- `get_report_center` and `refresh_report_center_snapshot` of reporting-api/app/repositories.py.
use ntu_cloud_native.Permissions.Departments.{◌>>=◌}
use ntu_cloud_native.Timestamp.{Timestamp}
use ntu_cloud_native.Reports.Snapshots.{compute_user, snapshot_lookup}
use ntu_cloud_native.Reports.Presets.{precompute_presets, normalize_preset, resolve_preset_window}
use ntu_cloud_native.Reports.Snapshots.Store.{Snapshot, Lookup, Report}
use ntu_cloud_native.Reports.Snapshots.Requests.{
  with_table, ReportRequest, Surroundings, read_for_request, clamp_limit, uses_snapshots,
  live_request, answer_found, store_and_answer, LiveRequest,
}
use ntu_cloud_native.Schema.{UserAccount, Database}
use ntu_cloud_native.Prelude.{
  string_eq, false, contains, [], if◌then◌else◌, true, none, some, ℕ, Option, String, List,
}
use ntu_cloud_native.Result.{value_error, Result, ok, err}

-- `compute_live` stands for `_compute_report_center_live`; the outer `none` is a query that does not
-- end.
module _ {A D : Type 0} (quoted sha256 : String → String)
    (compute_live : Database → LiveRequest → Option (Result (Report A D))) where
  -- The part of both functions that computes a report and stores it.
  unfoldable pub compute_and_store :
      ℕ
      → Surroundings A D
      → Option UserAccount
      → Option String
      → Lookup
      → Timestamp
      → Timestamp
      → ℕ
      → Option (Result (Report A D × List (Snapshot A D)))
  unfolding store_and_answer live_request compute_user
  compute_and_store fuel w user d l from to limit = do
    computing ← compute_user fuel w.db user d
    report ← compute_live w.db (live_request computing (some from) (some to) none d [] limit false)
    some (store_and_answer w l report)

  -- The branch of `get_report_center` with stored reports.
  unfoldable pub get_through_snapshots :
      ℕ
      → Surroundings A D
      → Option UserAccount
      → String
      → Option String
      → ℕ
      → Timestamp × Timestamp
      → Option (Result (Report A D × List (Snapshot A D)))
  unfolding answer_found compute_and_store read_for_request snapshot_lookup
  get_through_snapshots fuel w user preset d limit window = do
    l ← snapshot_lookup quoted sha256 fuel w.db user preset d window.0 window.1 limit
    found ← read_for_request fuel w.db user d l w.at_read
    answer_found w (compute_and_store fuel w user d l window.0 window.1 limit) found

  -- The branch without: the table stays.
  unfoldable pub get_live :
      Surroundings A D
      → ReportRequest
      → Option Timestamp
      → Option Timestamp
      → Option (Result (Report A D × List (Snapshot A D)))
  unfolding live_request
  get_live w q from to = do
    report ← compute_live w.db (
        live_request q.current_user from to q.employee_id q.department_id q.department_ids
          (clamp_limit q.limit) true)
    some (with_table w report)

  unfoldable pub in_window :
      ℕ
      → Surroundings A D
      → ReportRequest
      → String
      → Result (Timestamp × Timestamp)
      → Option (Result (Report A D × List (Snapshot A D)))
  unfolding get_through_snapshots get_live uses_snapshots clamp_limit
  in_window fuel w q preset (err e) = some (err e)
  in_window fuel w q preset (ok window) =
      if uses_snapshots q
      then get_through_snapshots fuel w q.current_user preset q.department_id (clamp_limit q.limit)
          window
      else get_live w q (some window.0) (some window.1)

  unfoldable pub for_preset :
      ℕ
      → Surroundings A D
      → ReportRequest
      → Option String
      → Option (Result (Report A D × List (Snapshot A D)))
  unfolding in_window get_live resolve_preset_window
  for_preset fuel w q none = get_live w q q.from_time q.to_time
  for_preset fuel w q (some preset) =
      if contains precompute_presets preset
      then in_window fuel w q preset (resolve_preset_window preset w.now)
      else get_live w q q.from_time q.to_time

  -- `get_report_center`
  unfoldable pub get_report_center :
      ℕ → Surroundings A D → ReportRequest → Option (Result (Report A D × List (Snapshot A D)))
  unfolding for_preset normalize_preset
  get_report_center fuel w q = for_preset fuel w q (normalize_preset q.range_preset)

  unfoldable pub refresh_in_window :
      ℕ
      → Surroundings A D
      → Option UserAccount
      → String
      → Option String
      → ℕ
      → Result (Timestamp × Timestamp)
      → Option (Result (Report A D × List (Snapshot A D)))
  unfolding compute_and_store snapshot_lookup
  refresh_in_window fuel w user preset d limit (err e) = some (err e)
  refresh_in_window fuel w user preset d limit (ok window) = do
    l ← snapshot_lookup quoted sha256 fuel w.db user preset d window.0 window.1 limit
    compute_and_store fuel w user d l window.0 window.1 limit

  unfoldable pub refresh_preset :
      ℕ
      → Surroundings A D
      → Option UserAccount
      → Option String
      → Option String
      → ℕ
      → Option (Result (Report A D × List (Snapshot A D)))
  unfolding refresh_in_window clamp_limit resolve_preset_window
  refresh_preset fuel w user none d limit = some (err value_error)
  refresh_preset fuel w user (some preset) d limit =
      if contains precompute_presets preset
      then refresh_in_window fuel w user preset d (clamp_limit limit)
          (resolve_preset_window preset w.now)
      else some (err value_error)

  -- `refresh_report_center_snapshot`
  unfoldable pub refresh_snapshot :
      ℕ
      → Surroundings A D
      → Option UserAccount
      → String
      → Option String
      → ℕ
      → Option (Result (Report A D × List (Snapshot A D)))
  unfolding refresh_preset normalize_preset
  refresh_snapshot fuel w user range_preset d limit =
      refresh_preset fuel w user (normalize_preset (some range_preset)) d limit
