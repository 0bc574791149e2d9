-- ===== src/Reports/Precompute/Serves.antt =====
-- What the worker of reporting-api/app/report_precompute_worker.py stores ahead, and the requests to
-- the report center that find it.
use ntu_cloud_native.Reports.Snapshots.Center.{
  for_preset, compute_and_store, refresh_preset, get_through_snapshots, refresh_snapshot, in_window,
  get_report_center, refresh_in_window,
}
use ntu_cloud_native.Reports.Snapshots.Answers.{
  resolve_preset_window_today, for_preset-window, as_hit,
}
use ntu_cloud_native.Reports.Snapshots.Keys.{IsUnique}
use ntu_cloud_native.Reports.Snapshots.Audience.{snapshot_lookup-shared}
use ntu_cloud_native.Permissions.Departments.{bind-some, some-inj}
use ntu_cloud_native.Reports.Snapshots.Served.{compute_and_store-read}
use ntu_cloud_native.Reports.Presets.{resolve_preset_window, precompute_presets, normalize_preset}
use ntu_cloud_native.Reports.Snapshots.{snapshot_lookup, can_use_shared}
use ntu_cloud_native.Timestamp.{local_date, Timestamp}
use ntu_cloud_native.Reports.Snapshots.Requests.{
  alone, uses_snapshots, clamp_limit, answer_found, ReportRequest, read_for_request, LiveRequest,
}
use ntu_cloud_native.Schema.{UserAccount, Database}
use ntu_cloud_native.Prelude.{
  string_eq, ◌∙◌, ap, contains, true, some, ◌≡◌, Option, String, List, ℕ,
}
use ntu_cloud_native.Reports.Snapshots.Store.{Report, Snapshot}
use ntu_cloud_native.Result.{err-not-ok, Result, ok, err}

module _ {A D : Type 0} (quoted sha256 : String → String)
    (compute_live other : Database → LiveRequest → Option (Result (Report A D))) (fuel : ℕ)
    (db : Database) (now stored_at now' stored_at' : Timestamp) (t : List (Snapshot A D))
    (user other_user : UserAccount) (d preset : String) (answer : Report A D)
    (t' : List (Snapshot A D)) where
  refresh_in_window_serves :
      (limit : ℕ) (window : Result (Timestamp × Timestamp)) (q : ReportRequest)
      → q.current_user ≡ some other_user
      → q.department_id ≡ some d
      → clamp_limit q.limit ≡ limit
      → uses_snapshots q ≡ true
      → can_use_shared fuel db (some user) (some d) ≡ some true
      → can_use_shared fuel db (some other_user) (some d) ≡ some true
      → IsUnique t
      → refresh_in_window quoted sha256 compute_live fuel
          (alone db now stored_at t)
          (some user)
          preset
          (some d)
          limit
          window
        ≡ some (ok (answer, t'))
      → in_window quoted sha256 other fuel (alone db now' stored_at' t') q preset window
        ≡ some (ok (as_hit answer, t'))
  unfolding refresh_in_window in_window get_through_snapshots read_for_request answer_found
  refresh_in_window_serves limit (err x) q asks at same_limit uses h k u e =
      absurd (err-not-ok (some-inj e))
  refresh_in_window_serves limit (ok window) q asks at same_limit uses h k u e =
      let (l, e_l, stored) =
        bind-some
          (snapshot_lookup quoted sha256 fuel db (some user) preset (some d) window.0 window.1
            limit)
          (λ l.
            compute_and_store quoted sha256 compute_live fuel (alone db now stored_at t) (some user)
              (some d) l window.0 window.1 limit)
          (ok (answer, t')) e in
      let (s, there, same) =
        compute_and_store-read quoted sha256 compute_live fuel db now stored_at t (some user)
          (some d) l window.0 window.1 limit answer t' u stored in
      let lookup =
        snapshot_lookup-shared quoted sha256 fuel db (some other_user) (some user) preset d window.0
          window.1 limit k h in
      rw (uses, asks, at, same_limit, lookup ∙ e_l, k, there, same)

  -- A report of a department that the worker refreshed for a user is what a request for the same preset, department and limit is answered with on the same date, with `hit` set, whatever would be computed by then, if the user who asks and the one it was refreshed for may both see all of the department and what is below it, and no other session writes to the table of stored reports; this where stored reports are in use (they are switched on, and neither an employee nor a list of departments nor the mode of an employee is asked for), on the same users, scopes, departments, employees and events at the refresh and the request.
  pub refresh_snapshot_serves :
      (range_preset : String) (limit : ℕ) (q : ReportRequest)
      → q.current_user ≡ some other_user
      → q.department_id ≡ some d
      → clamp_limit q.limit ≡ clamp_limit limit
      → uses_snapshots q ≡ true
      → normalize_preset (some range_preset) ≡ some preset
      → normalize_preset q.range_preset ≡ some preset
      → contains precompute_presets preset ≡ true
      → local_date now' ≡ local_date now
      → can_use_shared fuel db (some user) (some d) ≡ some true
      → can_use_shared fuel db (some other_user) (some d) ≡ some true
      → IsUnique t
      → refresh_snapshot quoted sha256 compute_live fuel
          (alone db now stored_at t)
          (some user)
          range_preset
          (some d)
          limit
        ≡ some (ok (answer, t'))
      → get_report_center quoted sha256 other fuel (alone db now' stored_at' t') q
        ≡ some (ok (as_hit answer, t'))
  unfolding get_report_center refresh_snapshot refresh_preset
  refresh_snapshot_serves range_preset limit q asks at same_limit uses named q_named listed today h
        k u e =
      ap (for_preset quoted sha256 other fuel (alone db now' stored_at' t') q) q_named
      ∙ for_preset-window quoted sha256 other fuel (alone db now' stored_at' t') q preset listed
      ∙ ap (in_window quoted sha256 other fuel (alone db now' stored_at' t') q preset)
          (resolve_preset_window_today preset now' now today)
      ∙ refresh_in_window_serves (clamp_limit limit) (resolve_preset_window preset now) q asks at
          same_limit uses h k u (rw (named, listed) at e)
