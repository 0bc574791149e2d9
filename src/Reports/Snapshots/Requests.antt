-- ===== src/Reports/Snapshots/Requests.antt =====
-- How a request to the report center is answered, with a stored report or without:
-- `_attach_report_center_snapshot_meta`, `_read_report_center_snapshot_for_request`,
-- `get_report_center` and `refresh_report_center_snapshot` of reporting-api/app/repositories.py.
use ntu_cloud_native.Accounts.{is_value}
use ntu_cloud_native.Permissions.Departments.{◌>>=◌}
use ntu_cloud_native.Reports.Snapshots.{can_use_shared}
use ntu_cloud_native.Result.{err, ok, Result}
use ntu_cloud_native.Timestamp.{Timestamp}
use ntu_cloud_native.Schema.{UserAccount, Database}
use ntu_cloud_native.Prelude.{
  string_eq, is_nil, false, is_none, true, none, min, not, leb, some, ◌&&◌, if◌then◌else◌, [],
  String, ℕ, Bool, Option, List,
}
use ntu_cloud_native.Reports.Snapshots.Store.{
  store, read, read_any_department, Lookup, Report, Snapshot,
}

-- What is computed without a stored report is computed from.
pub record LiveRequest : Type 0 where
  pub current_user : Option UserAccount
  pub from_time : Option Timestamp
  pub to_time : Option Timestamp
  pub employee_id : Option String
  pub department_id : Option String
  pub department_ids : List String
  pub limit : ℕ
  pub use_runtime_cache : Bool

-- The arguments of `get_report_center`; an absent list of departments is an empty one, since both
-- are false.
pub record ReportRequest : Type 0 where
  pub current_user : Option UserAccount
  pub from_time : Option Timestamp
  pub to_time : Option Timestamp
  pub employee_id : Option String
  pub department_id : Option String
  pub department_ids : List String
  pub limit : ℕ
  pub range_preset : Option String
  pub target_mode : Option String
  pub use_snapshots : Bool

-- What a request has of its surroundings: the database, the time at its begin and at the store, and
-- the table of the stored reports at the first read, at the read of the store and at the commit.
pub record Surroundings (A D : Type 0) : Type 0 where
  pub db : Database
  pub now : Timestamp
  pub stored_at : Timestamp
  pub at_read : List (Snapshot A D)
  pub at_store : List (Snapshot A D)
  pub at_commit : List (Snapshot A D)

-- The surroundings of a request that no other session writes to the table under.
abbrev pub alone :
    {A D : Type 0} → Database → (now stored_at : Timestamp) → List (Snapshot A D) → Surroundings A D
alone db now stored_at rows = record {
  db = db;
  now = now;
  stored_at = stored_at;
  at_read = rows;
  at_store = rows;
  at_commit = rows;
}

module _ {A D : Type 0} where
  -- `_attach_report_center_snapshot_meta`
  unfoldable pub attach_meta : Report A D → Snapshot A D → Bool → Report A D
  attach_meta payload s hit = record {
    parts = payload.parts;
    top_departments = [];
    snapshot = some (record {
      hit = hit;
      generated_at = s.generated_at;
      period_from = s.lookup.period_from;
      period_to = s.lookup.period_to;
      range_preset = s.lookup.range_preset;
      target_type = s.lookup.target_type;
      target_id = s.lookup.target_id;
    });
  }

  abbrev pub or_any_department :
      Lookup → List (Snapshot A D) → Bool → Option (Snapshot A D) → Option (Snapshot A D)
  or_any_department l rows shared (some s) = some s
  or_any_department l rows true none = read_any_department l rows
  or_any_department l rows false none = none

  -- `_read_report_center_snapshot_for_request`
  unfoldable pub read_for_request :
      ℕ
      → Database
      → Option UserAccount
      → Option String
      → Lookup
      → List (Snapshot A D)
      → Option (Option (Snapshot A D))
  read_for_request fuel db user d l rows = do
    shared ← can_use_shared fuel db user d
    some (or_any_department l rows shared (read l rows))

  -- The store of a computed report, and the answer with it.
  unfoldable pub store_and_answer :
      Surroundings A D → Lookup → Result (Report A D) → Result (Report A D × List (Snapshot A D))
  unfolding attach_meta
  store_and_answer w l (err e) = err e
  store_and_answer w l (ok report) =
      let stored = store l report w.stored_at w.at_store w.at_commit in
      ok (attach_meta report stored.0 false, stored.1)

  unfoldable pub answer_found :
      Surroundings A D
      → Option (Result (Report A D × List (Snapshot A D)))
      → Option (Snapshot A D)
      → Option (Result (Report A D × List (Snapshot A D)))
  unfolding attach_meta
  answer_found w computed none = computed
  answer_found w computed (some s) = some (ok (attach_meta s.payload s true, w.at_read))

  abbrev pub with_table :
      Surroundings A D → Result (Report A D) → Result (Report A D × List (Snapshot A D))
  with_table w (err e) = err e
  with_table w (ok report) = ok (report, w.at_read)

-- `limit = max(1, min(limit, 1000))`; a limit below 0 becomes 1, as 0 does.
unfoldable pub clamp_limit : ℕ → ℕ
clamp_limit limit = if leb (min limit 1000) 1 then 1 else min limit 1000

-- `target_mode != "employee" and employee_id is None and not department_ids`, with `use_snapshots`.
unfoldable pub uses_snapshots : ReportRequest → Bool
uses_snapshots q =
    q.use_snapshots
    && not (is_value q.target_mode "employee")
    && is_none q.employee_id
    && is_nil q.department_ids

-- A request without a preset window.
unfoldable pub live_request :
    Option UserAccount
    → Option Timestamp
    → Option Timestamp
    → Option String
    → Option String
    → List String
    → ℕ
    → Bool
    → LiveRequest
live_request user from to employee_id department_id department_ids limit use_runtime_cache =
    record {
      current_user = user;
      from_time = from;
      to_time = to;
      employee_id = employee_id;
      department_id = department_id;
      department_ids = department_ids;
      limit = limit;
      use_runtime_cache = use_runtime_cache;
    }
