-- ===== src/Reports/Precompute.antt =====
-- The worker that stores the reports ahead of the requests:
-- reporting-api/app/report_precompute_worker.py. What runs the migrations and what computes a report
-- are arguments; the logging is left out.
pub mod Serves
pub mod Retry
use ntu_cloud_native.Reports.Snapshots.Center.{refresh_snapshot}
use ntu_cloud_native.Reports.Presets.{precompute_presets}
use ntu_cloud_native.Reports.Snapshots.Requests.{alone}
use ntu_cloud_native.Permissions.Departments.{◌>>=◌}
use ntu_cloud_native.Timestamp.{Timestamp}
use ntu_cloud_native.Permissions.{get_visible_department_ids, Visible}
use ntu_cloud_native.Reports.Snapshots.Requests.{LiveRequest}
use ntu_cloud_native.Prelude.Decimal.{sorted_set}
use ntu_cloud_native.Schema.{Department, Database, UserAccount}
use ntu_cloud_native.Prelude.Text.{is_empty, strip}
use Prim.Native.String
use Prim.Native.String.{String, ◌++◌ as ◌<>◌}
use ntu_cloud_native.Prelude.{
  zero, eqb, suc, string_eq, not, ◌||◌, take, is_nil, nat_eq, contains, none, ◌==◌, keep, ◌&&◌,
  some, find, map, Bool, [], leb, ◌∷◌, Option, if◌then◌else◌, ℕ, List,
}
use ntu_cloud_native.Reports.Snapshots.Store.{Lookup, Report, Snapshot}
use ntu_cloud_native.Result.{Result, ok, err, Error}

abbrev or_unknown : String → String → String
or_unknown s unknown = if is_empty s then unknown else s

-- `department_id or "ALL"`
abbrev or_all : Option String → String
or_all none = "ALL"
or_all (some d) = or_unknown d "ALL"

unfoldable pub snapshot_display_name : Option String → String → String
unfolding strip
snapshot_display_name d range_preset =
    or_unknown (strip (or_all d)) "UNKNOWN_DEPARTMENT"
    <> "_"
    <> or_unknown (strip range_preset) "UNKNOWN_RANGE"

-- The loop of `run_migrations_with_retry`, with the attempts that are left, the one before the next,
-- and the answer to each attempt; with the answer come the pauses of two seconds that were made.
unfoldable pub attempt_then : ℕ → Result (Unit {0}) → Result (Unit {0}) × ℕ → Result (Unit {0}) × ℕ
attempt_then left (ok done) rest = (ok done, 0)
attempt_then zero (err raised) rest = (err raised, 0)
attempt_then (suc left) (err raised) rest = (rest.0, suc rest.1)

unfoldable pub attempt_from : ℕ → ℕ → (ℕ → Result (Unit {0})) → Result (Unit {0}) × ℕ
unfolding attempt_then
attempt_from zero done run = (ok tt, 0)
attempt_from (suc left) done run =
    attempt_then left (run (suc done)) (attempt_from left (suc done) run)

unfoldable pub run_migrations_with_retry : ℕ → (ℕ → Result (Unit {0})) → Result (Unit {0}) × ℕ
unfolding attempt_from
run_migrations_with_retry max_attempts run = attempt_from max_attempts 0 run

-- `[username.strip() for username in usernames if username.strip()]`
unfoldable pub username_filters : List String → List String
unfolding strip
username_filters [] = []
username_filters (u ∷ us) =
    let rest = username_filters us in if is_empty (strip u) then rest else strip u ∷ rest

-- `ORDER BY user_id`
unfoldable pub insert_id : ℕ → List ℕ → List ℕ
insert_id k [] = k ∷ []
insert_id k (j ∷ js) = let rest = insert_id k js in if leb k j then k ∷ j ∷ js else j ∷ rest

unfoldable pub ordered : List ℕ → List ℕ
unfolding insert_id
ordered [] = []
ordered (k ∷ ks) = insert_id k (ordered ks)

abbrev report_center_roles : List String
report_center_roles = "ADMIN" ∷ "EXECUTIVE" ∷ "MANAGER" ∷ []

-- The WHERE of `active_report_user_ids`.
unfoldable pub is_report_user : List String → UserAccount → Bool
is_report_user filters user =
    user.is_active
    && contains report_center_roles user.role
    && (is_nil filters || contains filters user.username)

unfoldable pub active_report_user_ids : List UserAccount → List String → List ℕ
unfolding is_report_user username_filters ordered
active_report_user_ids users usernames =
    ordered (map (λ u. u.user_id) (keep (is_report_user (username_filters usernames)) users))

abbrev excluded_ids : List String
excluded_ids = "TSMC" ∷ []

-- The rows of the query for all departments come in the order of their ids, as the visible ones do;
-- the collation of the database is taken for that of the code points.
unfoldable pub listed_ids : List Department → Visible → List String
unfolding sorted_set
listed_ids ds Visible.everything = sorted_set (map (λ d. d.department_id) ds)
listed_ids ds (Visible.only ids) = sorted_set ids

-- `db.get(UserAccount, user_id)`
abbrev pub user_of : Database → ℕ → Option UserAccount
user_of db user_id = find (λ u. u.user_id == user_id) db.users

unfoldable pub targets_of : ℕ → Database → ℕ → Option UserAccount → Option (List String)
unfolding listed_ids
targets_of fuel db department_limit none = some []
targets_of fuel db department_limit (some user) = do
  visible ← get_visible_department_ids fuel db user
  some (
      take department_limit
        (keep (λ d. not (contains excluded_ids d)) (listed_ids db.departments visible)))

unfoldable pub target_department_ids : ℕ → Database → ℕ → ℕ → Option (List String)
unfolding targets_of
target_department_ids fuel db user_id department_limit =
    targets_of fuel db department_limit (user_of db user_id)

-- A user, a preset and a department.
pub record Job : Type 0 where
  pub user_id : ℕ
  pub range_preset : String
  pub department_id : Option String

-- `times` has the times at which a job begins and at which it stores its report; no other session
-- writes to the table meanwhile.
module _ {A D : Type 0} (quoted sha256 : String → String)
    (compute_live : Database → LiveRequest → Option (Result (Report A D))) (fuel : ℕ)
    (db : Database) (times : Job → Timestamp × Timestamp) where
  -- The table after a refresh; a refresh that raises was rolled back.
  unfoldable pub table_after :
      List (Snapshot A D) → Result (Report A D × List (Snapshot A D)) → Result (List (Snapshot A D))
  table_after rows (err e) = err e
  table_after rows (ok refreshed) = ok refreshed.1

  unfoldable pub refresh_for :
      Job → ℕ → List (Snapshot A D) → Option UserAccount → Option (Result (List (Snapshot A D)))
  unfolding table_after refresh_snapshot
  refresh_for job limit rows none = some (ok rows)
  refresh_for job limit rows (some user) = do
    refreshed ←
        refresh_snapshot quoted sha256 compute_live fuel (alone db (times job).0 (times job).1 rows)
          (some user) job.range_preset job.department_id limit
    some (table_after rows refreshed)

  unfoldable pub refresh_job : Job → ℕ → List (Snapshot A D) → Option (Result (List (Snapshot A D)))
  unfolding refresh_for
  refresh_job job limit rows = refresh_for job limit rows (user_of db job.user_id)

  -- `except Exception`: the failed job is logged, and the table is as before.
  unfoldable pub or_before :
      List (Snapshot A D) → Result (List (Snapshot A D)) → List (Snapshot A D)
  or_before rows (err e) = rows
  or_before rows (ok rows') = rows'

  unfoldable pub refresh_departments :
      ℕ → String → ℕ → List String → List (Snapshot A D) → Option (List (Snapshot A D))
  unfolding refresh_job or_before
  refresh_departments user_id range_preset limit [] rows = some rows
  refresh_departments user_id range_preset limit (d ∷ ds) rows = do
    refreshed ←
        refresh_job
          (record { user_id = user_id; range_preset = range_preset; department_id = some d }) limit
          rows
    refresh_departments user_id range_preset limit ds (or_before rows refreshed)

  unfoldable pub refresh_presets :
      ℕ → ℕ → List String → List String → List (Snapshot A D) → Option (List (Snapshot A D))
  unfolding refresh_departments
  refresh_presets user_id limit ds [] rows = some rows
  refresh_presets user_id limit ds (preset ∷ presets) rows = do
    rows' ←
        if contains precompute_presets preset
        then refresh_departments user_id preset limit ds rows
        else some rows
    refresh_presets user_id limit ds presets rows'

  unfoldable pub refresh_users :
      List String → ℕ → ℕ → List ℕ → List (Snapshot A D) → Option (List (Snapshot A D))
  unfolding refresh_presets
  refresh_users presets limit department_limit [] rows = some rows
  refresh_users presets limit department_limit (user_id ∷ ids) rows = do
    ds ← target_department_ids fuel db user_id department_limit
    rows' ← refresh_presets user_id limit ds presets rows
    refresh_users presets limit department_limit ids rows'

  unfoldable pub refresh_all :
      List String → ℕ → ℕ → List String → List (Snapshot A D) → Option (List (Snapshot A D))
  unfolding refresh_users username_filters active_report_user_ids
  refresh_all presets limit department_limit usernames rows =
      refresh_users presets limit department_limit
        (active_report_user_ids db.users (username_filters usernames)) rows
