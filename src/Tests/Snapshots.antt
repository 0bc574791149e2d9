-- ===== src/Tests/Snapshots.antt =====
-- Tests and witnesses of the calendar, the presets and the stored reports.
use ntu_cloud_native.Reports.Snapshots.Executive.{is_executive, IsFirstExecutive}
use ntu_cloud_native.Reports.Snapshots.Center.{
  get_through_snapshots, in_window, compute_and_store, for_preset, refresh_snapshot,
  get_report_center,
}
use ntu_cloud_native.Reports.Snapshots.Answers.{as_hit}
use ntu_cloud_native.Reports.Precompute.Retry.{run_migrations_with_retry_first, failed}
use ntu_cloud_native.Reports.Precompute.{
  active_report_user_ids, target_department_ids, run_migrations_with_retry,
}
use ntu_cloud_native.Reports.Precompute.Serves.{refresh_snapshot_serves}
use ntu_cloud_native.Prelude.Text.{strip}
use ntu_cloud_native.Reports.Snapshots.Audience.{read_for_request-own, compute_user-shared}
use ntu_cloud_native.Prelude.Decimal.{decimal, sorted_set}
use ntu_cloud_native.Reports.Snapshots.Served.{get_report_center_again}
use ntu_cloud_native.Permissions.{
  narrow, requested_ids, visible_department_ids, only_own, get_visible_department_ids,
}
use ntu_cloud_native.Reports.Snapshots.Table.{read-store, IsStored}
use ntu_cloud_native.Reports.Presets.{preset_from_date, resolve_preset_window, normalize_preset}
use ntu_cloud_native.Result.{operational_error, err, ok, Result}
use ntu_cloud_native.Permissions.Departments.{get_descendant_department_ids}
use ntu_cloud_native.Reports.Snapshots.{
  excluded_department_ids, own_scope_key, user_key, dumps, scope_key, snapshot_lookup, compute_user,
  requested_department_ids, can_use_shared,
}
use ntu_cloud_native.Reports.Snapshots.Requests.{
  alone, store_and_answer, clamp_limit, read_for_request, uses_snapshots, ReportRequest,
  LiveRequest,
}
use ntu_cloud_native.Timestamp.{local_date, hour, clock, Timestamp}
use ntu_cloud_native.Calendar.{subtract_months, date_of}
use ntu_cloud_native.Timestamp.{Timestamp, day, clock, second}
use ntu_cloud_native.Calendar.{find_month, find_year, borrow_years, month_length}
use ntu_cloud_native.Prelude.{
  All, ◌⊎◌, ◌-◌, suc, ltb, if◌then◌else◌, arith, ◌<◌, ◌≤◌, false≢true, refl, ◌+◌, false, true, ◌*◌,
  Option, ◌≡◌, [], ◌∷◌, some, none, String, ℕ, List,
}
use ntu_cloud_native.Schema.{UserAccount, Database}
use ntu_cloud_native.Reports.Snapshots.Store.{
  read_any_department, is_for, without_snapshot, latest, store, read, Lookup, Report, Snapshot,
}

-- 2024-02-29 and 2026-05-31.
leap_day : date_of 738_944 ≡ record { year = 2024; month = 2; day = 29 }
unfolding date_of find_year find_month
leap_day = refl

three_months_before :
    subtract_months (record { year = 2026; month = 5; day = 31 }) 3
    ≡ record { year = 2026; month = 2; day = 28 }
unfolding subtract_months borrow_years month_length
three_months_before = refl

abbrev account : ℕ → String → Option String → UserAccount
account user_id role employee_id = record {
  user_id = user_id;
  username = "";
  email = none;
  password_hash = none;
  password_reset_token_hash = none;
  password_reset_expires_at = none;
  password_reset_used_at = none;
  role = role;
  employee_id = employee_id;
  is_active = true;
}

abbrev boss : UserAccount
boss = account 1 "EXECUTIVE" none

-- An employee of department D, with no scope.
abbrev clerk : UserAccount
clerk = account 2 "EMPLOYEE" (some "E1")

abbrev office : Database
office = record {
  departments = (record { department_id = "D"; name = "D"; parent_department_id = none }) ∷ [];
  employees =
      (record {
        employee_id = "E1";
        display_name = none;
        department_id = some "D";
        manager_employee_id = none;
        last_known_state = "IN";
        last_seen_at = none;
      })
      ∷ [];
  users = boss ∷ clerk ∷ [];
  scopes = [];
  events = [];
  next_event_id = 1;
}

abbrev report : Report ℕ ℕ
report = record { parts = 7; top_departments = 1 ∷ []; snapshot = none }

-- 2026-06-15, 9:00.
abbrev morning : Timestamp
morning = 739_781 * day + clock 9 0

abbrev no_rows : List (Snapshot ℕ ℕ)
no_rows = []

abbrev same_text : String → String
same_text s = s

abbrev live : Database → LiveRequest → Option (Result (Report ℕ ℕ))
live db r = some (ok report)

clerk-shares : can_use_shared 3 office (some clerk) (some "D") ≡ some true
unfolding can_use_shared requested_department_ids get_descendant_department_ids
    get_visible_department_ids sorted_set
clerk-shares = refl

boss-shares : can_use_shared 3 office (some boss) (some "D") ≡ some true
unfolding can_use_shared requested_department_ids get_descendant_department_ids
    get_visible_department_ids sorted_set
boss-shares = refl

clerk-not_all : can_use_shared 3 office (some clerk) none ≡ some false
unfolding can_use_shared
clerk-not_all = refl

-- The report of a department for a clerk is one for an executive.
compute_user-shared_example :
    ((ex : UserAccount) × (compute_user 3 office (some clerk) (some "D") ≡ some (some ex))
      × IsFirstExecutive office.users ex
      × (only_own (some ex) ≡ none))
    ⊎ ((compute_user 3 office (some clerk) (some "D") ≡ some (some clerk))
        × All (λ u. is_executive u ≡ false) office.users)
compute_user-shared_example = compute_user-shared 3 office clerk "D" clerk-shares

abbrev midnight : Timestamp
midnight = 739_781 * day

abbrev evening : Timestamp
evening = 739_781 * day + clock 23 59 + 59 * second

abbrev lookup_d : Lookup
lookup_d = record {
  cache_user_key = "department:D";
  user_id = none;
  range_preset = "today";
  target_type = "department";
  target_id = "D";
  scope_hash = "{\"departmentIds\":[D],\"sharedDepartmentSnapshot\":true}";
  scope_key = "{\"departmentIds\":[D],\"sharedDepartmentSnapshot\":true}";
  period_from = midnight;
  period_to = evening;
  preview_limit = 500;
}

abbrev clean : Report ℕ ℕ
clean = record { parts = 7; top_departments = 1 ∷ []; snapshot = none }

abbrev row_d : Snapshot ℕ ℕ
row_d = record { lookup = lookup_d; payload = clean; generated_at = morning; updated_at = morning }

abbrev answer_d : Report ℕ ℕ
answer_d = record {
  parts = 7;
  top_departments = [];
  snapshot = some (record {
    hit = false;
    generated_at = morning;
    period_from = midnight;
    period_to = evening;
    range_preset = "today";
    target_type = "department";
    target_id = "D";
  });
}

abbrev request : ReportRequest
request = record {
  current_user = some clerk;
  from_time = none;
  to_time = none;
  employee_id = none;
  department_id = some "D";
  department_ids = [];
  limit = 500;
  range_preset = some " today ";
  target_mode = none;
  use_snapshots = true;
}

first_request :
    get_report_center same_text same_text live 3 (alone office morning morning no_rows) request
    ≡ some (ok (answer_d, row_d ∷ []))
unfolding get_report_center normalize_preset strip for_preset resolve_preset_window in_window
    preset_from_date uses_snapshots clamp_limit get_through_snapshots snapshot_lookup can_use_shared
    requested_department_ids get_descendant_department_ids get_visible_department_ids sorted_set
    scope_key dumps read_for_request read latest compute_and_store compute_user store_and_answer
    store is_for read_any_department
first_request = refl

request-uses_snapshots : uses_snapshots request ≡ true
unfolding uses_snapshots
request-uses_snapshots = refl

request-named : normalize_preset request.range_preset ≡ some "today"
unfolding normalize_preset strip
request-named = refl

-- The second request, an hour later, when nothing more could be computed.
get_report_center_again_example :
    get_report_center same_text same_text
      (λ db r. none)
      3
      (alone office (morning + hour) (morning + hour) (row_d ∷ []))
      request
    ≡ some (ok (as_hit answer_d, row_d ∷ []))
get_report_center_again_example =
    get_report_center_again same_text same_text live 3 office morning morning (morning + hour)
      (morning + hour) no_rows request "today" answer_d (row_d ∷ []) (λ db r. none)
      request-uses_snapshots request-named refl refl tt first_request

-- Another session stores the row first.
read-store_example :
    IsStored lookup_d
      (without_snapshot report)
      evening
      (read lookup_d (store lookup_d report evening [] (row_d ∷ [])).1)
    × ((m : Lookup)
        → is_for m lookup_d ≡ false
        → read m (store lookup_d report evening [] (row_d ∷ [])).1 ≡ read m (row_d ∷ []))
unfolding read latest
read-store_example =
    read-store lookup_d report evening [] (row_d ∷ []) (refl, tt) (λ h. absurd (false≢true h))

abbrev own_text : String
own_text =
    "{\"employeeId\":E1,\"excludedDepartmentIds\":[],\"role\":EMPLOYEE,\"visibleDepartmentIds\":[D]}"

abbrev lookup_own : Lookup
lookup_own = record {
  cache_user_key = "user:2";
  user_id = some 2;
  range_preset = "today";
  target_type = "department";
  target_id = "ALL";
  scope_hash = own_text;
  scope_key = own_text;
  period_from = midnight;
  period_to = evening;
  preview_limit = 500;
}

abbrev row_own : Snapshot ℕ ℕ
row_own = record {
  lookup = lookup_own;
  payload = clean;
  generated_at = morning;
  updated_at = morning;
}

own_lookup :
    snapshot_lookup same_text same_text 3 office (some clerk) "today" none midnight evening 500
    ≡ some lookup_own
unfolding snapshot_lookup can_use_shared get_visible_department_ids sorted_set scope_key dumps
    user_key decimal visible_department_ids excluded_department_ids requested_ids narrow
own_lookup = refl

own_read :
    read_for_request 3 office (some clerk) none lookup_own (row_d ∷ row_own ∷ [])
    ≡ some (some row_own)
unfolding read_for_request can_use_shared read latest is_for
own_read = refl

read_for_request-own_example :
    (lookup_own.cache_user_key ≡ user_key (some clerk))
    × ((key : String) × (own_scope_key same_text same_text 3 office (some clerk) none ≡ some key)
        × (lookup_own.scope_hash ≡ same_text key))
read_for_request-own_example =
    read_for_request-own same_text same_text 3 office (some clerk) "today" none midnight evening 500
      lookup_own (row_d ∷ row_own ∷ []) row_own clerk-not_all own_lookup own_read

after_year_one : 2 ≤ (date_of (local_date morning)).year
unfolding date_of find_year
after_year_one = omega arith

first_refresh :
    refresh_snapshot same_text same_text live 3
      (alone office morning morning no_rows)
      (some boss)
      "today"
      (some "D")
      500
    ≡ some (ok (answer_d, row_d ∷ []))
unfolding refresh_snapshot normalize_preset strip resolve_preset_window preset_from_date clamp_limit
    snapshot_lookup can_use_shared requested_department_ids get_descendant_department_ids
    get_visible_department_ids sorted_set scope_key dumps read latest compute_and_store compute_user
    store_and_answer store is_for
first_refresh = refl

today_named : normalize_preset (some "today") ≡ some "today"
unfolding normalize_preset strip
today_named = refl

refresh_snapshot_serves_example :
    get_report_center same_text same_text
      (λ db r. none)
      3
      (alone office (morning + hour) (morning + hour) (row_d ∷ []))
      request
    ≡ some (ok (as_hit answer_d, row_d ∷ []))
refresh_snapshot_serves_example =
    refresh_snapshot_serves same_text same_text live (λ db r. none) 3 office morning morning
      (morning + hour) (morning + hour) no_rows boss clerk "D" "today" answer_d (row_d ∷ []) "today"
      500 request refl refl refl request-uses_snapshots today_named request-named refl refl
      boss-shares clerk-shares tt first_refresh

-- The database answers at the third attempt.
abbrev third : ℕ → Result (Unit {0})
third attempt = if ltb attempt 3 then err operational_error else ok tt

third_succeeds : run_migrations_with_retry 30 third ≡ (ok tt, 2)
unfolding run_migrations_with_retry
third_succeeds = refl

run_migrations_with_retry_first_example :
    ((k : ℕ)
      → k < 30
      → ((j : ℕ) → j < k → failed (third (suc j)) ≡ true)
      → third (suc k) ≡ ok tt
      → run_migrations_with_retry 30 third ≡ (ok tt, k))
    × (((j : ℕ) → j < 30 → failed (third (suc j)) ≡ true)
        → run_migrations_with_retry 30 third ≡ (third 30, 30 - 1))
run_migrations_with_retry_first_example = run_migrations_with_retry_first 30 third (omega arith)

targets : target_department_ids 3 office 2 5 ≡ some ("D" ∷ [])
unfolding target_department_ids get_visible_department_ids sorted_set
targets = refl

names : active_report_user_ids (clerk ∷ boss ∷ []) [] ≡ 1 ∷ []
unfolding active_report_user_ids
names = refl
