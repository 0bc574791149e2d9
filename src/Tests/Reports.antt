-- ===== src/Tests/Reports.antt =====
-- The attendance report at concrete rows.
use ntu_cloud_native.Prelude.Decimal.{natural}
use ntu_cloud_native.Prelude.{
  arith, ℕ, ◌≤◌, length, true, All, ◌+◌, String, none, some, List, [], ◌∷◌, ◌≡◌, refl, keep,
  pair_eq, string_eq, nat_eq,
}
use ntu_cloud_native.Prelude.Dict.{Dict, lookup, values}
use ntu_cloud_native.Timestamp.{Timestamp, clock, day}
use ntu_cloud_native.Schema.{Database, event_is_accepted}
use ntu_cloud_native.Permissions.{Visible}
use ntu_cloud_native.Reports.Cache.{
  cache_max, store_report_center_cache, store_report_center_cache_bounded,
}
use ntu_cloud_native.Reports.Summary.{get_access_summary, get_access_summary_adds_up}
use ntu_cloud_native.Tests.Data.{empty_db}
use ntu_cloud_native.Reports.Attendance.{
  EventRow, group_row, tally_group, work_hours, group_rows, tally_groups, no_tally,
  compute_report_center_attendance,
}
use ntu_cloud_native.Reports.Attendance.Groups.{SumsUpAll, is_row_of, group_rows-SumsUpAll}
use ntu_cloud_native.Reports.Attendance.Conservation.{IsBalanced, tally_groups-IsBalanced}

abbrev row : String → String → Timestamp → EventRow
row direction decision t = record {
  event = record {
    id = 1;
    request_id = "r";
    employee_id = "E1";
    gate_id = "g_A";
    direction = direction;
    decision = decision;
    reason = "";
    previous_state = "OUT";
    current_state = "IN";
    latency_ms = natural 1;
    remark = none;
    occurred_at = t;
  };
  department_id = some "D";
}

-- A refusal, an entry at 8:00 and an exit at 17:30 on the second day.
abbrev rows : List EventRow
rows =
    row "IN" "DENIED" (day + clock 7 59)
    ∷ row "IN" "GRANTED" (day + clock 8 0)
    ∷ row "OUT" "GRANTED" (day + clock 17 30)
    ∷ []

stay_of_rows : (compute_report_center_attendance rows).average_stay_hours ≡ some 950
unfolding compute_report_center_attendance group_row tally_group work_hours
stay_of_rows = refl

anomaly_of_rows : (compute_report_center_attendance rows).anomaly_days ≡ 1
unfolding compute_report_center_attendance group_row tally_group work_hours
anomaly_of_rows = refl

group_rows-SumsUpAll_example :
    SumsUpAll (keep (is_row_of ("E1", 1)) rows) (lookup ("E1", 1) (group_rows [] rows))
group_rows-SumsUpAll_example = group_rows-SumsUpAll rows ("E1", 1)

tally_groups-IsBalanced_example : IsBalanced (tally_groups no_tally (values (group_rows [] rows)))
tally_groups-IsBalanced_example = tally_groups-IsBalanced rows

abbrev stored : Database
stored = record empty_db {
  events = (row "IN" "GRANTED" 1).event ∷ (row "OUT" "DENIED" 2).event ∷ [];
}

stored-is_accepted : All (λ e. event_is_accepted e ≡ true) stored.events
unfolding event_is_accepted
stored-is_accepted = (refl, (refl, tt))

get_access_summary_adds_up_example :
    let s = get_access_summary stored none Visible.everything none none in
    (s.granted_events + s.denied_events ≡ s.total_events)
    × (s.employees_inside + s.employees_outside ≡ s.known_employees)
get_access_summary_adds_up_example =
    get_access_summary_adds_up stored none Visible.everything none none stored-is_accepted

abbrev cache : Dict String (ℕ × ℕ)
cache = ("user:1", (5, 10)) ∷ []

store_report_center_cache_bounded_example :
    (length (store_report_center_cache "user:2" 6 20 cache) ≤ cache_max)
    × (lookup "user:2" (store_report_center_cache "user:2" 6 20 cache) ≡ some (6, 20))
store_report_center_cache_bounded_example =
    store_report_center_cache_bounded "user:2" 6 20 cache (omega arith)
