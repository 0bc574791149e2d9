-- ===== src/Reports/Attendance.antt =====
-- `_compute_report_center_attendance` of reporting-api/app/repositories.py: the attendance figures
-- of a window. Durations are in microseconds until they are rounded to hundredths of an hour, and
-- sets are lists without repetitions.
pub mod Groups
pub mod Conservation
use ntu_cloud_native.Prelude.{
  ℕ, zero, suc, ◌+◌, ◌-◌, ◌*◌, String, Bool, true, false, not, ◌&&◌, ◌||◌, Option, none, some, List,
  [], ◌∷◌, ◌++◌, map, length, contains, if◌then◌else◌, ltb, leb, eqb, is_some, is_none, ◌==◌,
  nat_eq, string_eq, pair_eq, Eq, count_if,
}
use ntu_cloud_native.Prelude.Text.{is_empty}
use ntu_cloud_native.Prelude.Dict.{Dict, lookup, insert, update, values}
use ntu_cloud_native.Timestamp.{Timestamp, local_date, hour}
use ntu_cloud_native.Schema.{AccessEvent}
use ntu_cloud_native.Reports.Rounding.{hundredths, rounded_quotient}

-- A row of `_dashboard_event_rows`: an event and the department of its employee, by the join.
pub record EventRow : Type 0 where
  pub event : AccessEvent
  pub department_id : Option String

pub record Group : Type 0 where
  pub employee_id : String
  pub date : ℕ
  pub department_id : String
  pub first_in : Option Timestamp
  pub last_out : Option Timestamp
  pub denied : ℕ

abbrev pub Groups : Type 0
Groups = Dict (String × ℕ) Group

abbrev pub key_of : EventRow → String × ℕ
key_of row = (row.event.employee_id, local_date row.event.occurred_at)

-- `row.department_id or default`
abbrev pub department_or : String → Option String → String
department_or default none = default
department_or default (some d) = if is_empty d then default else d

abbrev pub new_group : EventRow → Group
new_group row = record {
  employee_id = row.event.employee_id;
  date = local_date row.event.occurred_at;
  department_id = department_or "-" row.department_id;
  first_in = none;
  last_out = none;
  denied = 0;
}

abbrev pub earlier : Option Timestamp → Timestamp → Option Timestamp
earlier none t = some t
earlier (some u) t = if ltb t u then some t else some u

abbrev pub later : Option Timestamp → Timestamp → Option Timestamp
later none t = some t
later (some u) t = if ltb u t then some t else some u

-- The body of the loop, on the row's group.
unfoldable pub absorb : Group → EventRow → Group
absorb group row =
    let moved = record group {
      department_id = department_or group.department_id row.department_id;
    } in
    if row.event.decision == "GRANTED" && row.event.direction == "IN"
    then record moved { first_in = earlier group.first_in row.event.occurred_at }
    else if row.event.decision == "GRANTED" && row.event.direction == "OUT"
    then record moved { last_out = later group.last_out row.event.occurred_at }
    else if row.event.decision == "DENIED"
    then record moved { denied = group.denied + 1 }
    else moved

abbrev pub absorb_into : Option Group → EventRow → Group
absorb_into none row = absorb (new_group row) row
absorb_into (some group) row = absorb group row

unfoldable pub group_row : Groups → EventRow → Groups
unfolding absorb
group_row groups row =
    if is_empty row.event.employee_id
    then groups
    else insert (key_of row) (absorb_into (lookup (key_of row) groups) row) groups

unfoldable pub group_rows : Groups → List EventRow → Groups
group_rows groups [] = groups
group_rows groups (row ∷ rows) = group_rows (group_row groups row) rows

pub record DepartmentStat : Type 0 where
  pub total_hours : ℕ
  pub work_days : ℕ
  pub employees : List String
  pub total_rows : ℕ
  pub normal_rows : ℕ

abbrev pub no_stat : DepartmentStat
no_stat = record { total_hours = 0; work_days = 0; employees = []; total_rows = 0; normal_rows = 0 }

-- The local variables of the second loop.
pub record Tally : Type 0 where
  pub total_rows : ℕ
  pub attended_rows : ℕ
  pub normal_rows : ℕ
  pub anomaly_days : ℕ
  pub stay_hours : List ℕ
  pub attendees : List String
  pub trend : Dict ℕ (List String)
  pub departments : Dict String DepartmentStat

abbrev pub no_tally : Tally
no_tally = record {
  total_rows = 0;
  attended_rows = 0;
  normal_rows = 0;
  anomaly_days = 0;
  stay_hours = [];
  attendees = [];
  trend = [];
  departments = [];
}

-- `s.add(x)`
abbrev pub add {ℓ} : {A : Type ℓ} ⦃e : Eq A⦄ → A → List A → List A
add x s = if contains s x then s else s ++ x ∷ []

abbrev pub is_attended : Group → Bool
is_attended group = is_some group.first_in

abbrev pub is_normal : Group → Bool
is_normal group = is_some group.first_in && is_some group.last_out && eqb group.denied 0

abbrev pub is_anomaly : Group → Bool
is_anomaly group = ltb 0 group.denied || is_none group.first_in || is_none group.last_out

abbrev stay_between : Option Timestamp → Option Timestamp → Option ℕ
stay_between none o = none
stay_between (some from) none = none
stay_between (some from) (some to) = if ltb from to then some (to - from) else none

unfoldable pub work_hours : Group → Option ℕ
work_hours group = stay_between group.first_in group.last_out

abbrev pub count_stay : Option ℕ → String → DepartmentStat → DepartmentStat
count_stay none employee_id stat = stat
count_stay (some stay) employee_id stat = record stat {
  total_hours = stat.total_hours + stay;
  work_days = stat.work_days + 1;
  employees = add employee_id stat.employees;
}

unfoldable pub count_group : Group → DepartmentStat → DepartmentStat
count_group group stat = count_stay (work_hours group) group.employee_id (record stat {
  total_rows = stat.total_rows + 1;
  normal_rows = stat.normal_rows + count_if (is_normal group);
})

abbrev pub stays_with : List ℕ → Option ℕ → List ℕ
stays_with stays none = stays
stays_with stays (some stay) = stays ++ stay ∷ []

unfoldable pub tally_group : Tally → Group → Tally
tally_group t group = record {
  total_rows = t.total_rows + 1;
  attended_rows = t.attended_rows + count_if (is_attended group);
  normal_rows = t.normal_rows + count_if (is_normal group);
  anomaly_days = t.anomaly_days + count_if (is_anomaly group);
  stay_hours = stays_with t.stay_hours (work_hours group);
  attendees = if is_attended group then add group.employee_id t.attendees else t.attendees;
  trend =
      if is_attended group then update group.date [] (add group.employee_id) t.trend else t.trend;
  departments = update group.department_id no_stat (count_group group) t.departments;
}

unfoldable pub tally_groups : Tally → List Group → Tally
tally_groups t [] = t
tally_groups t (group ∷ groups) = tally_groups (tally_group t group) groups

pub record DepartmentStay : Type 0 where
  pub department_id : String
  pub total_hours : ℕ
  pub average_hours : Option ℕ
  pub work_days : ℕ
  pub employee_count : ℕ
  pub normal_attendance_rate : Option ℕ

abbrev stay_of : String × DepartmentStat → DepartmentStay
stay_of (d, stat) = record {
  department_id = d;
  total_hours = hundredths stat.total_hours hour;
  average_hours = rounded_quotient stat.total_hours (hour * stat.work_days);
  work_days = stat.work_days;
  employee_count = length stat.employees;
  normal_attendance_rate = rounded_quotient (100 * stat.normal_rows) stat.total_rows;
}

-- `sorted(…, key=…, reverse=True)`, which keeps the order of equal keys.
abbrev pub insert_descending : DepartmentStay → List DepartmentStay → List DepartmentStay
insert_descending x [] = x ∷ []
insert_descending x (y ∷ ys) =
    let rest = insert_descending x ys in
    if leb y.total_hours x.total_hours then x ∷ y ∷ ys else y ∷ rest

abbrev pub sort_descending : List DepartmentStay → List DepartmentStay
sort_descending [] = []
sort_descending (x ∷ xs) = insert_descending x (sort_descending xs)

-- `sorted(trend.items())`, whose keys are distinct.
abbrev insert_day : ℕ × ℕ → List (ℕ × ℕ) → List (ℕ × ℕ)
insert_day x [] = x ∷ []
insert_day x (y ∷ ys) = let rest = insert_day x ys in if ltb x.0 y.0 then x ∷ y ∷ ys else y ∷ rest

abbrev sort_days : List (ℕ × ℕ) → List (ℕ × ℕ)
sort_days [] = []
sort_days (x ∷ xs) = insert_day x (sort_days xs)

abbrev pub total : List ℕ → ℕ
total [] = 0
total (x ∷ xs) = x + total xs

-- Hours and percentages in hundredths; the trend has a day and its headcount for each point.
pub record AttendanceReport : Type 0 where
  pub period_attendance_count : ℕ
  pub average_stay_hours : Option ℕ
  pub attendance_rate : Option ℕ
  pub normal_attendance_rate : Option ℕ
  pub anomaly_days : ℕ
  pub department_stay_stats : List DepartmentStay
  pub trend : List (ℕ × ℕ)

unfoldable pub attendance_report : Tally → AttendanceReport
unfolding hundredths rounded_quotient
attendance_report t = record {
  period_attendance_count = length t.attendees;
  average_stay_hours = rounded_quotient (total t.stay_hours) (hour * length t.stay_hours);
  attendance_rate = rounded_quotient (100 * t.attended_rows) t.total_rows;
  normal_attendance_rate = rounded_quotient (100 * t.normal_rows) t.total_rows;
  anomaly_days = t.anomaly_days;
  department_stay_stats = sort_descending (map stay_of t.departments);
  trend = sort_days (map (λ point. (point.0, length point.1)) t.trend);
}

-- `_compute_report_center_attendance`
unfoldable pub compute_report_center_attendance : List EventRow → AttendanceReport
unfolding attendance_report tally_groups group_rows
compute_report_center_attendance rows =
    attendance_report (tally_groups no_tally (values (group_rows [] rows)))
