-- ===== src/Tests/Events.antt =====
-- Pages of events and remarks at concrete inputs.
use ntu_cloud_native.Prelude.Pages.{sort_by}
use ntu_cloud_native.Permissions.{
  scoped_events, narrow, get_visible_department_ids, requested_ids, visible_department_ids,
}
use ntu_cloud_native.Prelude.Text.{strip, split}
use ntu_cloud_native.Reports.Remarks.Changes.{
  update_compliance_anomaly_remark-IsRemarked, IsRemarked,
}
use ntu_cloud_native.Reports.Events.{
  newest_first, passes, departments_shown, serialize_access_event, filtered_events,
  export_access_events, EventItem, EventFilter,
}
use Prim.Native.String.{String}
use ntu_cloud_native.Prelude.Decimal.{natural}
use ntu_cloud_native.Prelude.{refl, ◌≡◌, map, [], Option, Bool, ◌∷◌, true, ℕ, List, none, some}
use ntu_cloud_native.Schema.{AccessEvent, Employee, UserAccount, Database}
use ntu_cloud_native.Result.{value_error, ok, err}
use ntu_cloud_native.Reports.Remarks.{
  remark_of, set_remark, update_target, may_remark, joins, is_denied, remark_target, remark_denied,
  denied_request_id, target_of, update_denied_access_remark, update_compliance_anomaly_remark,
  RemarkAnswer,
}
use ntu_cloud_native.Tests.Data.{empty_db}

abbrev event : ℕ → String → String → ℕ → AccessEvent
event id request_id decision t = record {
  id = id;
  request_id = request_id;
  employee_id = "E1";
  gate_id = "gate_1_A";
  direction = "IN";
  decision = decision;
  reason = "OK";
  previous_state = "OUT";
  current_state = "IN";
  latency_ms = natural 1;
  remark = none;
  occurred_at = t;
}

abbrev boss : UserAccount
boss = record {
  user_id = 1;
  username = "boss";
  email = none;
  password_hash = none;
  password_reset_token_hash = none;
  password_reset_expires_at = none;
  password_reset_used_at = none;
  role = "EXECUTIVE";
  employee_id = none;
  is_active = true;
}

abbrev worker : Employee
worker = record {
  employee_id = "E1";
  display_name = some "One";
  department_id = some "D";
  manager_employee_id = none;
  last_known_state = "IN";
  last_seen_at = none;
}

abbrev three : Database
three = record empty_db {
  employees = worker ∷ [];
  events = event 1 "r1" "GRANTED" 10 ∷ event 2 "r2" "DENIED" 30 ∷ event 3 "r3" "GRANTED" 20 ∷ [];
}

abbrev no_filter : EventFilter
no_filter = record {
  employee_id = none;
  department_id = none;
  department_ids = [];
  decision = none;
  direction = none;
  reason = none;
  from_time = none;
  to_time = none;
  q = none;
}

abbrev ilike : String → String → Bool
ilike s p = true

abbrev all_items : List EventItem
all_items =
    map (serialize_access_event three)
      (event 2 "r2" "DENIED" 30 ∷ event 3 "r3" "GRANTED" 20 ∷ event 1 "r1" "GRANTED" 10 ∷ [])

exported : export_access_events ilike 3 three (some boss) no_filter ≡ some all_items
unfolding export_access_events filtered_events departments_shown visible_department_ids
    requested_ids get_visible_department_ids narrow scoped_events passes newest_first sort_by
exported = refl

abbrev answer : RemarkAnswer
answer = record { id = "denied:r2"; employee_id = "E1"; request_id = "r2"; note = "lost card" }

abbrev remarked : Database
remarked = record empty_db {
  employees = worker ∷ [];
  events =
      event 1 "r1" "GRANTED" 10
      ∷ (record (event 2 "r2" "DENIED" 30) { remark = some "lost card" })
      ∷ event 3 "r3" "GRANTED" 20
      ∷ [];
}

abbrev no_date : String → Option ℕ
no_date s = none

abbrev any_gate : String → Bool
any_gate g = true

denied_remark :
    update_compliance_anomaly_remark no_date any_gate 3 three (some boss) "denied:r2" " lost card "
    ≡ some (ok (answer, remarked))
unfolding update_compliance_anomaly_remark update_denied_access_remark denied_request_id
    remark_denied visible_department_ids requested_ids get_visible_department_ids narrow is_denied
    joins may_remark update_target set_remark remark_of strip
denied_remark = refl

update_compliance_anomaly_remark-IsRemarked_example :
    IsRemarked no_date any_gate 3 three (some boss) "denied:r2" " lost card " answer remarked
update_compliance_anomaly_remark-IsRemarked_example =
    update_compliance_anomaly_remark-IsRemarked no_date any_gate 3 three (some boss) "denied:r2"
      " lost card " answer remarked denied_remark

unsupported :
    update_compliance_anomaly_remark no_date any_gate 3 three (some boss) "early:2026-06-01:E1" "x"
    ≡ some (err value_error)
unfolding update_compliance_anomaly_remark target_of split remark_target
unsupported = refl
