-- ===== src/Ingest.antt =====
-- Ingestion in reporting-api/app/repositories.py: `parse_access_event`, `save_access_event` and what
-- they call, down to the transaction that stores an event. A save is split as the session splits
-- it: `stage` reads, `commit` writes against the database as it is then, and the constraints of the
-- tables decide; what another session committed in between is what `commit` meets.
pub mod Parse
pub mod Tables
pub mod Invariant
pub mod Save
pub mod Total
pub mod Redelivery
pub mod Session
use ntu_cloud_native.Prelude.{
  ℕ, suc, ◌+◌, String, Bool, true, false, ◌&&◌, not, Option, none, some, List, [], ◌∷◌, ◌++◌, any,
  find, is_some, is_none, if◌then◌else◌, get_or, ◌==◌, string_eq, starts_with,
}
use ntu_cloud_native.Prelude.Text.{strip, split, is_empty}
use ntu_cloud_native.Result.{
  Result, ok, err, Error, key_error, value_error, integrity_error, ◌>>=◌, ◌>>◌, guard,
}
use ntu_cloud_native.Timestamp.{Timestamp, local_datetime}
use ntu_cloud_native.Schema.{
  Department, Employee, AccessEvent, Database, event_is_accepted, employee_is_accepted,
}
use ntu_cloud_native.Ingest.Parse.{
  Payload, Runtime, text_at, number_at, remark_at, parse_event_timestamp,
}
use ntu_cloud_native.Ingest.Tables.{
  has_request, get_employee, has_department, set_last_known, default_department_id,
}

-- `_loadtest_skip_prefixes`
keep_nonempty : List String → List String
keep_nonempty [] = []
keep_nonempty (p ∷ ps) =
    let rest = keep_nonempty ps in if is_empty (strip p) then rest else strip p ∷ rest

unfoldable pub loadtest_skip_prefixes : String → List String
unfolding keep_nonempty split strip
loadtest_skip_prefixes raw = keep_nonempty (split b',' raw)

-- `is_skipped_loadtest_event`; `str.startswith` of an empty tuple is false.
unfoldable pub is_skipped_loadtest_event : String → String → Bool
unfolding loadtest_skip_prefixes
is_skipped_loadtest_event raw employee_id =
    any (λ prefix. starts_with employee_id prefix) (loadtest_skip_prefixes raw)

-- What the session holds before its commit: the objects added, and the changed columns.
pub record Staged : Type 0 where
  pub adds_department : Bool
  pub adds_employee : Bool
  pub employee_id : String
  pub state : String
  pub seen_at : Timestamp
  pub event : ℕ → AccessEvent

-- The reads of `save_access_event_with_session`, from the session's view of the database. `none`
-- is a `return False`.
unfoldable pub stage : String → Runtime → Payload → Database → Result (Option Staged)
stage skip rt payload db = do
  employee_id ← text_at rt payload "employeeId"
  if is_skipped_loadtest_event skip employee_id then ok none else do
    request_id ← text_at rt payload "requestId"
    if has_request request_id db.events then ok none else do
      stamp ← text_at rt payload "timestamp"
      occurred_at ← parse_event_timestamp rt stamp
      current_state ← text_at rt payload "currentState"
      gate_id ← text_at rt payload "gateId"
      direction ← text_at rt payload "direction"
      decision ← text_at rt payload "decision"
      reason ← text_at rt payload "reason"
      previous_state ← text_at rt payload "previousState"
      latency_ms ← number_at rt payload "latencyMs"
      remark ← remark_at rt payload
      let is_new = is_none (get_employee employee_id db.employees)
      ok (
          some (record {
            adds_department = is_new && not (has_department default_department_id db.departments);
            adds_employee = is_new;
            employee_id = employee_id;
            state = current_state;
            seen_at = occurred_at;
            event = λ id. record {
              id = id;
              request_id = request_id;
              employee_id = employee_id;
              gate_id = gate_id;
              direction = direction;
              decision = decision;
              reason = reason;
              previous_state = previous_state;
              current_state = current_state;
              latency_ms = latency_ms;
              remark = remark;
              occurred_at = occurred_at;
            };
          }))

-- `Department(department_id="UNASSIGNED", name="Unassigned")`
abbrev pub unassigned : Department
unassigned = record {
  department_id = default_department_id;
  name = "Unassigned";
  parent_department_id = none;
}

-- The inserts and the update that the flushes and `db.commit()` send, in their order. A primary
-- key or a request id that is there already, a foreign key that is not, and a value that a column
-- does not take, is an `IntegrityError` or a `DataError`, and nothing is stored.
add_department : Bool → Database → Result Database
add_department false db = ok db
add_department true db = do
  guard (not (has_department default_department_id db.departments)) integrity_error
  ok (record db { departments = db.departments ++ unassigned ∷ [] })

-- `Employee(employee_id=employee_id, department_id=default_dept_id)` with the columns set after it.
abbrev pub new_employee : Staged → Employee
new_employee s = record {
  employee_id = s.employee_id;
  display_name = none;
  department_id = some default_department_id;
  manager_employee_id = none;
  last_known_state = s.state;
  last_seen_at = some s.seen_at;
}

write_employee : Staged → Database → Result Database
write_employee s db =
    if s.adds_employee
    then (do
      let row = new_employee s
      guard (is_none (get_employee s.employee_id db.employees)) integrity_error
      guard (has_department default_department_id db.departments) integrity_error
      guard (employee_is_accepted row) integrity_error
      ok (record db { employees = db.employees ++ row ∷ [] }))
    else ok (record db {
      employees = set_last_known s.employee_id s.state (some s.seen_at) db.employees;
    })

write_event : (ℕ → AccessEvent) → Database → Result Database
write_event make db = do
  let row = make db.next_event_id
  guard (not (has_request row.request_id db.events)) integrity_error
  guard (is_some (get_employee row.employee_id db.employees)) integrity_error
  guard (event_is_accepted row) integrity_error
  ok (record db { events = db.events ++ row ∷ []; next_event_id = suc db.next_event_id })

unfoldable pub commit : Staged → Database → Result Database
unfolding add_department write_employee write_event
commit s db = do
  db₁ ← add_department s.adds_department db
  db₂ ← write_employee s db₁
  write_event s.event db₂

-- The end of `save_access_event_with_session`. An error leaves the database as it was.
pub finish : Option Staged → Database → Result (Bool × Database)
finish none db = ok (false, db)
finish (some s) db = do db' ← commit s db; ok (true, db')

-- `save_access_event` alone on the database.
unfoldable pub save_access_event : String → Runtime → Payload → Database → Result (Bool × Database)
unfolding finish
save_access_event skip rt payload db = do staged ← stage skip rt payload db; finish staged db

-- The call in a session whose reads saw `seen`, which need not be the database that its writes meet:
-- other sessions commit in between.
unfoldable pub save_in_session :
    String → Runtime → Payload → Database → Database → Result (Bool × Database)
unfolding finish
save_in_session skip rt payload seen db = do staged ← stage skip rt payload seen; finish staged db

-- The database behind it, whichever way the call ends.
unfoldable pub after_save : Result (Bool × Database) → Database → Database
after_save (ok (inserted, db')) db = db'
after_save (err e) db = db
