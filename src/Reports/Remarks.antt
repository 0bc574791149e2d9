-- ===== src/Reports/Remarks.antt =====
-- The remarks on anomalies of reporting-api/app/repositories.py: `update_compliance_anomaly_remark` and
-- `update_denied_access_remark`. What PostgreSQL makes of a text as a date, and of a gate under the
-- LIKE pattern of the main gates, are arguments; without a date its error is raised.
pub mod Stored
pub mod Names
pub mod Changes
use ntu_cloud_native.Prelude.Pages.{sort_by}
use ntu_cloud_native.Timestamp.{local_date}
use ntu_cloud_native.Permissions.Departments.{◌>>=◌}
use ntu_cloud_native.Prelude.Text.{split, is_empty, strip}
use ntu_cloud_native.Permissions.{
  is_in, is_own, visible_department_ids, employee_of, Visible, only_own, or_none_id,
}
use Prim.Native.String
use Prim.Native.String.{String}
use ntu_cloud_native.Prelude.{
  keep, nat_eq, ◌||◌, string_eq, [], ltb, false, true, find, ◌&&◌, leb, ◌==◌, ◌∷◌, eqb, starts_with,
  Option, Bool, ℕ, List, if◌then◌else◌, none, some,
}
use ntu_cloud_native.Schema.{Employee, AccessEvent, UserAccount, Database}
use ntu_cloud_native.Result.{Result, ok, err, lookup_error, value_error, data_error}

-- What an id of an anomaly says: the day and the employee, the direction of the event that carries
-- the remark, and whether that is the first or the last one of the day.
pub record Target : Type 0 where
  pub work_date : String
  pub employee_id : String
  pub direction : String
  pub is_first : Bool

-- The parts of an id, split at its colons.
unfoldable pub target_of : List String → Option Target
target_of (kind ∷ work_date ∷ employee_id ∷ []) =
    if kind == "late"
    then some (record {
      work_date = work_date;
      employee_id = employee_id;
      direction = "IN";
      is_first = true;
    })
    else if kind == "overtime"
    then some (record {
      work_date = work_date;
      employee_id = employee_id;
      direction = "OUT";
      is_first = false;
    })
    else none
target_of (kind ∷ work_date ∷ employee_id ∷ missing ∷ []) =
    if kind == "unpaired" && (missing == "IN" || missing == "OUT")
    then some (record {
      work_date = work_date;
      employee_id = employee_id;
      direction = if missing == "IN" then "OUT" else "IN";
      is_first = false;
    })
    else none
target_of _ = none

-- `emp.department_id IN :visible_ids`, of the joined employee.
unfoldable pub joins : Visible → Option Employee → Bool
unfolding or_none_id
joins visible none = false
joins Visible.everything (some m) = true
joins (Visible.only ids) (some m) = is_in (Visible.only (or_none_id ids)) (some m)

-- The filters of both statements.
unfoldable pub may_remark : Database → Option UserAccount → Visible → AccessEvent → Bool
unfolding joins only_own
may_remark db user visible e =
    joins visible (employee_of db e) && is_own (only_own user) e.employee_id

-- `ORDER BY occurred_at, id`, of two rows.
unfoldable pub earlier : AccessEvent → AccessEvent → Bool
earlier a b =
    if eqb a.occurred_at b.occurred_at then leb a.id b.id else ltb a.occurred_at b.occurred_at

-- `remark.strip() or None`
unfoldable pub remark_of : String → Option String
unfolding strip
remark_of remark = if is_empty (strip remark) then none else some (strip remark)

unfoldable pub set_remark : ℕ → Option String → List AccessEvent → List AccessEvent
set_remark i remark [] = []
set_remark i remark (e ∷ events) =
    let rest = set_remark i remark events in
    if e.id == i then (record e { remark = remark }) ∷ rest else e ∷ rest

pub record RemarkAnswer : Type 0 where
  pub id : String
  pub employee_id : String
  pub request_id : String
  pub note : String

-- `a or b`
abbrev pub text_or : Option String → String → String
text_or none b = b
text_or (some a) b = if is_empty a then b else a

abbrev pub first_row : List AccessEvent → Option AccessEvent
first_row [] = none
first_row (e ∷ events) = some e

-- The UPDATE of the row that the subquery finds, and the answer with its note.
unfoldable pub update_target :
    Database
    → String
    → Option String
    → (AccessEvent → String)
    → Option AccessEvent
    → Result (RemarkAnswer × Database)
unfolding set_remark
update_target db anomaly_id remark otherwise none = err lookup_error
update_target db anomaly_id remark otherwise (some e) = ok (
  record {
    id = anomaly_id;
    employee_id = e.employee_id;
    request_id = e.request_id;
    note = text_or remark (otherwise e);
  },
  record db { events = set_remark e.id remark db.events },
)

abbrev pub awaiting : String
awaiting = "待主管確認"

-- The request id behind `denied:`.
unfoldable pub denied_request_id : String → String
denied_request_id anomaly_id =
    if starts_with anomaly_id "denied:"
    then String.slice anomaly_id 7 (String.len anomaly_id)
    else anomaly_id

unfoldable pub is_denied : Database → Option UserAccount → String → Visible → AccessEvent → Bool
unfolding may_remark
is_denied db user request_id visible e =
    may_remark db user visible e && (e.request_id == request_id && e.decision == "DENIED")

unfoldable pub remark_denied :
    ℕ
    → Database
    → Option UserAccount
    → String
    → String
    → String
    → Option (Result (RemarkAnswer × Database))
unfolding update_target is_denied remark_of
remark_denied fuel db user anomaly_id request_id remark = do
  visible ← visible_department_ids fuel db user none
  some (
      update_target db anomaly_id (remark_of remark) (λ e. text_or (some e.reason) awaiting)
        (find (is_denied db user request_id visible) db.events))

-- `update_denied_access_remark`
unfoldable pub update_denied_access_remark :
    ℕ → Database → Option UserAccount → String → String → Option (Result (RemarkAnswer × Database))
unfolding remark_denied denied_request_id
update_denied_access_remark fuel db user anomaly_id remark =
    if is_empty (denied_request_id anomaly_id)
    then some (err value_error)
    else remark_denied fuel db user anomaly_id (denied_request_id anomaly_id) remark

module _ (parse_date : String → Option ℕ) (is_main_gate : String → Bool) where
  unfoldable pub is_target :
      Database → Option UserAccount → Visible → Target → ℕ → AccessEvent → Bool
  unfolding may_remark
  is_target db user visible target date e =
      may_remark db user visible e
      && e.employee_id == target.employee_id
      && eqb (local_date e.occurred_at) date
      && is_main_gate e.gate_id
      && e.decision == "GRANTED"
      && e.direction == target.direction

  -- The first row in the order of the statement.
  unfoldable pub first_target :
      Database → Option UserAccount → Visible → Target → ℕ → Option AccessEvent
  unfolding is_target earlier
  first_target db user visible target date = first_row (
      sort_by (λ a b. if target.is_first then earlier a b else earlier b a)
        (keep (is_target db user visible target date) db.events))

  unfoldable pub remark_on :
      Database
      → Option UserAccount
      → String
      → Option String
      → Target
      → Visible
      → Option ℕ
      → Result (RemarkAnswer × Database)
  unfolding update_target first_target
  remark_on db user anomaly_id remark target visible none = err data_error
  remark_on db user anomaly_id remark target visible (some date) =
      update_target db anomaly_id remark (λ e. awaiting) (first_target db user visible target date)

  unfoldable pub remark_target :
      ℕ
      → Database
      → Option UserAccount
      → String
      → String
      → Option Target
      → Option (Result (RemarkAnswer × Database))
  unfolding remark_on remark_of
  remark_target fuel db user anomaly_id remark none = some (err value_error)
  remark_target fuel db user anomaly_id remark (some target) = do
    visible ← visible_department_ids fuel db user none
    some (
        remark_on db user anomaly_id (remark_of remark) target visible
          (parse_date target.work_date))

  -- `update_compliance_anomaly_remark`
  unfoldable pub update_compliance_anomaly_remark :
      ℕ
      → Database
      → Option UserAccount
      → String
      → String
      → Option (Result (RemarkAnswer × Database))
  unfolding remark_target update_denied_access_remark target_of split
  update_compliance_anomaly_remark fuel db user anomaly_id remark =
      if starts_with anomaly_id "denied:"
      then update_denied_access_remark fuel db user anomaly_id remark
      else remark_target fuel db user anomaly_id remark (target_of (split b':' anomaly_id))
