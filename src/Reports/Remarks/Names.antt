-- ===== src/Reports/Remarks/Names.antt =====
-- Which event the id of an anomaly names, for the remarks of reporting-api/app/repositories.py.
use ntu_cloud_native.Timestamp.{local_date}
use ntu_cloud_native.Prelude.Text.{split}
use ntu_cloud_native.Permissions.{Visible}
use ntu_cloud_native.Schema.{UserAccount, Database, AccessEvent}
use ntu_cloud_native.Prelude.{
  string_eq, arith, eq_of_==, ◌⊎◌, some, true, ◌≡◌, starts_with, Bool, ℕ, Option, String,
}
use ntu_cloud_native.Reports.Remarks.{denied_request_id, target_of, Target, is_target}

module _ (parse_date : String → Option ℕ) (is_main_gate : String → Bool) where
  -- An id of three or four parts names a granted passage through a main gate, of the employee, on
  -- the day and in the direction that the parts say.
  pub record IsPassage (anomaly_id : String) (e : AccessEvent) : Type 0 where
    pub target : Target
    pub parsed : target_of (split b':' anomaly_id) ≡ some target
    pub of_employee : e.employee_id ≡ target.employee_id
    pub of_day : parse_date target.work_date ≡ some (local_date e.occurred_at)
    pub at_main_gate : is_main_gate e.gate_id ≡ true
    pub granted : e.decision ≡ "GRANTED"
    pub directed : e.direction ≡ target.direction

  -- An id that begins with `denied:` names a refusal by its request id.
  abbrev pub Names : String → AccessEvent → Type 0
  Names anomaly_id e =
      ((starts_with anomaly_id "denied:" ≡ true)
        × (e.request_id ≡ denied_request_id anomaly_id)
        × (e.decision ≡ "DENIED"))
      ⊎ IsPassage anomaly_id e

  pub is_target-IsPassage :
      (db : Database) (user : Option UserAccount) (visible : Visible) (anomaly_id : String)
      (target : Target) (date : ℕ) (e : AccessEvent)
      → target_of (split b':' anomaly_id) ≡ some target
      → parse_date target.work_date ≡ some date
      → is_target parse_date is_main_gate db user visible target date e ≡ true
      → IsPassage anomaly_id e
  unfolding is_target
  is_target-IsPassage db user visible anomaly_id target date e parsed day h = record {
    target = target;
    parsed = parsed;
    of_employee = eq_of_== e.employee_id target.employee_id (ground arith);
    of_day = ground arith;
    at_main_gate = ground arith;
    granted = eq_of_== e.decision "GRANTED" (ground arith);
    directed = eq_of_== e.direction target.direction (ground arith);
  }
