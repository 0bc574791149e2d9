-- ===== src/Schema.antt =====
-- The tables of reporting-api/app/models.py: a record for each class with the columns that the
-- program reads, the tables as lists of rows, and the constraints that a commit enforces. The
-- columns that the database fills in by itself (`created_at`, `updated_at`, `consumed_at`) are
-- left out, since no decision of the program reads them.
use ntu_cloud_native.Prelude.Decimal.{below_zero, natural, lacks, Integer}
use Prim.Native.String
use ntu_cloud_native.Prelude.{
  none, some, true, ℕ, String, Bool, ◌&&◌, ◌||◌, Option, List, ltb, leb, ◌==◌, string_eq,
}
use ntu_cloud_native.Timestamp.{Timestamp}

pub record Department : Type 0 where
  pub department_id : String
  pub name : String
  pub parent_department_id : Option String

pub record Employee : Type 0 where
  pub employee_id : String
  pub display_name : Option String
  pub department_id : Option String
  pub manager_employee_id : Option String
  pub last_known_state : String
  pub last_seen_at : Option Timestamp

pub record UserAccount : Type 0 where
  pub user_id : ℕ
  pub username : String
  pub email : Option String
  pub password_hash : Option String
  pub password_reset_token_hash : Option String
  pub password_reset_expires_at : Option Timestamp
  pub password_reset_used_at : Option Timestamp
  pub role : String
  pub employee_id : Option String
  pub is_active : Bool

pub record UserDepartmentScope : Type 0 where
  pub user_id : ℕ
  pub department_id : String
  pub include_descendants : Bool

pub record AccessEvent : Type 0 where
  pub id : ℕ
  pub request_id : String
  pub employee_id : String
  pub gate_id : String
  pub direction : String
  pub decision : String
  pub reason : String
  pub previous_state : String
  pub current_state : String
  pub latency_ms : Integer
  pub remark : Option String
  pub occurred_at : Timestamp

pub record Database : Type 0 where
  pub departments : List Department
  pub employees : List Employee
  pub users : List UserAccount
  pub scopes : List UserDepartmentScope
  pub events : List AccessEvent
  -- The next value of the sequence behind `access_events.id`; the gap that a rolled back insert
  -- leaves in the ids is left out.
  pub next_event_id : ℕ

-- PostgreSQL refuses a text with a character NUL.
abbrev is_storable : String → Bool
is_storable s = lacks 0 s

-- A value fits a column `String(width)`.
abbrev fits : ℕ → String → Bool
fits width s = leb (String.count s) width && is_storable s

-- A value fits a nullable column `Text`.
abbrev is_note : Option String → Bool
is_note none = true
is_note (some s) = is_storable s

-- A value fits a column `Integer`, which has 32 bits.
abbrev is_int4 : Integer → Bool
is_int4 (natural n) = ltb n 2_147_483_648
is_int4 (below_zero n) = ltb n 2_147_483_648

-- `… in ('UNKNOWN', 'IN', 'OUT')`
unfoldable pub is_state : String → Bool
is_state s = s == "UNKNOWN" || s == "IN" || s == "OUT"

abbrev id_fits : String → Bool
id_fits employee_id = fits 64 employee_id

-- `… in ('GRANTED', 'DENIED')`
abbrev pub is_decision : String → Bool
is_decision s = s == "GRANTED" || s == "DENIED"

-- The columns that `employees` has too, and the others without the decision.
abbrev pub shared_columns_fit : AccessEvent → Bool
shared_columns_fit e = id_fits e.employee_id && is_state e.current_state

abbrev pub other_columns_fit : AccessEvent → Bool
other_columns_fit e =
    fits 128 e.request_id
    && fits 64 e.gate_id
    && fits 64 e.reason
    && is_int4 e.latency_ms
    && is_note e.remark
    && (e.direction == "IN" || e.direction == "OUT")
    && is_state e.previous_state

-- The CHECK constraints and the column types of `access_events`.
unfoldable pub event_is_accepted : AccessEvent → Bool
unfolding is_state
event_is_accepted e = shared_columns_fit e && (is_decision e.decision && other_columns_fit e)

-- The CHECK constraint and the column type of `employees`.
unfoldable pub employee_is_accepted : Employee → Bool
unfolding is_state
employee_is_accepted e = id_fits e.employee_id && is_state e.last_known_state
