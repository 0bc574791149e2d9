-- ===== src/Ingest/Tables.antt =====
-- The queries and the row update that a save makes on the tables.
use ntu_cloud_native.Prelude.{
  refl, eq_iff, arith, ◌++◌, false, true, ◌≡◌, is_none, String, Bool, Option, none, some, List, [],
  ◌∷◌, any, find, if◌then◌else◌, ◌==◌, string_eq,
}
use ntu_cloud_native.Timestamp.{Timestamp}
use ntu_cloud_native.Schema.{Department, Employee, AccessEvent}

abbrev pub default_department_id : String
default_department_id = "UNASSIGNED"

-- `select(AccessEvent.id).where(AccessEvent.request_id == request_id)` is not empty.
abbrev pub has_request : String → List AccessEvent → Bool
has_request request_id events = any (λ e. e.request_id == request_id) events

-- `db.get(Employee, employee_id)`
abbrev pub get_employee : String → List Employee → Option Employee
get_employee employee_id employees = find (λ e. e.employee_id == employee_id) employees

-- `db.get(Department, department_id)` is not None.
abbrev pub has_department : String → List Department → Bool
has_department department_id departments = any (λ d. d.department_id == department_id) departments

-- The UPDATE of one employee's last known state.
abbrev pub set_last_known : String → String → Option Timestamp → List Employee → List Employee
set_last_known employee_id state seen_at [] = []
set_last_known employee_id state seen_at (e ∷ rest) =
    if e.employee_id == employee_id
    then record e { last_known_state = state; last_seen_at = seen_at } ∷ rest
    else e ∷ set_last_known employee_id state seen_at rest

-- An employee's last known state, with the time of it.
abbrev pub sighting : String → List Employee → Option (String × Option Timestamp)
sighting k ms = elim (get_employee k ms) [
  | none ↦ none
  | some m ↦ some (m.last_known_state, m.last_seen_at)
]

module _ (k state : String) (t : Option Timestamp) where
  pub sighting-set_last_known :
      (ms : List Employee)
      → any (λ m. m.employee_id == k) ms ≡ true
      → sighting k (set_last_known k state t ms) ≡ some (state, t)
  sighting-set_last_known [] h = ground arith
  sighting-set_last_known (m ∷ ms) h = ground (arith, sighting-set_last_known ms)

  pub get_employee-set_last_known_ne :
      (j : String) (ms : List Employee)
      → (k == j) ≡ false
      → get_employee j (set_last_known k state t ms) ≡ get_employee j ms
  get_employee-set_last_known_ne j [] h = refl
  get_employee-set_last_known_ne j (m ∷ ms) h = ground (
    arith,
    get_employee-set_last_known_ne j ms,
    eq_iff m.employee_id k,
    eq_iff m.employee_id j,
    eq_iff k j,
  )

pub get_employee-append_ne :
    (j : String) (m : Employee) (ms : List Employee)
    → (m.employee_id == j) ≡ false
    → get_employee j (ms ++ m ∷ []) ≡ get_employee j ms
get_employee-append_ne j m [] h = ground arith
get_employee-append_ne j m (x ∷ ms) h = ground (arith, get_employee-append_ne j m ms)

pub sighting-append_new :
    (k : String) (m : Employee) (ms : List Employee)
    → is_none (get_employee k ms) ≡ true
    → (m.employee_id == k) ≡ true
    → sighting k (ms ++ m ∷ []) ≡ some (m.last_known_state, m.last_seen_at)
sighting-append_new k m [] h e = ground arith
sighting-append_new k m (x ∷ ms) h e = ground (arith, sighting-append_new k m ms)

-- The row of an employee who was seen in a state at a time, from the row before, if there was one.
abbrev pub seen_row : String → String → Timestamp → Option Employee → Employee
seen_row k state t none = record {
  employee_id = k;
  display_name = none;
  department_id = some default_department_id;
  manager_employee_id = none;
  last_known_state = state;
  last_seen_at = some t;
}
seen_row k state t (some m) = record m { last_known_state = state; last_seen_at = some t }

pub get_employee-append_new :
    (k : String) (m : Employee) (ms : List Employee)
    → is_none (get_employee k ms) ≡ true
    → (m.employee_id == k) ≡ true
    → get_employee k (ms ++ m ∷ []) ≡ some m
get_employee-append_new k m [] h e = ground arith
get_employee-append_new k m (x ∷ ms) h e = ground (arith, get_employee-append_new k m ms)

pub get_employee-set_last_known :
    (k state : String) (t : Timestamp) (ms : List Employee)
    → any (λ m. m.employee_id == k) ms ≡ true
    → get_employee k (set_last_known k state (some t) ms)
      ≡ some (seen_row k state t (get_employee k ms))
get_employee-set_last_known k state t [] h = ground arith
get_employee-set_last_known k state t (m ∷ ms) h =
    ground (arith, get_employee-set_last_known k state t ms)

pub seen_row-none :
    (k state : String) (t : Timestamp) (o : Option Employee)
    → is_none o ≡ true
    → seen_row k state t o ≡ seen_row k state t none
seen_row-none k state t none h = refl
seen_row-none k state t (some m) h = ground arith
