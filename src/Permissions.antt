-- ===== src/Permissions.antt =====
-- Who may see what: reporting-api/app/permissions.py, and the scope of the report queries of
-- reporting-api/app/repositories.py (`_visible_department_ids`, `_multi_dept_visible_ids`,
-- `_scoped_event_select`, `_scoped_employee_select`). Python's sets are lists here, whose order and
-- repetitions nothing reads: the code sorts them only to have one order.
pub mod Descendants
pub mod Departments
pub mod Scope
pub mod Rows
use ntu_cloud_native.Prelude.{
  ℕ, zero, suc, String, Bool, true, false, ◌&&◌, ◌||◌, Option, none, some, List, [], ◌∷◌, ◌++◌,
  keep, contains, find, if◌then◌else◌, leb, ◌==◌, nat_eq, string_eq,
}
use ntu_cloud_native.Prelude.Text.{is_empty}
use ntu_cloud_native.Timestamp.{Timestamp}
use ntu_cloud_native.Schema.{
  Department, Employee, UserAccount, UserDepartmentScope, AccessEvent, Database,
}
use ntu_cloud_native.Permissions.Departments.{get_descendant_department_ids, ◌>>=◌}

-- `None` is all departments.
pub data Visible : Type 0 where
  everything : Visible
  only : List String → Visible

-- `user_can_view_all_departments`
unfoldable pub user_can_view_all_departments : UserAccount → Bool
user_can_view_all_departments user = user.role == "ADMIN" || user.role == "EXECUTIVE"

-- The loop over the scopes of a user; `none` is a query that does not end.
unfoldable pub scope_departments :
    ℕ → List Department → List UserDepartmentScope → Option (List String)
scope_departments fuel ds [] = some []
scope_departments fuel ds (s ∷ scopes) = do
  rest ← scope_departments fuel ds scopes
  below ←
      (if s.include_descendants
        then get_descendant_department_ids fuel ds s.department_id
        else some [])
  some (s.department_id ∷ (below ++ rest))

-- `user.employee.department_id`, where there is one.
abbrev pub own_employee : Database → UserAccount → Option Employee
own_employee db user = elim user.employee_id [
  | none ↦ none
  | some k ↦ find (λ m. m.employee_id == k) db.employees
]

abbrev pub department_of : Option Employee → List String
department_of none = []
department_of (some m) = elim m.department_id [
  | none ↦ []
  | some d ↦ if is_empty d then [] else d ∷ []
]

unfoldable pub or_own : List String → List String → List String
or_own own [] = own
or_own own (d ∷ ds) = d ∷ ds

-- `get_visible_department_ids`
unfoldable pub get_visible_department_ids : ℕ → Database → UserAccount → Option Visible
unfolding user_can_view_all_departments scope_departments or_own
get_visible_department_ids fuel db user =
    if user_can_view_all_departments user then some everything else do
      visible ←
          scope_departments fuel db.departments (keep (λ s. s.user_id == user.user_id) db.scopes)
      some (only (or_own (department_of (own_employee db user)) visible))

-- `{department_id, *get_descendant_department_ids(db, department_id)}` for a department that is given.
unfoldable pub requested_ids : ℕ → Database → Option String → Option (Option (List String))
requested_ids fuel db none = some none
requested_ids fuel db (some d) =
    if is_empty d
    then some none
    else do below ← get_descendant_department_ids fuel db.departments d; some (some (d ∷ below))

-- What is left of the visible departments under a request.
unfoldable pub narrow : Visible → Option (List String) → Visible
narrow visible none = visible
narrow everything (some requested) = only requested
narrow (only ids) (some requested) = only (keep (λ d. contains ids d) requested)

-- `_visible_department_ids`
unfoldable pub visible_department_ids :
    ℕ → Database → Option UserAccount → Option String → Option Visible
visible_department_ids fuel db none department_id = do
  requested ← requested_ids fuel db department_id
  some (only [])
visible_department_ids fuel db (some user) department_id = do
  requested ← requested_ids fuel db department_id
  visible ← get_visible_department_ids fuel db user
  some (narrow visible requested)

-- `current_user.role == "EMPLOYEE" and current_user.employee_id`
unfoldable pub only_own : Option UserAccount → Option String
only_own none = none
only_own (some user) = if user.role == "EMPLOYEE" then user.employee_id else none

abbrev at_or_after : Option Timestamp → Timestamp → Bool
at_or_after none t = true
at_or_after (some from) t = leb from t

abbrev at_or_before : Option Timestamp → Timestamp → Bool
at_or_before none t = true
at_or_before (some to) t = leb t to

-- `Employee.department_id.in_(visible_ids)` of the joined employee; NULL is in no list.
abbrev pub is_in : Visible → Option Employee → Bool
is_in everything o = true
is_in (only ids) none = false
is_in (only ids) (some m) = elim m.department_id [ none ↦ false | some d ↦ contains ids d ]

abbrev pub is_own : Option String → String → Bool
is_own none k = true
is_own (some own) k = if is_empty own then true else k == own

abbrev pub employee_of : Database → AccessEvent → Option Employee
employee_of db e = find (λ m. m.employee_id == e.employee_id) db.employees

-- `_scoped_event_select`, on the departments that `_visible_department_ids` or the caller's override
-- gave.
unfoldable pub scoped_events :
    Database → Option UserAccount → Visible → Option Timestamp → Option Timestamp → List AccessEvent
unfolding only_own
scoped_events db user visible from to =
    keep
      (λ e.
        is_in visible (employee_of db e)
        && is_own (only_own user) e.employee_id
        && at_or_after from e.occurred_at
        && at_or_before to e.occurred_at)
      db.events

-- `_scoped_employee_select`
unfoldable pub scoped_employees : Database → Option UserAccount → Visible → List Employee
unfolding only_own
scoped_employees db user visible =
    keep (λ m. is_in visible (some m) && is_own (only_own user) m.employee_id) db.employees

-- The requests of `_multi_dept_visible_ids`, each with its descendants.
unfoldable multi_requested : ℕ → Database → List String → Option (List String)
multi_requested fuel db [] = some []
multi_requested fuel db (d ∷ ids) = do
  below ← get_descendant_department_ids fuel db.departments d
  rest ← multi_requested fuel db ids
  some (d ∷ (below ++ rest))

unfoldable pub or_none_id : List String → List String
or_none_id [] = "__none__" ∷ []
or_none_id (d ∷ ds) = d ∷ ds

unfoldable narrow_many : Visible → List String → Visible
narrow_many everything requested = only requested
narrow_many (only ids) requested = only (or_none_id (keep (λ d. contains ids d) requested))

-- `_multi_dept_visible_ids`
unfoldable pub multi_dept_visible_ids :
    ℕ → Database → Option UserAccount → List String → Option Visible
unfolding multi_requested narrow_many or_none_id
multi_dept_visible_ids fuel db user [] = visible_department_ids fuel db user none
multi_dept_visible_ids fuel db user (d ∷ []) = visible_department_ids fuel db user (some d)
multi_dept_visible_ids fuel db none (d ∷ e ∷ ids) = do
  requested ← multi_requested fuel db (d ∷ e ∷ ids)
  some (only [])
multi_dept_visible_ids fuel db (some user) (d ∷ e ∷ ids) = do
  requested ← multi_requested fuel db (d ∷ e ∷ ids)
  visible ← get_visible_department_ids fuel db user
  some (narrow_many visible requested)
