-- ===== src/Reports/Employees.antt =====
-- The lists of employees of reporting-api/app/repositories.py: `get_employee_states` and
-- `search_employee_options`.
use ntu_cloud_native.Prelude.Text.{strip, is_empty}
use ntu_cloud_native.Permissions.{scoped_employees, visible_department_ids}
use ntu_cloud_native.Permissions.Departments.{◌>>=◌}
use ntu_cloud_native.Timestamp.{Timestamp}
use ntu_cloud_native.Prelude.Pages.{sort_by, page}
use Prim.Native.String.{String, ◌++◌ as ◌<>◌}
use ntu_cloud_native.Prelude.{
  string_eq, take, get_or, ◌==◌, ◌||◌, leb, false, true, none, some, length, map, some, keep, Bool,
  Option, ℕ, List, if◌then◌else◌,
}
use ntu_cloud_native.Schema.{Employee, UserAccount, Database}
use ntu_cloud_native.Reports.Events.{Page, wanted, clamped, maybe_ilike}

-- What both write of an employee; the time stands for its ISO text.
pub record EmployeeItem : Type 0 where
  pub employee_id : String
  pub display_name : Option String
  pub department_id : Option String
  pub manager_employee_id : Option String
  pub last_known_state : String
  pub last_seen_at : Option Timestamp

abbrev item_of : Employee → EmployeeItem
item_of m = record {
  employee_id = m.employee_id;
  display_name = m.display_name;
  department_id = m.department_id;
  manager_employee_id = m.manager_employee_id;
  last_known_state = m.last_known_state;
  last_seen_at = m.last_seen_at;
}

-- `last_seen_at DESC NULLS LAST`
abbrev seen_later : Option Timestamp → Option Timestamp → Bool
seen_later none none = true
seen_later none (some u) = false
seen_later (some t) none = true
seen_later (some t) (some u) = leb u t

-- `get_employee_states`
unfoldable pub get_employee_states :
    ℕ
    → Database
    → Option UserAccount
    → Option String
    → Option String
    → ℕ
    → ℕ
    → Option (Page EmployeeItem)
unfolding clamped page sort_by
get_employee_states fuel db user d state limit offset = do
  visible ← visible_department_ids fuel db user d
  let rows = keep (λ m. wanted state m.last_known_state) (scoped_employees db user visible)
  some (record {
    items = map item_of (
        page (clamped 500 limit) offset
          (sort_by (λ a b. seen_later a.last_seen_at b.last_seen_at) rows));
    total = length rows;
    limit = clamped 500 limit;
    offset = offset;
  })

abbrev is_all_departments : Option String → Bool
is_all_departments none = true
is_all_departments (some d) = is_empty d || d == "ALL"

-- `ilike` is PostgreSQL's ILIKE, and `collates a b` says whether `a` is no later than `b` in the
-- collation of the database.
module _ (ilike collates : String → String → Bool) where
  -- `department_id ASC NULLS LAST, employee_id ASC`
  unfoldable pub listed_before : Employee → Employee → Bool
  listed_before a b = elim a.department_id [
    | none ↦ elim b.department_id [ none ↦ collates a.employee_id b.employee_id | some e ↦ false ]
    | some d ↦ elim b.department_id [
      | none ↦ true
      | some e ↦ if d == e then collates a.employee_id b.employee_id else collates d e
    ]
  ]

  unfoldable pub has_keyword : String → Employee → Bool
  has_keyword keyword m =
      is_empty keyword
      || ilike m.employee_id ("%" <> keyword <> "%")
      || maybe_ilike ilike m.display_name ("%" <> keyword <> "%")
      || maybe_ilike ilike m.department_id ("%" <> keyword <> "%")

  -- `search_employee_options`, whose answer has no offset.
  unfoldable pub search_employee_options :
      ℕ
      → Database
      → Option UserAccount
      → Option String
      → Option String
      → ℕ
      → Option (List EmployeeItem × ℕ × ℕ)
  unfolding clamped sort_by listed_before has_keyword strip
  search_employee_options fuel db user d q limit = do
    visible ← visible_department_ids fuel db user (if is_all_departments d then none else d)
    let rows = keep (has_keyword (strip (get_or q ""))) (scoped_employees db user visible)
    some (
      map item_of (take (clamped 200 limit) (sort_by listed_before rows)),
      length rows,
      clamped 200 limit,
    )
