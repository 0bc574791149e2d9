-- ===== src/Tests/Permissions.antt =====
-- The scopes at concrete inputs.
use ntu_cloud_native.Prelude.Decimal.{natural}
use ntu_cloud_native.Prelude.{
  false≢true, inr, inl, if◌then◌else◌, ℕ, String, true, Option, none, some, List, [], ◌∷◌, ◌≡◌,
  refl, arith, contains, string_eq, ◌↔◌, ◌⊎◌, ◌<◌, All, ◌==◌, eq_of_==, Bool-cases,
}
use ntu_cloud_native.Schema.{Employee, AccessEvent, Department, UserAccount, Database}
use ntu_cloud_native.Permissions.Departments.{
  children, children_of_all, get_descendant_department_ids,
}
use ntu_cloud_native.Permissions.Descendants.{
  Below, child, through, get_descendant_department_ids_iff_Below,
  get_descendant_department_ids_ends, get_descendant_department_ids_cycle,
}
use ntu_cloud_native.Permissions.{
  only_own, Visible, requested_ids, narrow, get_visible_department_ids, visible_department_ids,
  scoped_events,
}
use ntu_cloud_native.Permissions.Scope.{
  MaySee, shows, get_visible_department_ids_iff_MaySee, visible_department_ids_narrows,
}
use ntu_cloud_native.Permissions.Rows.{MayReturn, scoped_events-MayReturn}
use ntu_cloud_native.Tests.Data.{empty_db}

abbrev department : String → Option String → Department
department d parent = record { department_id = d; name = d; parent_department_id = parent }

-- A department, one below it, and one below that.
abbrev tree : List Department
tree = department "A" none ∷ department "B" (some "A") ∷ department "C" (some "B") ∷ []

-- Two departments each below the other.
abbrev loop : List Department
loop = department "A" (some "B") ∷ department "B" (some "A") ∷ []

abbrev below_a : List String
below_a = "B" ∷ "C" ∷ []

abbrev c_name : String
c_name = "C"

tree-below : get_descendant_department_ids 3 tree "A" ≡ some ("B" ∷ "C" ∷ [])
unfolding get_descendant_department_ids children_of_all
tree-below = refl

get_descendant_department_ids_iff_Below_example :
    (contains below_a c_name ≡ true) ↔ Below tree c_name "A"
get_descendant_department_ids_iff_Below_example =
    get_descendant_department_ids_iff_Below 3 tree "A" below_a tree-below "C"

abbrev pair : List Department
pair = department "A" none ∷ department "B" (some "A") ∷ []

abbrev rank : String → ℕ
rank d = if d == "A" then 1 else 0

pair_falls : (w c : String) → contains (children pair w) c ≡ true → rank c < rank w
unfolding children
pair_falls w c h = elim (Bool-cases ("A" == w)) [
  | inl above ↦
      let w_is : "A" ≡ w = eq_of_== "A" w above in
      let listed : contains ("B" ∷ []) c ≡ true = rw above at h in
      let c_is : c ≡ "B" = eq_of_== c "B" (ground arith) in rw (c_is, ← w_is) (omega arith)
  | inr not_above ↦ absurd (false≢true (rw not_above at h))
]

get_descendant_department_ids_ends_example :
    (out : List String) × (get_descendant_department_ids 1 pair "A" ≡ some out)
get_descendant_department_ids_ends_example =
    get_descendant_department_ids_ends pair rank pair_falls 1 "A" (omega arith)

loop-cycle : Below loop "A" "A"
unfolding children
loop-cycle = through "B" refl (child refl)

get_descendant_department_ids_cycle_example : get_descendant_department_ids 100 loop "A" ≡ none
get_descendant_department_ids_cycle_example =
    get_descendant_department_ids_cycle loop "A" "A" loop-cycle loop-cycle 100

abbrev user : UserAccount
user = record {
  user_id = 1;
  username = "manager";
  email = none;
  password_hash = none;
  password_reset_token_hash = none;
  password_reset_expires_at = none;
  password_reset_used_at = none;
  role = "MANAGER";
  employee_id = none;
  is_active = true;
}

abbrev scoped_db : Database
scoped_db = record empty_db {
  departments = tree;
  scopes = record { user_id = 1; department_id = "B"; include_descendants = true } ∷ [];
}

visible_to_user : get_visible_department_ids 3 scoped_db user ≡ some (Visible.only ("B" ∷ "C" ∷ []))
unfolding get_visible_department_ids get_descendant_department_ids children_of_all
visible_to_user = refl

get_visible_department_ids_iff_MaySee_example :
    (shows (Visible.only ("B" ∷ "C" ∷ [])) "C" ≡ true) ↔ MaySee scoped_db user "C"
get_visible_department_ids_iff_MaySee_example =
    get_visible_department_ids_iff_MaySee 3 scoped_db user (Visible.only ("B" ∷ "C" ∷ []))
      visible_to_user "C"

visible_under_request :
    visible_department_ids 3 scoped_db (some user) (some "A") ≡ some (Visible.only ("B" ∷ "C" ∷ []))
unfolding visible_department_ids get_visible_department_ids get_descendant_department_ids
    requested_ids narrow children_of_all
visible_under_request = refl

visible_department_ids_narrows_example :
    (shows (Visible.only ("B" ∷ "C" ∷ [])) "C" ≡ true)
    ↔ (MaySee scoped_db user "C" × ((c_name ≡ "A") ⊎ Below tree c_name "A"))
visible_department_ids_narrows_example =
    visible_department_ids_narrows 3 scoped_db user "A" (Visible.only ("B" ∷ "C" ∷ [])) refl
      visible_under_request "C"

-- Two events, of an employee in a department that the user may see and of one in none.
abbrev passage : ℕ → String → AccessEvent
passage id who = record {
  id = id;
  request_id = who;
  employee_id = who;
  gate_id = "gate_1_A";
  direction = "IN";
  decision = "GRANTED";
  reason = "OK";
  previous_state = "OUT";
  current_state = "IN";
  latency_ms = natural 12;
  remark = none;
  occurred_at = 100;
}

abbrev member : String → Option String → Employee
member who d = record {
  employee_id = who;
  display_name = none;
  department_id = d;
  manager_employee_id = none;
  last_known_state = "IN";
  last_seen_at = none;
}

abbrev busy_db : Database
busy_db = record scoped_db {
  employees = member "E1" (some "C") ∷ member "E2" (some "A") ∷ [];
  events = passage 1 "E1" ∷ passage 2 "E2" ∷ [];
}

visible_in_busy :
    visible_department_ids 3 busy_db (some user) (some "A") ≡ some (Visible.only ("B" ∷ "C" ∷ []))
unfolding visible_department_ids get_visible_department_ids get_descendant_department_ids
    requested_ids narrow children_of_all
visible_in_busy = refl

events_in_busy :
    scoped_events busy_db (some user) (Visible.only ("B" ∷ "C" ∷ [])) none none
    ≡ passage 1 "E1" ∷ []
unfolding scoped_events only_own
events_in_busy = refl

scoped_events-MayReturn_example :
    All
      (MayReturn busy_db user)
      (scoped_events busy_db (some user) (Visible.only ("B" ∷ "C" ∷ [])) none none)
scoped_events-MayReturn_example =
    scoped_events-MayReturn 3 busy_db user (some "A") (Visible.only ("B" ∷ "C" ∷ [])) none none
      visible_in_busy
