-- ===== src/Reports/Snapshots.antt =====
-- The stored reports of the report center, of reporting-api/app/repositories.py: whom a stored report
-- is for, how it is found again, and how a request is answered with one. What a request computes
-- without one (`_compute_report_center_live`) is an argument, and so are the digest and the escaping
-- of texts in JSON.
pub mod Store
pub mod Keys
pub mod Rows
pub mod Table
pub mod Requests
pub mod Center
pub mod Answers
pub mod Served
pub mod Audience
pub mod Executive
use ntu_cloud_native.Permissions.Departments.{get_descendant_department_ids, ◌>>=◌}
use ntu_cloud_native.Timestamp.{Timestamp}
use ntu_cloud_native.Prelude.Decimal.{decimal, sorted_set}
use ntu_cloud_native.Prelude.Text.{is_empty}
use ntu_cloud_native.Reports.Presets.{precompute_presets, normalize_preset}
use ntu_cloud_native.Permissions.{
  visible_department_ids, get_visible_department_ids, own_employee, Visible,
}
use ntu_cloud_native.Schema.{Database, UserAccount}
use ntu_cloud_native.Prelude.{
  string_eq, is_nil, is_none, ◌==◌, ◌&&◌, contains, all, none, leb, [], false, true, if◌then◌else◌,
  some, ◌∷◌, Bool, Option, List, ℕ,
}
use Prim.Native.String
use Prim.Native.String.{String, ◌++◌ as ◌<>◌}
use ntu_cloud_native.Reports.Snapshots.Store.{Lookup, Report, Meta, Snapshot, store, read}

-- `_report_center_snapshot_user_key`
unfoldable pub user_key : Option UserAccount → String
user_key none = "anonymous"
user_key (some user) = "user:" <> decimal user.user_id

-- `_requested_department_ids`
unfoldable pub requested_department_ids : ℕ → Database → String → Option (List String)
requested_department_ids fuel db d = do
  below ← get_descendant_department_ids fuel db.departments d
  some (sorted_set (d ∷ below))

-- `visible_ids is None or requested_ids.issubset(set(visible_ids))`
unfoldable pub covers_all : Visible → List String → Bool
covers_all Visible.everything requested = true
covers_all (Visible.only ids) requested = all (contains ids) requested

-- `_can_use_shared_department_snapshot`
unfoldable pub can_use_shared : ℕ → Database → Option UserAccount → Option String → Option Bool
unfolding requested_department_ids covers_all
can_use_shared fuel db none d = some false
can_use_shared fuel db (some user) none = some false
can_use_shared fuel db (some user) (some d) = do
  requested ← requested_department_ids fuel db d
  visible ← get_visible_department_ids fuel db user
  some (covers_all visible requested)

-- `_shared_department_snapshot_user_key`
abbrev pub shared_user_key : String → String
shared_user_key d = "department:" <> d

-- `_report_center_excluded_department_ids`
unfoldable pub excluded_department_ids : Database → Option UserAccount → List String
excluded_department_ids db none = []
excluded_department_ids db (some user) =
    if contains ("MANAGER" ∷ "EXECUTIVE" ∷ "ADMIN" ∷ []) user.role
    then elim (own_employee db user) [
      | none ↦ []
      | some m ↦ elim m.department_id [ none ↦ [] | some d ↦ d ∷ [] ]
    ]
    else []

-- The first active executive by the number of the account.
unfoldable pub lower_id : UserAccount → Option UserAccount → UserAccount
lower_id user none = user
lower_id user (some other) = if leb user.user_id other.user_id then user else other

unfoldable pub first_executive : List UserAccount → Option UserAccount
unfolding lower_id
first_executive [] = none
first_executive (user ∷ users) =
    let rest = first_executive users in
    if user.is_active && user.role == "EXECUTIVE" then some (lower_id user rest) else rest

unfoldable pub or_user : Option UserAccount → Option UserAccount → Option UserAccount
or_user none user = user
or_user (some executive) user = some executive

-- `_report_center_snapshot_compute_user`
unfoldable pub compute_user :
    ℕ → Database → Option UserAccount → Option String → Option (Option UserAccount)
unfolding can_use_shared or_user
compute_user fuel db user d = do
  shared ← can_use_shared fuel db user d
  some (if shared then or_user (first_executive db.users) user else user)

-- `report_center_snapshot_is_supported`
unfoldable pub is_supported : Option String → Option String → List String → Bool
is_supported range_preset employee_id department_ids = elim (normalize_preset range_preset) [
  | none ↦ false
  | some preset ↦ contains precompute_presets preset && is_none employee_id && is_nil department_ids
]

-- The `scope_payload` of a lookup.
pub data Scope : Type 0 where
  shared_scope : List String → Scope
  user_scope : (role employee_id : Option String) → Visible → List String → Scope

-- `json.dumps` with sorted keys and no spaces, of the values that occur in a scope; `quoted` is a
-- text as JSON writes it.
module _ (quoted : String → String) where
  abbrev joined : List String → String
  joined [] = ""
  joined (s ∷ []) = quoted s
  joined (s ∷ t ∷ ts) = quoted s <> "," <> joined (t ∷ ts)

  abbrev json_list : List String → String
  json_list ids = "[" <> joined ids <> "]"

  abbrev json_option : Option String → String
  json_option none = "null"
  json_option (some s) = quoted s

  abbrev json_visible : Visible → String
  json_visible Visible.everything = "null"
  json_visible (Visible.only ids) = json_list (sorted_set ids)

  unfoldable pub dumps : Scope → String
  dumps (shared_scope ids) =
      "{\"departmentIds\":" <> json_list ids <> ",\"sharedDepartmentSnapshot\":true}"
  dumps (user_scope role employee_id visible excluded) =
      "{\"employeeId\":"
      <> json_option employee_id
      <> ",\"excludedDepartmentIds\":"
      <> json_list excluded
      <> ",\"role\":"
      <> json_option role
      <> ",\"visibleDepartmentIds\":"
      <> json_visible visible
      <> "}"

abbrev role_of : Option UserAccount → Option String
role_of none = none
role_of (some user) = some user.role

abbrev employee_id_of : Option UserAccount → Option String
employee_id_of none = none
employee_id_of (some user) = user.employee_id

module _ (quoted sha256 : String → String) where
  unfoldable pub own_scope_key : ℕ → Database → Option UserAccount → Option String → Option String
  own_scope_key fuel db user d = do
    visible ← visible_department_ids fuel db user d
    some (
        dumps quoted (
          user_scope (role_of user) (employee_id_of user) visible
            (sorted_set (excluded_department_ids db user))))

  -- The text of `_report_center_snapshot_scope`, which the lookup has with its digest.
  unfoldable pub scope_key :
      ℕ → Database → Option UserAccount → Option String → Bool → Option String
  unfolding own_scope_key
  scope_key fuel db user (some d) true = do
    requested ← requested_department_ids fuel db d
    some (dumps quoted (shared_scope requested))
  scope_key fuel db user none true = own_scope_key fuel db user none
  scope_key fuel db user d false = own_scope_key fuel db user d

  unfoldable pub lookup_user_key : Bool → Option UserAccount → Option String → String
  lookup_user_key true user (some d) = shared_user_key d
  lookup_user_key true user none = user_key user
  lookup_user_key false user d = user_key user

  unfoldable pub lookup_user_id : Bool → Option UserAccount → Option ℕ
  lookup_user_id true user = none
  lookup_user_id false none = none
  lookup_user_id false (some user) = some user.user_id

  -- `department_id or REPORT_CENTER_TARGET_ALL`
  unfoldable pub target_id_of : Option String → String
  target_id_of none = "ALL"
  target_id_of (some d) = if is_empty d then "ALL" else d

  -- `_report_center_snapshot_lookup`
  unfoldable pub snapshot_lookup :
      ℕ
      → Database
      → Option UserAccount
      → String
      → Option String
      → Timestamp
      → Timestamp
      → ℕ
      → Option Lookup
  unfolding scope_key lookup_user_key lookup_user_id target_id_of
  snapshot_lookup fuel db user range_preset d from to limit = do
    shared ← can_use_shared fuel db user d
    key ← scope_key fuel db user d shared
    some (record {
      cache_user_key = lookup_user_key shared user d;
      user_id = lookup_user_id shared user;
      range_preset = range_preset;
      target_type = "department";
      target_id = target_id_of d;
      scope_hash = sha256 key;
      scope_key = key;
      period_from = from;
      period_to = to;
      preview_limit = limit;
    })
