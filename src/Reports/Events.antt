-- ===== src/Reports/Events.antt =====
-- The lists of events and employees of reporting-api/app/repositories.py: filters, order and pages
-- of the scoped queries, and how reporting-api/app/serializers.py writes an event. PostgreSQL's ILIKE
-- is an argument. Rows that the order leaves open come in the order of the table.
use ntu_cloud_native.Prelude.Decimal.{Integer}
use ntu_cloud_native.Permissions.Departments.{◌>>=◌}
use ntu_cloud_native.Prelude.Text.{is_empty}
use ntu_cloud_native.Prelude.Pages.{page, sort_by}
use ntu_cloud_native.Permissions.{
  scoped_events, visible_department_ids, multi_dept_visible_ids, Visible, employee_of,
}
use ntu_cloud_native.Timestamp.{Timestamp}
use ntu_cloud_native.Schema.{UserAccount, Employee, AccessEvent, Database}
use Prim.Native.String.{String, ◌++◌ as ◌<>◌}
use ntu_cloud_native.Prelude.{
  string_eq, any, ◌==◌, keep, ◌||◌, some, take, [], length, none, map, ◌&&◌, false, ◌∷◌, true, min,
  Bool, leb, Option, ℕ, List, if◌then◌else◌,
}

-- What `serialize_access_event` writes; `consumedAt` is left out, and the timestamp stands for its ISO
-- text.
pub record EventItem : Type 0 where
  pub request_id : String
  pub employee_id : String
  pub display_name : Option String
  pub department_id : Option String
  pub gate_id : String
  pub direction : String
  pub decision : String
  pub reason : String
  pub previous_state : String
  pub current_state : String
  pub latency_ms : Integer
  pub remark : Option String
  pub timestamp : Timestamp

abbrev name_of : Option Employee → Option String
name_of none = none
name_of (some m) = m.display_name

abbrev department_id_of : Option Employee → Option String
department_id_of none = none
department_id_of (some m) = m.department_id

unfoldable pub serialize_access_event : Database → AccessEvent → EventItem
serialize_access_event db e = record {
  request_id = e.request_id;
  employee_id = e.employee_id;
  display_name = name_of (employee_of db e);
  department_id = department_id_of (employee_of db e);
  gate_id = e.gate_id;
  direction = e.direction;
  decision = e.decision;
  reason = e.reason;
  previous_state = e.previous_state;
  current_state = e.current_state;
  latency_ms = e.latency_ms;
  remark = e.remark;
  timestamp = e.occurred_at;
}

-- A part of a list: the rows from `offset` on, at most `limit`, with the count of all.
pub record Page (A : Type 0) : Type 0 where
  pub items : List A
  pub total : ℕ
  pub limit : ℕ
  pub offset : ℕ

-- The filters that `query_access_events` and the export take; an absent list of departments is an
-- empty one.
pub record EventFilter : Type 0 where
  pub employee_id : Option String
  pub department_id : Option String
  pub department_ids : List String
  pub decision : Option String
  pub direction : Option String
  pub reason : Option String
  pub from_time : Option Timestamp
  pub to_time : Option Timestamp
  pub q : Option String

-- `max(1, min(limit, most))`
unfoldable pub clamped : ℕ → ℕ → ℕ
clamped most limit = if leb (min limit most) 1 then 1 else min limit most

-- `if value: query.where(column == value)`
abbrev pub wanted : Option String → String → Bool
wanted none s = true
wanted (some value) s = is_empty value || s == value

-- `ORDER BY occurred_at DESC`. The database leaves the order of rows with one time open, from query to
-- query; here it is the table's.
abbrev later : AccessEvent → AccessEvent → Bool
later a b = leb b.occurred_at a.occurred_at

unfoldable pub newest_first : List AccessEvent → List AccessEvent
newest_first events = sort_by later events

-- `department_ids[0]`, unless it is empty, or `department_id`.
abbrev single_department : List String → Option String → Option String
single_department [] d = d
single_department (i ∷ ids) d = if is_empty i then d else some i

-- Without several departments, the one.
unfoldable pub departments_shown :
    ℕ → Database → Option UserAccount → List String → Option String → Option Visible
departments_shown fuel db user (i ∷ j ∷ ids) d = multi_dept_visible_ids fuel db user (i ∷ j ∷ ids)
departments_shown fuel db user ids d = visible_department_ids fuel db user (single_department ids d)

abbrev page_of : Database → List AccessEvent → ℕ → ℕ → Page EventItem
page_of db rows limit offset = record {
  items = map (serialize_access_event db) (page limit offset (newest_first rows));
  total = length rows;
  limit = limit;
  offset = offset;
}

-- The export takes neither a reason nor `department_id`.
abbrev pub for_export : EventFilter → EventFilter
for_export f = record {
  employee_id = f.employee_id;
  department_id = none;
  department_ids = f.department_ids;
  decision = f.decision;
  direction = f.direction;
  reason = none;
  from_time = f.from_time;
  to_time = f.to_time;
  q = f.q;
}

module _ (ilike : String → String → Bool) where
  abbrev pub maybe_ilike : Option String → String → Bool
  maybe_ilike none pattern_text = false
  maybe_ilike (some s) pattern_text = ilike s pattern_text

  abbrev pattern_of : String → String
  pattern_of q = "%" <> q <> "%"

  -- The three alternatives of the search text.
  unfoldable pub matches_text : Database → Option String → AccessEvent → Bool
  matches_text db none e = true
  matches_text db (some q) e =
      is_empty q
      || ilike e.employee_id (pattern_of q)
      || ilike e.gate_id (pattern_of q)
      || any (λ m. m.employee_id == e.employee_id && maybe_ilike m.display_name (pattern_of q))
          db.employees

  unfoldable pub passes : Database → EventFilter → AccessEvent → Bool
  unfolding matches_text
  passes db f e =
      wanted f.employee_id e.employee_id
      && wanted f.decision e.decision
      && wanted f.direction e.direction
      && wanted f.reason e.reason
      && matches_text db f.q e

  -- The rows of `query`, in both functions.
  unfoldable pub filtered_events :
      ℕ → Database → Option UserAccount → EventFilter → Option (List AccessEvent)
  unfolding departments_shown passes
  filtered_events fuel db user f = do
    visible ← departments_shown fuel db user f.department_ids f.department_id
    some (keep (passes db f) (scoped_events db user visible f.from_time f.to_time))

  -- `query_access_events`; an offset below 0 becomes 0.
  unfoldable pub query_access_events :
      ℕ → Database → Option UserAccount → EventFilter → ℕ → ℕ → Option (Page EventItem)
  unfolding filtered_events clamped newest_first page
  query_access_events fuel db user f limit offset = do
    rows ← filtered_events fuel db user f
    some (page_of db rows (clamped 200 limit) offset)

  -- `iter_access_events_for_export`, all that it yields.
  unfoldable pub export_access_events :
      ℕ → Database → Option UserAccount → EventFilter → Option (List EventItem)
  unfolding filtered_events newest_first
  export_access_events fuel db user f = do
    rows ← filtered_events fuel db user (for_export f)
    some (map (serialize_access_event db) (newest_first rows))

  -- `list_anomalies`
  unfoldable pub list_anomalies :
      ℕ
      → Database
      → Option UserAccount
      → Option Timestamp
      → Option Timestamp
      → Option String
      → ℕ
      → ℕ
      → Option (Page EventItem)
  unfolding query_access_events
  list_anomalies fuel db user from to d limit offset =
      query_access_events fuel db user
        (record {
          employee_id = none;
          department_id = d;
          department_ids = [];
          decision = some "DENIED";
          direction = none;
          reason = none;
          from_time = from;
          to_time = to;
          q = none;
        })
        limit offset

-- `list_recent_events`
unfoldable pub list_recent_events : Database → ℕ → List EventItem
unfolding clamped newest_first
list_recent_events db limit =
    map (serialize_access_event db) (take (clamped 200 limit) (newest_first db.events))
