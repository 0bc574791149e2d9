-- ===== src/Reports/Snapshots/Store.antt =====
-- The table `report_center_snapshots`: its rows, how `_read_report_center_snapshot` and
-- `_read_any_department_snapshot` find one, and how `_store_report_center_snapshot` of
-- reporting-api/app/repositories.py writes one.
use ntu_cloud_native.Timestamp.{Timestamp}
use ntu_cloud_native.Prelude.{
  nat_eq, eqb, string_eq, leb, [], some, ◌&&◌, ◌++◌, if◌then◌else◌, ◌∷◌, ◌==◌, ℕ, none, Option,
  Bool, String, List,
}

-- What the code hands around as `lookup`: the columns that a row is found by, the owner, and the
-- text behind the digest.

pub record Lookup : Type 0 where
  pub cache_user_key : String
  pub user_id : Option ℕ
  pub range_preset : String
  pub target_type : String
  pub target_id : String
  pub scope_hash : String
  pub scope_key : String
  pub period_from : Timestamp
  pub period_to : Timestamp
  pub preview_limit : ℕ

-- The part `snapshot` of an answer; the times stand for their ISO texts.
pub record Meta : Type 0 where
  pub hit : Bool
  pub generated_at : Timestamp
  pub period_from : Timestamp
  pub period_to : Timestamp
  pub range_preset : String
  pub target_type : String
  pub target_id : String

-- A report: the list `topDepartments`, the part `snapshot`, and all other parts.
pub record Report (A D : Type 0) : Type 0 where
  pub parts : A
  pub top_departments : List D
  pub snapshot : Option Meta

-- A row: the columns that `**lookup` fills, and the others.
pub record Snapshot (A D : Type 0) : Type 0 where
  pub lookup : Lookup
  pub payload : Report A D
  pub generated_at : Timestamp
  pub updated_at : Timestamp

-- `_snapshot_filters`
unfoldable pub is_for : Lookup → Lookup → Bool
is_for l row =
    row.cache_user_key == l.cache_user_key
    && row.range_preset == l.range_preset
    && row.target_type == l.target_type
    && row.target_id == l.target_id
    && row.scope_hash == l.scope_hash
    && eqb row.period_from l.period_from
    && eqb row.period_to l.period_to
    && row.preview_limit == l.preview_limit

unfoldable pub is_for_department : Lookup → Lookup → Bool
is_for_department l row =
    row.range_preset == l.range_preset
    && row.target_type == l.target_type
    && row.target_id == l.target_id
    && eqb row.period_from l.period_from
    && eqb row.period_to l.period_to
    && row.preview_limit == l.preview_limit

module _ {A D : Type 0} where
  unfoldable pub newer : Snapshot A D → Option (Snapshot A D) → Snapshot A D
  newer s none = s
  newer s (some t) = if leb t.generated_at s.generated_at then s else t

  -- `ORDER BY generated_at DESC LIMIT 1` of the rows that pass: the first of the newest.
  unfoldable pub latest : (Lookup → Bool) → List (Snapshot A D) → Option (Snapshot A D)
  unfolding newer
  latest p [] = none
  latest p (s ∷ rows) = let rest = latest p rows in if p s.lookup then some (newer s rest) else rest

  -- `_read_report_center_snapshot`
  unfoldable pub read : Lookup → List (Snapshot A D) → Option (Snapshot A D)
  read l rows = latest (is_for l) rows

  -- `_read_any_department_snapshot`
  unfoldable pub read_any_department : Lookup → List (Snapshot A D) → Option (Snapshot A D)
  read_any_department l rows =
      if l.target_id == "ALL" then none else latest (is_for_department l) rows

  abbrev pub without_snapshot : Report A D → Report A D
  without_snapshot r = record {
    parts = r.parts;
    top_departments = r.top_departments;
    snapshot = none;
  }

  -- The four assignments to the row that was read.
  unfoldable pub refreshed : Lookup → Report A D → Timestamp → Snapshot A D → Snapshot A D
  refreshed l payload now s = record {
    lookup = record {
      cache_user_key = s.lookup.cache_user_key;
      user_id = s.lookup.user_id;
      range_preset = s.lookup.range_preset;
      target_type = s.lookup.target_type;
      target_id = s.lookup.target_id;
      scope_hash = s.lookup.scope_hash;
      scope_key = l.scope_key;
      period_from = s.lookup.period_from;
      period_to = s.lookup.period_to;
      preview_limit = s.lookup.preview_limit;
    };
    payload = payload;
    generated_at = now;
    updated_at = now;
  }

  -- The UPDATE of the row that was read, which the table's unique key finds.
  unfoldable pub update_row :
      Lookup → Report A D → Timestamp → List (Snapshot A D) → List (Snapshot A D)
  unfolding refreshed is_for
  update_row l payload now [] = []
  update_row l payload now (s ∷ rows) =
      let rest = update_row l payload now rows in
      if is_for l s.lookup then refreshed l payload now s ∷ rest else s ∷ rest

  abbrev pub new_row : Lookup → Report A D → Timestamp → Snapshot A D
  new_row l payload now = record {
    lookup = l;
    payload = payload;
    generated_at = now;
    updated_at = now;
  }

  unfoldable pub commit_found :
      Lookup
      → Report A D
      → Timestamp
      → List (Snapshot A D)
      → Option (Snapshot A D)
      → Snapshot A D × List (Snapshot A D)
  unfolding update_row
  commit_found l payload now rows none = (new_row l payload now, rows ++ new_row l payload now ∷ [])
  commit_found l payload now rows (some s) =
      (refreshed l payload now s, update_row l payload now rows)

  -- The commit of an INSERT, on the table as it is then: the unique constraint
  -- `uq_report_center_snapshots_lookup` refuses a second row with the same key, and the row that is
  -- there is updated in place of the new one.
  unfoldable pub commit_row :
      Lookup → Report A D → Timestamp → List (Snapshot A D) → Snapshot A D × List (Snapshot A D)
  unfolding read commit_found
  commit_row l payload now rows = commit_found l payload now rows (read l rows)

  unfoldable pub store_found :
      Lookup
      → Report A D
      → Timestamp
      → List (Snapshot A D)
      → Option (Snapshot A D)
      → Snapshot A D × List (Snapshot A D)
  unfolding update_row commit_row
  store_found l payload now rows none = commit_row l payload now rows
  store_found l payload now rows (some s) =
      (refreshed l payload now s, update_row l payload now rows)

  -- `_store_report_center_snapshot`: `seen` is the table at the first read, `rows` the table at the
  -- commit, which has what other sessions committed meanwhile.
  unfoldable pub store :
      Lookup
      → Report A D
      → Timestamp
      → (seen rows : List (Snapshot A D)) → Snapshot A D × List (Snapshot A D)
  unfolding read store_found
  store l payload now seen rows = store_found l (without_snapshot payload) now rows (read l seen)
