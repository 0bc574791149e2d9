-- ===== src/Reports/Snapshots/Answers.antt =====
-- The answers with a report that was stored, of reporting-api/app/repositories.py: the first one, and
-- those with the part `hit` set.
use ntu_cloud_native.Reports.Snapshots.Center.{in_window, for_preset}
use ntu_cloud_native.Reports.Snapshots.Rows.{latest-is_for}
use ntu_cloud_native.Reports.Snapshots.Keys.{is_for_refl, IsUnique}
use ntu_cloud_native.Reports.Snapshots.Table.{read-store, IsStored}
use ntu_cloud_native.Schema.{Database}
use ntu_cloud_native.Result.{err-not-ok, err, ok-inj, ok, Result}
use ntu_cloud_native.Timestamp.{local_date, Timestamp}
use ntu_cloud_native.Reports.Presets.{
  precompute_presets, preset_from_date, window_of, resolve_preset_window,
}
use ntu_cloud_native.Reports.Snapshots.Requests.{
  ReportRequest, Surroundings, alone, LiveRequest, store_and_answer, attach_meta,
}
use ntu_cloud_native.Reports.Snapshots.Store.{
  without_snapshot, new_row, read, Snapshot, store, commit_row, refreshed, is_for, Meta, Lookup,
  store_found, commit_found, Report,
}
use ntu_cloud_native.Prelude.{
  false, ◌∙◌, sym, string_eq, contains, arith, refl, eq_of_==, none, ℕ, ap, some, true, ◌≡◌, Bool,
  String, Option, List,
}

abbrev pub as_hit_meta : Option Meta → Option Meta
as_hit_meta none = none
as_hit_meta (some m) = some (record {
  hit = true;
  generated_at = m.generated_at;
  period_from = m.period_from;
  period_to = m.period_to;
  range_preset = m.range_preset;
  target_type = m.target_type;
  target_id = m.target_id;
})

-- The report with `hit` set.
abbrev pub as_hit : {A D : Type 0} → Report A D → Report A D
as_hit r = record {
  parts = r.parts;
  top_departments = r.top_departments;
  snapshot = as_hit_meta r.snapshot;
}

pub attach_meta-is_for :
    {A D : Type 0} (l : Lookup) (payload other : Report A D) (s : Snapshot A D) (now : Timestamp)
    (hit : Bool)
    → is_for l s.lookup ≡ true
    → s.generated_at ≡ now
    → payload.parts ≡ other.parts
    → attach_meta payload s hit ≡ attach_meta other (new_row l other now) hit
unfolding attach_meta is_for
attach_meta-is_for l payload other s now hit h at same =
    let p1 : s.lookup.range_preset ≡ l.range_preset =
      eq_of_== s.lookup.range_preset l.range_preset (ground arith) in
    let p2 : s.lookup.target_type ≡ l.target_type =
      eq_of_== s.lookup.target_type l.target_type (ground arith) in
    let p3 : s.lookup.target_id ≡ l.target_id =
      eq_of_== s.lookup.target_id l.target_id (ground arith) in
    let p4 : s.lookup.period_from ≡ l.period_from = ground arith in
    let p5 : s.lookup.period_to ≡ l.period_to = ground arith in rw (at, same, p1, p2, p3, p4, p5)

pub commit_found-first :
    {A D : Type 0} (l : Lookup) (payload : Report A D) (now : Timestamp)
    (rows : List (Snapshot A D)) (o : Option (Snapshot A D))
    → ((s : Snapshot A D) → o ≡ some s → is_for l s.lookup ≡ true)
    → (is_for l (commit_found l payload now rows o).0.lookup ≡ true)
      × ((commit_found l payload now rows o).0.generated_at ≡ now)
unfolding commit_found refreshed is_for read
commit_found-first l payload now rows none h = (is_for_refl l, refl)
commit_found-first l payload now rows (some s) h = (h s refl, refl)

pub store_found-first :
    {A D : Type 0} (l : Lookup) (payload : Report A D) (now : Timestamp)
    (rows : List (Snapshot A D)) (o : Option (Snapshot A D))
    → ((s : Snapshot A D) → o ≡ some s → is_for l s.lookup ≡ true)
    → (is_for l (store_found l payload now rows o).0.lookup ≡ true)
      × ((store_found l payload now rows o).0.generated_at ≡ now)
unfolding store_found commit_row refreshed is_for read
store_found-first l payload now rows none h =
    commit_found-first l payload now rows (read l rows)
      (λ s e. latest-is_for l payload now rows s e)
store_found-first l payload now rows (some s) h = (h s refl, refl)

pub IsStored-some :
    {A D : Type 0} (l : Lookup) (payload : Report A D) (now : Timestamp) (o : Option (Snapshot A D))
    → IsStored l payload now o
    → (s : Snapshot A D) × (o ≡ some s) × IsStored l payload now (some s)
IsStored-some l payload now none h = absurd h
IsStored-some l payload now (some s) h = (s, refl, h)

-- After a report is stored, its lookup reads it, and the answer with it is the first one with `hit`
-- set.
pub stored-read :
    {A D : Type 0} (l : Lookup) (report : Report A D) (db : Database) (now stored_at : Timestamp)
    (t : List (Snapshot A D)) (answer : Report A D) (t' : List (Snapshot A D))
    → IsUnique t
    → store_and_answer (alone db now stored_at t) l (ok report) ≡ ok (answer, t')
    → (s : Snapshot A D) × (read l t' ≡ some s) × (attach_meta s.payload s true ≡ as_hit answer)
unfolding store_and_answer store read attach_meta
stored-read l report db now stored_at t answer t' u e =
    let stored = store l report stored_at t t in
    let same = ok-inj e in
    let first =
      store_found-first l (without_snapshot report) stored_at t (read l t)
        (λ s h. latest-is_for l report stored_at t s h) in
    let (s, there, is_stored) =
      IsStored-some l (without_snapshot report) stored_at (read l stored.1)
        ((read-store l report stored_at t t u (λ h. h)).0) in
    (
      s,
      ap (λ z. read l z.1) (sym same) ∙ there,
      attach_meta-is_for l s.payload report s stored_at true is_stored.0 is_stored.2
            (ap (λ z. z.parts) is_stored.1)
          ∙ sym (
              ap as_hit
                (attach_meta-is_for l report report stored.0 stored_at false first.0 first.1 refl))
          ∙ ap (λ z. as_hit z.0) same,
    )

pub store_and_answer-read :
    {A D : Type 0} (l : Lookup) (computed : Result (Report A D)) (db : Database)
    (now stored_at : Timestamp) (t : List (Snapshot A D)) (answer : Report A D)
    (t' : List (Snapshot A D))
    → IsUnique t
    → store_and_answer (alone db now stored_at t) l computed ≡ ok (answer, t')
    → (s : Snapshot A D) × (read l t' ≡ some s) × (attach_meta s.payload s true ≡ as_hit answer)
unfolding store_and_answer
store_and_answer-read l (err e) db now stored_at t answer t' u h = absurd (err-not-ok h)
store_and_answer-read l (ok report) db now stored_at t answer t' u h =
    stored-read l report db now stored_at t answer t' u h

pub resolve_preset_window_today :
    (preset : String) (now' now : Timestamp)
    → local_date now' ≡ local_date now
    → resolve_preset_window preset now' ≡ resolve_preset_window preset now
unfolding resolve_preset_window
resolve_preset_window_today preset now' now h =
    ap (λ today. window_of (preset_from_date preset today) today) h

pub for_preset-window :
    {A D : Type 0} (quoted sha256 : String → String)
    (compute_live : Database → LiveRequest → Option (Result (Report A D))) (fuel : ℕ)
    (w : Surroundings A D) (q : ReportRequest) (preset : String)
    → contains precompute_presets preset ≡ true
    → for_preset quoted sha256 compute_live fuel w q (some preset)
      ≡ in_window quoted sha256 compute_live fuel w q preset (resolve_preset_window preset w.now)
unfolding for_preset
for_preset-window quoted sha256 compute_live fuel w q preset h = rw h
