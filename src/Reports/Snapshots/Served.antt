-- ===== src/Reports/Snapshots/Served.antt =====
-- What the requests to the report center of reporting-api/app/repositories.py get from the stored
-- reports: the same report again, and whose.
use ntu_cloud_native.Reports.Snapshots.Center.{
  for_preset, get_report_center, in_window, get_through_snapshots, compute_and_store,
}
use ntu_cloud_native.Reports.Snapshots.Answers.{
  for_preset-window, resolve_preset_window_today, store_and_answer-read, as_hit,
}
use ntu_cloud_native.Reports.Snapshots.Keys.{IsUnique}
use ntu_cloud_native.Reports.Presets.{normalize_preset, precompute_presets, resolve_preset_window}
use ntu_cloud_native.Reports.Snapshots.{can_use_shared, snapshot_lookup, compute_user}
use ntu_cloud_native.Permissions.Departments.{◌>>=◌, some-inj, bind-some}
use ntu_cloud_native.Result.{err-not-ok, ok-inj, err, Result, ok}
use ntu_cloud_native.Timestamp.{local_date, Timestamp}
use ntu_cloud_native.Reports.Snapshots.Requests.{
  alone, clamp_limit, uses_snapshots, ReportRequest, live_request, or_any_department,
  read_for_request, answer_found, LiveRequest, store_and_answer, attach_meta,
}
use ntu_cloud_native.Schema.{UserAccount, Database}
use ntu_cloud_native.Prelude.{
  contains, [], String, false, ◌∙◌, sym, refl, ap, string_eq, none, some, true, ◌≡◌, Bool, ℕ,
  Option, List,
}
use ntu_cloud_native.Reports.Snapshots.Store.{read, Lookup, Report, Snapshot}

module _ {A D : Type 0} (quoted sha256 : String → String)
    (compute_live : Database → LiveRequest → Option (Result (Report A D))) where
  pub compute_and_store-read :
      (fuel : ℕ) (db : Database) (now stored_at : Timestamp) (t : List (Snapshot A D))
      (user : Option UserAccount) (d : Option String) (l : Lookup) (from to : Timestamp) (limit : ℕ)
      (answer : Report A D) (t' : List (Snapshot A D))
      → IsUnique t
      → compute_and_store quoted sha256 compute_live fuel
          (alone db now stored_at t)
          user
          d
          l
          from
          to
          limit
        ≡ some (ok (answer, t'))
      → (s : Snapshot A D) × (read l t' ≡ some s) × (attach_meta s.payload s true ≡ as_hit answer)
  unfolding compute_and_store
  compute_and_store-read fuel db now stored_at t user d l from to limit answer t' u e =
      let (computing, _, k) =
        bind-some (compute_user fuel db user d)
          (λ computing.
            compute_live db (live_request computing (some from) (some to) none d [] limit false)
            >>= (λ report. some (store_and_answer (alone db now stored_at t) l report)))
          (ok (answer, t')) e in
      let (report, _, same) =
        bind-some
          (compute_live db (live_request computing (some from) (some to) none d [] limit false))
          (λ report. some (store_and_answer (alone db now stored_at t) l report)) (ok (answer, t'))
          k in
      store_and_answer-read l report db now stored_at t answer t' u (some-inj same)

  answer_found-again :
      (fuel : ℕ) (db : Database) (now stored_at : Timestamp) (t : List (Snapshot A D))
      (user : Option UserAccount) (d : Option String) (l : Lookup) (from to : Timestamp) (limit : ℕ)
      (shared : Bool) (found : Option (Snapshot A D)) (answer : Report A D)
      (t' : List (Snapshot A D))
      → IsUnique t
      → or_any_department l t shared (read l t) ≡ found
      → answer_found
          (alone db now stored_at t)
          (compute_and_store quoted sha256 compute_live fuel
            (alone db now stored_at t)
            user
            d
            l
            from
            to
            limit)
          found
        ≡ some (ok (answer, t'))
      → (s : Snapshot A D) × (or_any_department l t' shared (read l t') ≡ some s)
        × (attach_meta s.payload s true ≡ as_hit answer)
  unfolding answer_found attach_meta
  answer_found-again fuel db now stored_at t user d l from to limit shared none answer t' u h e =
      let (s, there, same) =
        compute_and_store-read fuel db now stored_at t user d l from to limit answer t' u e in
      (s, ap (λ o. or_any_department l t' shared o) there, same)
  answer_found-again fuel db now stored_at t user d l from to limit shared (some s) answer t' u h
        e =
      let same = ok-inj (some-inj e) in
      (
        s,
        ap (λ z. or_any_department l z.1 shared (read l z.1)) (sym same) ∙ h,
        ap (λ z. as_hit z.0) same,
      )

  -- A request that is answered through the stored reports is answered alike when it is repeated,
  -- also for another user with the same lookup.
  pub get_through_snapshots_again :
      (fuel : ℕ) (db : Database) (now stored_at now' stored_at' : Timestamp)
      (t : List (Snapshot A D)) (user other_user : Option UserAccount) (preset : String)
      (d : Option String) (limit : ℕ) (window : Timestamp × Timestamp) (answer : Report A D)
      (t' : List (Snapshot A D)) (other : Database → LiveRequest → Option (Result (Report A D)))
      → can_use_shared fuel db other_user d ≡ can_use_shared fuel db user d
      → snapshot_lookup quoted sha256 fuel db other_user preset d window.0 window.1 limit
        ≡ snapshot_lookup quoted sha256 fuel db user preset d window.0 window.1 limit
      → IsUnique t
      → get_through_snapshots quoted sha256 compute_live fuel
          (alone db now stored_at t)
          user
          preset
          d
          limit
          window
        ≡ some (ok (answer, t'))
      → get_through_snapshots quoted sha256 other fuel
          (alone db now' stored_at' t')
          other_user
          preset
          d
          limit
          window
        ≡ some (ok (as_hit answer, t'))
  unfolding get_through_snapshots read_for_request answer_found
  get_through_snapshots_again fuel db now stored_at now' stored_at' t user other_user preset d limit
        window answer t' other same_shared same_lookup u e =
      let w = alone db now stored_at t in
      let (l, e_l, k) =
        bind-some (snapshot_lookup quoted sha256 fuel db user preset d window.0 window.1 limit)
          (λ l. read_for_request fuel db user d l t >>= (λ found.
            answer_found w
              (compute_and_store quoted sha256 compute_live fuel w user d l window.0 window.1 limit)
              found))
          (ok (answer, t')) e in
      let (found, e_found, e_answer) =
        bind-some (read_for_request fuel db user d l t)
          (λ found.
            answer_found w
              (compute_and_store quoted sha256 compute_live fuel w user d l window.0 window.1 limit)
              found)
          (ok (answer, t')) k in
      let (shared, e_shared, same) =
        bind-some (can_use_shared fuel db user d)
          (λ shared. some (or_any_department l t shared (read l t))) found e_found in
      let (s, again, same_answer) =
        answer_found-again fuel db now stored_at t user d l window.0 window.1 limit shared found
          answer t' u (some-inj same) e_answer in
      rw (same_lookup ∙ e_l, same_shared ∙ e_shared, again, same_answer)

  in_window_again :
      (fuel : ℕ) (db : Database) (now stored_at now' stored_at' : Timestamp)
      (t : List (Snapshot A D)) (q : ReportRequest) (preset : String)
      (window : Result (Timestamp × Timestamp)) (answer : Report A D) (t' : List (Snapshot A D))
      (other : Database → LiveRequest → Option (Result (Report A D)))
      → uses_snapshots q ≡ true
      → IsUnique t
      → in_window quoted sha256 compute_live fuel (alone db now stored_at t) q preset window
        ≡ some (ok (answer, t'))
      → in_window quoted sha256 other fuel (alone db now' stored_at' t') q preset window
        ≡ some (ok (as_hit answer, t'))
  unfolding in_window
  in_window_again fuel db now stored_at now' stored_at' t q preset (err x) answer t' other uses u
        e =
      absurd (err-not-ok (some-inj e))
  in_window_again fuel db now stored_at now' stored_at' t q preset (ok window) answer t' other uses
        u e =
      rw uses (
        get_through_snapshots_again fuel db now stored_at now' stored_at' t q.current_user
          q.current_user preset q.department_id (clamp_limit q.limit) window answer t' other refl
          refl u (rw uses at e))

  -- A request for a preset through the stored reports that is repeated on the same date, with no other session writing to the table of stored reports, is answered with the same report with `hit` set, whatever would be computed by then, and the table stays as it is; this on the same users, scopes, departments, employees and events at both requests.
  pub get_report_center_again :
      (fuel : ℕ) (db : Database) (now stored_at now' stored_at' : Timestamp)
      (t : List (Snapshot A D)) (q : ReportRequest) (preset : String) (answer : Report A D)
      (t' : List (Snapshot A D)) (other : Database → LiveRequest → Option (Result (Report A D)))
      → uses_snapshots q ≡ true
      → normalize_preset q.range_preset ≡ some preset
      → contains precompute_presets preset ≡ true
      → local_date now' ≡ local_date now
      → IsUnique t
      → get_report_center quoted sha256 compute_live fuel (alone db now stored_at t) q
        ≡ some (ok (answer, t'))
      → get_report_center quoted sha256 other fuel (alone db now' stored_at' t') q
        ≡ some (ok (as_hit answer, t'))
  unfolding get_report_center
  get_report_center_again fuel db now stored_at now' stored_at' t q preset answer t' other uses
        named listed today u e =
      let same_window : resolve_preset_window preset now' ≡ resolve_preset_window preset now =
        resolve_preset_window_today preset now' now today in
      ap (for_preset quoted sha256 other fuel (alone db now' stored_at' t') q) named
      ∙ for_preset-window quoted sha256 other fuel (alone db now' stored_at' t') q preset listed
      ∙ ap (in_window quoted sha256 other fuel (alone db now' stored_at' t') q preset) same_window
      ∙ in_window_again fuel db now stored_at now' stored_at' t q preset
          (resolve_preset_window preset now) answer t' other uses u
          (sym (
              for_preset-window quoted sha256 compute_live fuel (alone db now stored_at t) q preset
                listed)
            ∙ sym
                (ap (for_preset quoted sha256 compute_live fuel (alone db now stored_at t) q) named)
            ∙ e)
