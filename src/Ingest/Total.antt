-- ===== src/Ingest/Total.antt =====
-- `save_access_event` of reporting-api/app/repositories.py raises for no event that fits the tables.
use ntu_cloud_native.Prelude.{
  false≢true, ap, Option-cases, and_left, String, true, Option, none, some, [], ◌∷◌, ◌++◌, ◌≡◌,
  refl, arith, any-append, is_some-find, Bool-cases, inl, inr, ◌==◌, string_eq, ==_refl,
}
use ntu_cloud_native.Result.{Ensures, Result, ok, err, ◌>>=◌, is_ok}
use ntu_cloud_native.Schema.{AccessEvent, Database, event_is_accepted, employee_is_accepted}
use ntu_cloud_native.Ingest.Parse.{Payload, Runtime}
use ntu_cloud_native.Ingest.Tables.{
  get_employee, has_department, set_last_known, default_department_id,
}
use ntu_cloud_native.Ingest.Invariant.{has_employee-set_last_known}
use ntu_cloud_native.Ingest.{
  unassigned, Staged, new_employee, commit, stage, finish, save_access_event,
}
use ntu_cloud_native.Ingest.Save.{Describes, IsStagedFor, WhatIsStaged, stage-WhatIsStaged}

module _ (skip : String) (rt : Runtime) (p : Payload) (e : AccessEvent) (d : Describes rt p e)
    (fits : event_is_accepted e ≡ true) where
  stage_total : (db : Database) → is_ok (stage skip rt p db) ≡ true
  unfolding stage
  stage_total db = ground (arith, d.occurred_at)

  -- The new row of the employee fits its table if the event fits its own.
  employee_fits :
      (s : Staged)
      → s.employee_id ≡ e.employee_id
      → s.state ≡ e.current_state
      → employee_is_accepted (new_employee s) ≡ true
  unfolding event_is_accepted employee_is_accepted
  employee_fits s i c = rw (i, c) (and_left _ _ fits)

  event_fits : (e' : AccessEvent) → Describes rt p e' → event_is_accepted e' ≡ true
  unfolding event_is_accepted
  event_fits e' d' = ground arith

  commit_total :
      (db : Database) (s : Staged) → IsStagedFor skip rt p db s → is_ok (commit s db) ≡ true
  unfolding commit
  commit_total db s h =
      let row = s.event db.next_event_id in
      let fresh = h.new_request db.next_event_id in
      let good = event_fits row (h.describes db.next_event_id) in
      let same = h.same_employee db.next_event_id in
      let small =
        employee_fits s (cc (same, (h.describes db.next_event_id).employee_id, d.employee_id)) (
          cc (
            h.same_state db.next_event_id,
            (h.describes db.next_event_id).current_state,
            d.current_state,
          )) in
      elim (Option-cases (get_employee s.employee_id db.employees)) [
        | inl new ↦ elim (Bool-cases (has_department default_department_id db.departments)) [
          | inl there ↦ ground (
            arith,
            h.adds,
            h.adds_default,
            new,
            there,
            fresh,
            good,
            small,
            same,
            is_some-find (λ m. m.employee_id == s.employee_id)
                (db.employees ++ new_employee s ∷ []),
            any-append (λ m. m.employee_id == s.employee_id) db.employees (new_employee s ∷ []),
            ==_refl s.employee_id,
            ap (λ k. get_employee k (db.employees ++ new_employee s ∷ [])) same,
          )
          | inr absent ↦ ground (
            arith,
            h.adds,
            h.adds_default,
            new,
            absent,
            fresh,
            good,
            small,
            same,
            any-append (λ x. x.department_id == default_department_id) db.departments
                (unassigned ∷ []),
            is_some-find (λ m. m.employee_id == s.employee_id)
                (db.employees ++ new_employee s ∷ []),
            any-append (λ m. m.employee_id == s.employee_id) db.employees (new_employee s ∷ []),
            ==_refl s.employee_id,
            ap (λ k. get_employee k (db.employees ++ new_employee s ∷ [])) same,
          )
        ]
        | inr (m, old) ↦ ground (
          arith,
          h.adds,
          h.adds_default,
          old,
          fresh,
          good,
          same,
          is_some-find (λ x. x.employee_id == s.employee_id) db.employees,
          is_some-find (λ x. x.employee_id == s.employee_id)
              (set_last_known s.employee_id s.state (some s.seen_at) db.employees),
          has_employee-set_last_known s.employee_id s.state (some s.seen_at) db.employees
              s.employee_id,
          ap
              (λ k.
                get_employee k (set_last_known s.employee_id s.state (some s.seen_at) db.employees))
              same,
        )
      ]

  finish_total :
      (db : Database) (o : Option Staged) → WhatIsStaged skip rt p db o → is_ok (finish o db) ≡ true
  unfolding finish
  finish_total db none h = refl
  finish_total db (some s) h = ground (arith, commit_total db s h)

  is_ok_bind :
      (db : Database) (m : Result (Option Staged))
      → is_ok m ≡ true
      → Ensures (WhatIsStaged skip rt p db) m
      → is_ok (m >>= λ o. finish o db) ≡ true
  is_ok_bind db (ok o) h w = finish_total db o w
  is_ok_bind db (err x) h w = absurd (false≢true h)

  -- A payload that describes an event which fits the tables is saved or declined in every database
  -- that answers and to which no other session commits during the call; it never raises.
  pub save_access_event_total : (db : Database) → is_ok (save_access_event skip rt p db) ≡ true
  unfolding save_access_event
  save_access_event_total db =
      is_ok_bind db (stage skip rt p db) (stage_total db) (stage-WhatIsStaged skip rt p db)
