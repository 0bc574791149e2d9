-- ===== src/Ingest/Save.antt =====
-- What `save_access_event` stores, when it answers False, and what a redelivery does.
use ntu_cloud_native.Prelude.{
  any, ◌&&◌, not, sym, ==_of_ne, is_some-find, ◌≢◌, ap, ==_refl, ◌∙◌, ℕ, suc, String, Bool, true,
  false, ◌||◌, Option, none, some, [], ◌∷◌, ◌++◌, ◌≡◌, refl, arith, is_none, ◌==◌, string_eq,
  Bool-cases, inl, inr,
}
use ntu_cloud_native.Result.{
  Ensures-guard, Result, ok, err, ◌>>=◌, Ensures, Ensures-bind, Ensures-ok,
}
use ntu_cloud_native.Schema.{AccessEvent, Database}
use ntu_cloud_native.Ingest.Parse.{
  Payload, Runtime, text_at, number_at, remark_at, parse_event_timestamp,
}
use ntu_cloud_native.Ingest.Tables.{
  get_employee-set_last_known, seen_row-none, get_employee-append_new, seen_row,
  get_employee-set_last_known_ne, sighting-set_last_known, get_employee-append_ne,
  sighting-append_new, sighting, has_request, get_employee,
}
use ntu_cloud_native.Ingest.Invariant.{has_employee-set_last_known, IsValid, commit-IsValid}
use ntu_cloud_native.Ingest.{
  set_last_known, event_is_accepted, not, write_event, new_employee, employee_is_accepted,
  default_department_id, has_department, integrity_error, is_some, write_employee, add_department,
  Staged, stage, commit, finish, save_access_event, after_save, is_skipped_loadtest_event,
}

-- The event holds what the payload says, field by field.
pub record Describes (rt : Runtime) (p : Payload) (e : AccessEvent) : Type 0 where
  pub request_id : text_at rt p "requestId" ≡ ok e.request_id
  pub employee_id : text_at rt p "employeeId" ≡ ok e.employee_id
  pub gate_id : text_at rt p "gateId" ≡ ok e.gate_id
  pub direction : text_at rt p "direction" ≡ ok e.direction
  pub decision : text_at rt p "decision" ≡ ok e.decision
  pub reason : text_at rt p "reason" ≡ ok e.reason
  pub previous_state : text_at rt p "previousState" ≡ ok e.previous_state
  pub current_state : text_at rt p "currentState" ≡ ok e.current_state
  pub latency_ms : number_at rt p "latencyMs" ≡ ok e.latency_ms
  pub remark : remark_at rt p ≡ ok e.remark
  pub occurred_at : (text_at rt p "timestamp" >>= parse_event_timestamp rt) ≡ ok e.occurred_at

pub record IsStagedFor (skip : String) (rt : Runtime) (p : Payload) (db : Database) (s : Staged)
    : Type 0 where
  pub numbers : (n : ℕ) → (s.event n).id ≡ n
  pub describes : (n : ℕ) → Describes rt p (s.event n)
  pub keeps_skip : is_skipped_loadtest_event skip s.employee_id ≡ false
  pub same_employee : (n : ℕ) → (s.event n).employee_id ≡ s.employee_id
  pub same_state : (n : ℕ) → (s.event n).current_state ≡ s.state
  pub same_time : (n : ℕ) → (s.event n).occurred_at ≡ s.seen_at
  pub adds : s.adds_employee ≡ is_none (get_employee s.employee_id db.employees)
  pub adds_default :
      s.adds_department
      ≡ (s.adds_employee && not (has_department default_department_id db.departments))
  pub new_request : (n : ℕ) → has_request (s.event n).request_id db.events ≡ false

-- The store needs no further delivery of the event: it leaves the employee's events out, or it has
-- an event with the request id.
abbrev pub is_settled : String → Runtime → Payload → Database → Bool
is_settled skip rt p db = elim (text_at rt p "employeeId") [
  | err e ↦ false
  | ok k ↦
      is_skipped_loadtest_event skip k
      || elim (text_at rt p "requestId") [ err e ↦ false | ok r ↦ has_request r db.events ]
]

abbrev pub WhatIsStaged : String → Runtime → Payload → Database → Option Staged → Type 0
WhatIsStaged skip rt p db none = is_settled skip rt p db ≡ true
WhatIsStaged skip rt p db (some s) = IsStagedFor skip rt p db s

pub stage-WhatIsStaged :
    (skip : String) (rt : Runtime) (p : Payload) (db : Database)
    → Ensures (WhatIsStaged skip rt p db) (stage skip rt p db)
unfolding stage
stage-WhatIsStaged skip rt p db = ground arith

-- What a commit of `s` did to the tables.
pub record CommitWrites (s : Staged) (db db' : Database) : Type 0 where
  pub events : db'.events ≡ db.events ++ s.event db.next_event_id ∷ []
  pub fresh : has_request (s.event db.next_event_id).request_id db.events ≡ false
  pub seen : sighting s.employee_id db'.employees ≡ some (s.state, some s.seen_at)
  pub row :
      get_employee s.employee_id db'.employees
      ≡ some (seen_row s.employee_id s.state s.seen_at (get_employee s.employee_id db.employees))
  pub others :
      (j : String)
      → (s.employee_id == j) ≡ false
      → get_employee j db'.employees ≡ get_employee j db.employees
  pub users : db'.users ≡ db.users
  pub scopes : db'.scopes ≡ db.scopes

record SameBut (db db' : Database) : Type 0 where
  events : db'.events ≡ db.events
  next : db'.next_event_id ≡ db.next_event_id
  users : db'.users ≡ db.users
  scopes : db'.scopes ≡ db.scopes

add_department-SameBut :
    (b : Bool) (db : Database)
    → Ensures (λ db'. SameBut db db' × (db'.employees ≡ db.employees)) (add_department b db)
unfolding add_department
add_department-SameBut true db = ground arith
add_department-SameBut false db = ground arith

write_employee-SameBut :
    (s : Staged) (db : Database)
    → Ensures
        (λ db'.
          SameBut db db'
          × (is_some (get_employee s.employee_id db'.employees) ≡ true
              → (sighting s.employee_id db'.employees ≡ some (s.state, some s.seen_at))
                × (get_employee s.employee_id db'.employees
                    ≡ some (
                        seen_row s.employee_id s.state s.seen_at
                          (get_employee s.employee_id db.employees))))
          × ((j : String)
              → (s.employee_id == j) ≡ false
              → get_employee j db'.employees ≡ get_employee j db.employees))
        (write_employee s db)
unfolding write_employee
write_employee-SameBut s db = elim (Bool-cases s.adds_employee) [
  | inl new ↦ rw new (
      Ensures-guard _ (is_none (get_employee s.employee_id db.employees)) integrity_error _ λ fresh.
        Ensures-guard _ (has_department default_department_id db.departments) integrity_error _
          λ there.
            Ensures-guard _ (employee_is_accepted (new_employee s)) integrity_error
              (ok (record db { employees = db.employees ++ new_employee s ∷ [] }))
              λ _. (
                record { events = refl; next = refl; users = refl; scopes = refl },
                λ _. (
                  sighting-append_new s.employee_id (new_employee s) db.employees fresh
                      (==_refl s.employee_id),
                  get_employee-append_new s.employee_id (new_employee s) db.employees fresh
                        (==_refl s.employee_id)
                      ∙ ap some (
                          sym (
                            seen_row-none s.employee_id s.state s.seen_at
                              (get_employee s.employee_id db.employees) fresh)),
                ),
                λ j ne. get_employee-append_ne j (new_employee s) db.employees ne,
              ))
  | inr old ↦ rw old (
    record { events = refl; next = refl; users = refl; scopes = refl },
    λ there.
        let known : any (λ m. m.employee_id == s.employee_id) db.employees ≡ true = ground (
          arith,
          is_some-find (λ m. m.employee_id == s.employee_id)
              (set_last_known s.employee_id s.state (some s.seen_at) db.employees),
          has_employee-set_last_known s.employee_id s.state (some s.seen_at) db.employees
              s.employee_id,
        ) in
        (
          sighting-set_last_known s.employee_id s.state (some s.seen_at) db.employees known,
          get_employee-set_last_known s.employee_id s.state s.seen_at db.employees known,
        ),
    λ j ne. get_employee-set_last_known_ne s.employee_id s.state (some s.seen_at) j db.employees ne,
  )
]

write_event-CommitWrites :
    (s : Staged) (db db₁ db₂ : Database)
    → ((n : ℕ) → (s.event n).employee_id ≡ s.employee_id)
    → SameBut db db₁
    → db₁.employees ≡ db.employees
    → SameBut db₁ db₂
    → (is_some (get_employee s.employee_id db₂.employees) ≡ true
        → (sighting s.employee_id db₂.employees ≡ some (s.state, some s.seen_at))
          × (get_employee s.employee_id db₂.employees
              ≡ some (
                  seen_row s.employee_id s.state s.seen_at
                    (get_employee s.employee_id db₁.employees))))
    → ((j : String)
        → (s.employee_id == j) ≡ false
        → get_employee j db₂.employees ≡ get_employee j db₁.employees)
    → Ensures (CommitWrites s db) (write_event s.event db₂)
unfolding write_event
write_event-CommitWrites s db db₁ db₂ same k₁ m₁ k₂ seen others =
    let row = s.event db₂.next_event_id in
    let next : db₂.next_event_id ≡ db.next_event_id = k₂.next ∙ k₁.next in
    let old : db₂.events ≡ db.events = k₂.events ∙ k₁.events in
    Ensures-guard (CommitWrites s db) (not (has_request row.request_id db₂.events)) integrity_error
      _
      λ fresh.
        Ensures-guard (CommitWrites s db) (is_some (get_employee row.employee_id db₂.employees))
          integrity_error _
          λ there.
            Ensures-guard (CommitWrites s db) (event_is_accepted row) integrity_error
              (ok (record db₂ {
                events = db₂.events ++ row ∷ [];
                next_event_id = suc db₂.next_event_id;
              }))
              λ good. record {
                events = cc (next, old);
                fresh = rw (← next, ← old) (ground arith);
                seen = (seen (rw (same db₂.next_event_id) at there)).0;
                row =
                    (seen (rw (same db₂.next_event_id) at there)).1
                    ∙ ap
                        (λ ms. some (
                          seen_row s.employee_id s.state s.seen_at (get_employee s.employee_id ms)))
                        m₁;
                others = λ j ne. others j ne ∙ ap (get_employee j) m₁;
                users = k₂.users ∙ k₁.users;
                scopes = k₂.scopes ∙ k₁.scopes;
              }

pub commit-CommitWrites :
    (s : Staged) (db : Database)
    → ((n : ℕ) → (s.event n).employee_id ≡ s.employee_id)
    → Ensures (CommitWrites s db) (commit s db)
unfolding commit
commit-CommitWrites s db same =
    Ensures-bind _ (CommitWrites s db) (add_department s.adds_department db) _
      (add_department-SameBut s.adds_department db)
      λ db₁ (k₁, m₁).
        Ensures-bind _ (CommitWrites s db) (write_employee s db₁) _ (write_employee-SameBut s db₁)
          λ db₂ (k₂, seen, others). write_event-CommitWrites s db db₁ db₂ same k₁ m₁ k₂ seen others

-- What a call that answered True stored.
pub record Inserts (skip : String) (rt : Runtime) (p : Payload) (db db' : Database) : Type 0 where
  pub event : AccessEvent
  pub describes : Describes rt p event
  pub appended : db'.events ≡ db.events ++ event ∷ []
  pub fresh : has_request event.request_id db.events ≡ false
  pub counted : is_skipped_loadtest_event skip event.employee_id ≡ false
  pub seen :
      sighting event.employee_id db'.employees ≡ some (event.current_state, some event.occurred_at)
  -- The employee's row, made from the one before: an unknown employee gets the default department,
  -- a known one keeps all but the state and the time.
  pub row :
      get_employee event.employee_id db'.employees
      ≡ some (
          seen_row event.employee_id event.current_state event.occurred_at
            (get_employee event.employee_id db.employees))
  pub others :
      (j : String)
      → j ≢ event.employee_id
      → get_employee j db'.employees ≡ get_employee j db.employees
  pub users : db'.users ≡ db.users
  pub scopes : db'.scopes ≡ db.scopes

Inserts-of :
    (skip : String) (rt : Runtime) (p : Payload) (db db' : Database) (s : Staged)
    → IsStagedFor skip rt p db s
    → CommitWrites s db db'
    → Inserts skip rt p db db'
Inserts-of skip rt p db db' s staged w =
    let n = db.next_event_id in
    record {
      event = s.event n;
      describes = staged.describes n;
      appended = w.events;
      fresh = w.fresh;
      counted = rw (staged.same_employee n) staged.keeps_skip;
      seen = rw (staged.same_employee n, staged.same_state n, staged.same_time n) w.seen;
      row = rw (staged.same_employee n, staged.same_state n, staged.same_time n) w.row;
      others = λ j ne.
          w.others j (==_of_ne s.employee_id j (λ e. ne (sym e ∙ sym (staged.same_employee n))));
      users = w.users;
      scopes = w.scopes;
    }

-- The outcome of a save: True with the event inserted, False with nothing changed.
abbrev WhatIsSaved : String → Runtime → Payload → Database → Bool × Database → Type 0
WhatIsSaved skip rt p db (true, db') = Inserts skip rt p db db'
WhatIsSaved skip rt p db (false, db') = (db' ≡ db) × (is_settled skip rt p db ≡ true)

finish-WhatIsSaved :
    (skip : String) (rt : Runtime) (p : Payload) (db : Database) (o : Option Staged)
    → WhatIsStaged skip rt p db o
    → Ensures (WhatIsSaved skip rt p db) (finish o db)
unfolding finish
finish-WhatIsSaved skip rt p db none h = (refl, h)
finish-WhatIsSaved skip rt p db (some s) h =
    Ensures-bind (CommitWrites s db) (WhatIsSaved skip rt p db) (commit s db) _
      (commit-CommitWrites s db h.same_employee) λ db' w. Inserts-of skip rt p db db' s h w

save_access_event-WhatIsSaved :
    (skip : String) (rt : Runtime) (p : Payload) (db : Database)
    → Ensures (WhatIsSaved skip rt p db) (save_access_event skip rt p db)
unfolding save_access_event
save_access_event-WhatIsSaved skip rt p db =
    Ensures-bind (WhatIsStaged skip rt p db) (WhatIsSaved skip rt p db) (stage skip rt p db) _
      (stage-WhatIsStaged skip rt p db) (finish-WhatIsSaved skip rt p db)

-- A save that answers True appended exactly one event, which holds the payload field by field and
-- whose request id no stored event had; its employee is no load-test employee and was last seen in
-- its current state at its time, in the row there was before, or in a new one without a name or a
-- manager and in the default department; the row of every other employee, the accounts and their
-- scopes are as before.
pub save_access_event-Inserts :
    (skip : String) (rt : Runtime) (p : Payload) (db db' : Database)
    → save_access_event skip rt p db ≡ ok (true, db')
    → Inserts skip rt p db db'
save_access_event-Inserts skip rt p db db' e =
    Ensures-ok (WhatIsSaved skip rt p db) (save_access_event skip rt p db)
      (save_access_event-WhatIsSaved skip rt p db) e

-- A save that answers False left the database as it was, and the event needed no saving: its
-- employee is a load-test employee, or its request id is stored.
pub save_access_event_declines :
    (skip : String) (rt : Runtime) (p : Payload) (db db' : Database)
    → save_access_event skip rt p db ≡ ok (false, db')
    → (db' ≡ db) × (is_settled skip rt p db ≡ true)
save_access_event_declines skip rt p db db' e =
    Ensures-ok (WhatIsSaved skip rt p db) (save_access_event skip rt p db)
      (save_access_event-WhatIsSaved skip rt p db) e

pub finish-IsValid :
    (skip : String) (rt : Runtime) (p : Payload) (seen db : Database) (o : Option Staged)
    → IsValid db
    → WhatIsStaged skip rt p seen o
    → Ensures (λ (r : Bool × Database). IsValid r.1) (finish o db)
unfolding finish
finish-IsValid skip rt p seen db none v h = v
finish-IsValid skip rt p seen db (some s) v h =
    Ensures-bind IsValid (λ (r : Bool × Database). IsValid r.1) (commit s db) _
      (commit-IsValid s db h.numbers v) λ db' v'. v'

after_save_elim :
    (P : Database → Type 0) (r : Result (Bool × Database)) (db : Database)
    → P db
    → Ensures (λ (r : Bool × Database). P r.1) r
    → P (after_save r db)
unfolding after_save
after_save_elim P (ok (b, db')) db h k = k
after_save_elim P (err e) db h k = h

-- Whatever the payload, and whether the save stores it, declines it or raises: no request id is
-- stored twice, every event has its employee, every employee its department, and all
-- events meet the constraints of their columns.
pub save_access_event-IsValid :
    (skip : String) (rt : Runtime) (p : Payload) (db : Database)
    → IsValid db
    → IsValid (after_save (save_access_event skip rt p db) db)
unfolding save_access_event
save_access_event-IsValid skip rt p db v =
    after_save_elim IsValid (save_access_event skip rt p db) db v (
      Ensures-bind (WhatIsStaged skip rt p db) _ (stage skip rt p db) _
        (stage-WhatIsStaged skip rt p db) λ o h. finish-IsValid skip rt p db db o v h)
