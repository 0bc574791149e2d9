-- ===== src/Ingest/Invariant.antt =====
-- The invariant of the tables that a save writes, and that every commit keeps it.
use ntu_cloud_native.Prelude.{
  any_of_find_none, ap, ℕ, suc, ◌≤◌, ◌<◌, String, Bool, true, false, Option, none, some, List, [],
  ◌∷◌, ◌++◌, ◌≡◌, ◌∙◌, refl, arith, any, count_where, All, All-append, All-imp, any-append,
  count_where-append, count_where_of_any, is_some-find, is_some, is_none, not, ◌==◌, string_eq,
  eq_iff, Bool-cases, inl, inr,
}
use ntu_cloud_native.Result.{ok, Ensures, Ensures-bind, Ensures-guard, integrity_error}
use ntu_cloud_native.Timestamp.{Timestamp}
use ntu_cloud_native.Schema.{
  Department, Employee, AccessEvent, Database, event_is_accepted, employee_is_accepted,
}
use ntu_cloud_native.Ingest.Tables.{
  has_request, get_employee, has_department, set_last_known, default_department_id,
}
use ntu_cloud_native.Ingest.{
  Staged, unassigned, new_employee, add_department, write_employee, write_event, commit,
}

abbrev pub has_employee : List Employee → String → Bool
has_employee employees id = any (λ m. m.employee_id == id) employees

-- The department of an employee, if there is one, is a row of `departments`.
abbrev pub is_housed : List Department → Option String → Bool
is_housed departments none = true
is_housed departments (some id) = has_department id departments

pub record IsValid (db : Database) : Type 0 where
  pub once : (r : String) → count_where (λ e. e.request_id == r) db.events ≤ 1
  pub known : All (λ e. has_employee db.employees e.employee_id ≡ true) db.events
  pub numbered : All (λ e. e.id < db.next_event_id) db.events
  pub accepted : All (λ e. event_is_accepted e ≡ true) db.events
  pub single : (k : String) → count_where (λ m. m.employee_id == k) db.employees ≤ 1
  pub housed : All (λ m. is_housed db.departments m.department_id ≡ true) db.employees

-- Adding the default department.
is_housed_more :
    (ds : List Department) (d : Department) (o : Option String)
    → is_housed ds o ≡ true
    → is_housed (ds ++ d ∷ []) o ≡ true
is_housed_more ds d none h = refl
is_housed_more ds d (some id) h =
    ground (arith, any-append (λ x. x.department_id == id) ds (d ∷ []))

add_department-IsValid :
    (adds : Bool) (db : Database) → IsValid db → Ensures IsValid (add_department adds db)
unfolding add_department
add_department-IsValid false db v = v
add_department-IsValid true db v =
    Ensures-guard IsValid (not (has_department default_department_id db.departments))
      integrity_error (ok (record db { departments = db.departments ++ unassigned ∷ [] }))
      λ _. record {
        once = v.once;
        known = v.known;
        numbered = v.numbered;
        accepted = v.accepted;
        single = v.single;
        housed =
            All-imp _ _ db.employees (λ m. is_housed_more db.departments unassigned m.department_id)
              v.housed;
      }

pub has_employee-set_last_known :
    (k state : String) (t : Option Timestamp) (ms : List Employee) (id : String)
    → has_employee (set_last_known k state t ms) id ≡ has_employee ms id
has_employee-set_last_known k state t [] id = refl
has_employee-set_last_known k state t (m ∷ ms) id =
    ground (arith, has_employee-set_last_known k state t ms id)

count_where-set_last_known :
    (k state : String) (t : Option Timestamp) (ms : List Employee) (id : String)
    → count_where (λ m. m.employee_id == id) (set_last_known k state t ms)
      ≡ count_where (λ m. m.employee_id == id) ms
count_where-set_last_known k state t [] id = refl
count_where-set_last_known k state t (m ∷ ms) id =
    ground (arith, count_where-set_last_known k state t ms id)

housed-set_last_known :
    (k state : String) (t : Option Timestamp) (ds : List Department) (ms : List Employee)
    → All (λ m. is_housed ds m.department_id ≡ true) ms
    → All (λ m. is_housed ds m.department_id ≡ true) (set_last_known k state t ms)
housed-set_last_known k state t ds [] h = tt
housed-set_last_known k state t ds (m ∷ ms) h =
    ground (arith, housed-set_last_known k state t ds ms h.1)

-- One more row with a key that no row has.
count_fresh_le {ℓ} :
    {A : Type ℓ} (key : A → String) (new : String) (xs : List A) (a : A)
    → key a ≡ new
    → any (λ x. key x == new) xs ≡ false
    → (k : String) → count_where (λ x. key x == k) xs ≤ 1
    → count_where (λ x. key x == k) (xs ++ a ∷ []) ≤ 1
count_fresh_le key new xs a e fresh k once = elim (Bool-cases (new == k)) [
  | inl same ↦ ground (
    arith,
    count_where-append (λ x. key x == k) xs (a ∷ []),
    count_where_of_any (λ x. key x == new) xs fresh,
    ap (λ (z : String). count_where (λ x. key x == z) xs) ((eq_iff new k).0 same),
  )
  | inr other ↦
      ground
        (arith, count_where-append (λ x. key x == k) xs (a ∷ []), ap (λ (z : String). z == k) e)
]

add_employee-IsValid :
    (m : Employee) (db : Database)
    → IsValid db
    → is_none (get_employee m.employee_id db.employees) ≡ true
    → is_housed db.departments m.department_id ≡ true
    → IsValid (record db { employees = db.employees ++ m ∷ [] })
add_employee-IsValid m db v fresh housed = record {
  once = v.once;
  known =
      All-imp _ _ db.events
        (λ e h.
          ground (arith, any-append (λ x. x.employee_id == e.employee_id) db.employees (m ∷ [])))
        v.known;
  numbered = v.numbered;
  accepted = v.accepted;
  single = λ k.
      count_fresh_le (λ x. x.employee_id) m.employee_id db.employees m refl
        (any_of_find_none _ db.employees fresh) k (v.single k);
  housed = All-append _ db.employees (m ∷ []) v.housed (housed, tt);
}

write_employee-IsValid :
    (s : Staged) (db : Database) → IsValid db → Ensures IsValid (write_employee s db)
unfolding write_employee
write_employee-IsValid s db v = elim (Bool-cases s.adds_employee) [
  | inl new ↦ rw new (
      Ensures-guard IsValid (is_none (get_employee s.employee_id db.employees)) integrity_error _
        λ fresh.
          Ensures-guard IsValid (has_department default_department_id db.departments)
            integrity_error _
            λ there.
              Ensures-guard IsValid (employee_is_accepted (new_employee s)) integrity_error
                (ok (record db { employees = db.employees ++ new_employee s ∷ [] }))
                λ _. add_employee-IsValid (new_employee s) db v fresh there)
  | inr old ↦ rw old (record {
    once = v.once;
    known =
        All-imp _ _ db.events
          (λ e h.
            has_employee-set_last_known s.employee_id s.state (some s.seen_at) db.employees
              e.employee_id
            ∙ h)
          v.known;
    numbered = v.numbered;
    accepted = v.accepted;
    single = λ k.
        rw (count_where-set_last_known s.employee_id s.state (some s.seen_at) db.employees k)
          (v.single k);
    housed =
        housed-set_last_known s.employee_id s.state (some s.seen_at) db.departments db.employees
          v.housed;
  })
]

write_event-IsValid :
    (make : ℕ → AccessEvent) (db : Database)
    → ((n : ℕ) → (make n).id ≡ n)
    → IsValid db
    → Ensures IsValid (write_event make db)
unfolding write_event
write_event-IsValid make db numbers v =
    let row = make db.next_event_id in
    Ensures-guard IsValid (not (has_request row.request_id db.events)) integrity_error _ λ fresh.
      Ensures-guard IsValid (is_some (get_employee row.employee_id db.employees)) integrity_error _
        λ there.
          Ensures-guard IsValid (event_is_accepted row) integrity_error
            (ok
              (record db { events = db.events ++ row ∷ []; next_event_id = suc db.next_event_id }))
            λ good. record {
              once = λ r.
                  count_fresh_le (λ e. e.request_id) row.request_id db.events row refl
                    (ground arith) r (v.once r);
              known = All-append _ db.events (row ∷ []) v.known (
                ground (arith, is_some-find (λ m. m.employee_id == row.employee_id) db.employees),
                tt,
              );
              numbered =
                  All-append _ db.events (row ∷ [])
                    (All-imp _ _ db.events (λ e h. omega arith) v.numbered)
                    (omega (arith, numbers db.next_event_id), tt);
              accepted = All-append _ db.events (row ∷ []) v.accepted (good, tt);
              single = v.single;
              housed = v.housed;
            }

-- Whatever the session staged, and whatever was committed meanwhile, the commit keeps the invariant.
pub commit-IsValid :
    (s : Staged) (db : Database)
    → ((n : ℕ) → (s.event n).id ≡ n)
    → IsValid db
    → Ensures IsValid (commit s db)
unfolding commit
commit-IsValid s db numbers v =
    Ensures-bind IsValid IsValid (add_department s.adds_department db) _
      (add_department-IsValid s.adds_department db v)
      λ db₁ v₁.
        Ensures-bind IsValid IsValid (write_employee s db₁) _ (write_employee-IsValid s db₁ v₁)
          λ db₂ v₂. write_event-IsValid s.event db₂ numbers v₂
