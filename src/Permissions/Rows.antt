-- ===== src/Permissions/Rows.antt =====
-- The rows that the scoped queries of reporting-api/app/repositories.py return: whose they may be.
use ntu_cloud_native.Permissions.{
  at_or_before, at_or_after, is_in, narrow, is_own, only_own, scoped_events, employee_of,
  visible_department_ids, or_own, own_employee, department_of, get_visible_department_ids,
  user_can_view_all_departments, Visible, scope_departments,
}
use ntu_cloud_native.Prelude.{
  All-keep, All-imp, Option-cases, sym, ap, ◌∙◌, ℕ, String, Bool, true, false, false≢true, ◌&&◌,
  ◌⊎◌, inl, inr, Option, none, some, List, ◌≡◌, refl, arith, contains, keep, All, string_eq, nat_eq,
  eq_of_==, Bool-cases, and_left,
}
use ntu_cloud_native.Prelude.Text.{is_empty}
use ntu_cloud_native.Timestamp.{Timestamp}
use ntu_cloud_native.Schema.{Employee, UserAccount, AccessEvent, Database}
use ntu_cloud_native.Permissions.Departments.{none-not-some, some-inj, bind-some}
use ntu_cloud_native.Permissions.{Visible}
use ntu_cloud_native.Permissions.Scope.{
  MaySee, shows, shows-narrow, visible_department_ids-parts, get_visible_department_ids_iff_MaySee,
  scopes_of,
}

-- What the report queries may return: an event of an employee in a department that the user may
-- see, and a user of role EMPLOYEE with an employee number sees only the own events.
pub record MayReturn (db : Database) (user : UserAccount) (e : AccessEvent) : Type 0 where
  pub department_is_visible :
      (user_can_view_all_departments user ≡ true)
      ⊎ ((m : Employee) × (x : String) × (employee_of db e ≡ some m)
          × (m.department_id ≡ some x)
          × MaySee db user x)
  pub event_is_own :
      (k : String) → only_own (some user) ≡ some k → is_empty k ≡ false → e.employee_id ≡ k

is_in-only :
    (ids : List String) (o : Option Employee)
    → is_in (Visible.only ids) o ≡ true
    → (m : Employee) × (x : String) × (o ≡ some m)
      × (m.department_id ≡ some x)
      × (contains ids x ≡ true)
is_in-only ids none h = absurd (false≢true h)
is_in-only ids (some m) h = elim (Option-cases m.department_id) [
  | inl p ↦ absurd (false≢true (rw p at h))
  | inr (x, p) ↦ (m, x, refl, p, rw p at h)
]

is_own-eq :
    (o : Option String) (k own : String)
    → is_own o k ≡ true
    → o ≡ some own
    → is_empty own ≡ false
    → k ≡ own
is_own-eq none k own h p f = absurd (none-not-some p)
is_own-eq (some o) k own h p f =
    let q = some-inj p in
    let h' : is_own (some own) k ≡ true = ap (λ z. is_own (some z) k) (sym q) ∙ h in
    eq_of_== k own (rw f at h')

narrow-shows :
    (seen : Visible) (r : Option (List String)) (x : String)
    → shows (narrow seen r) x ≡ true
    → shows seen x ≡ true
unfolding narrow
narrow-shows seen none x h = h
narrow-shows seen (some ids) x h =
    and_left (shows seen x) (contains ids x) (sym (shows-narrow seen ids x) ∙ h)

is_all : Visible → Bool
is_all Visible.everything = true
is_all (Visible.only ids) = false

narrow-all :
    (seen : Visible) (r : Option (List String)) → is_all (narrow seen r) ≡ true → is_all seen ≡ true
unfolding narrow is_all
narrow-all seen none h = h
narrow-all Visible.everything (some ids) h = refl
narrow-all (Visible.only seen) (some ids) h = h

seen_all-global :
    (fuel : ℕ) (db : Database) (user : UserAccount) (seen : Visible)
    → get_visible_department_ids fuel db user ≡ some seen
    → is_all seen ≡ true
    → user_can_view_all_departments user ≡ true
unfolding get_visible_department_ids is_all
seen_all-global fuel db user seen e h = elim (Bool-cases (user_can_view_all_departments user)) [
  | inl global ↦ global
  | inr local ↦
      let (out, ends, same) =
        bind-some (scope_departments fuel db.departments (scopes_of db user))
          (λ out. some (Visible.only (or_own (department_of (own_employee db user)) out))) seen
          (rw local at e) in
      absurd (false≢true (ap is_all (some-inj same) ∙ h))
]

returned-department :
    (db : Database) (user : UserAccount) (visible : Visible) (o : Option Employee)
    → (is_all visible ≡ true → user_can_view_all_departments user ≡ true)
    → ((x : String) → shows visible x ≡ true → MaySee db user x)
    → is_in visible o ≡ true
    → (user_can_view_all_departments user ≡ true)
      ⊎ ((m : Employee) × (x : String) × (o ≡ some m)
          × (m.department_id ≡ some x)
          × MaySee db user x)
unfolding is_all shows
returned-department db user Visible.everything o global may h = inl (global refl)
returned-department db user (Visible.only ids) o global may h =
    let (m, x, p, q, k) = is_in-only ids o h in inr (m, x, p, q, may x k)

-- Every event of the scoped query of events for a user, under any request for a department and any time window, is of an employee in a department that the user may see, or the user's role sees them all; and to a user of role EMPLOYEE with an employee number it is an event of that employee.
pub scoped_events-MayReturn :
    (fuel : ℕ) (db : Database) (user : UserAccount) (d : Option String) (visible : Visible)
    (from to : Option Timestamp)
    → visible_department_ids fuel db (some user) d ≡ some visible
    → All (MayReturn db user) (scoped_events db (some user) visible from to)
unfolding scoped_events
scoped_events-MayReturn fuel db user d visible from to e =
    All-imp (λ a. is_returned a ≡ true) (MayReturn db user) (keep is_returned db.events) may_return
      (All-keep is_returned db.events)
  where
    in_window : AccessEvent → Bool
    in_window a = at_or_after from a.occurred_at && at_or_before to a.occurred_at

    is_returned : AccessEvent → Bool
    is_returned a =
        is_in visible (employee_of db a)
        && is_own (only_own (some user)) a.employee_id
        && at_or_after from a.occurred_at
        && at_or_before to a.occurred_at

    may_return : (a : AccessEvent) → is_returned a ≡ true → MayReturn db user a
    may_return a h =
        let (requested, seen, e_requested, e_seen, same) =
          visible_department_ids-parts fuel db user d visible e in
        let in_scope : is_in visible (employee_of db a) ≡ true = ground arith in
        let own : is_own (only_own (some user)) a.employee_id ≡ true = ground arith in
        record {
          department_is_visible =
              returned-department db user visible (employee_of db a)
                (λ all.
                  seen_all-global fuel db user seen e_seen
                    (narrow-all seen requested (ap is_all same ∙ all)))
                (λ x k.
                  (get_visible_department_ids_iff_MaySee fuel db user seen e_seen x).0
                    (narrow-shows seen requested x (ap (λ v. shows v x) same ∙ k)))
                in_scope;
          event_is_own = λ k p f. is_own-eq (only_own (some user)) a.employee_id k own p f;
        }
