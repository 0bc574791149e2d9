-- ===== src/Reports/Remarks/Changes.antt =====
-- What the remarks of reporting-api/app/repositories.py change, and whose events.
use ntu_cloud_native.Reports.Remarks.Names.{is_target-IsPassage, Names}
use ntu_cloud_native.Reports.Remarks.Stored.{
  IsStored, keep-IsStored, find-IsStored, first_row-holds, has_event,
}
use ntu_cloud_native.Prelude.Pages.{All-sort_by, sort_by}
use ntu_cloud_native.Prelude.Text.{split, is_empty}
use ntu_cloud_native.Permissions.Departments.{bind-some, some-inj}
use ntu_cloud_native.Permissions.{visible_department_ids, Visible}
use Prim.Native.String.{String}
use ntu_cloud_native.Prelude.{
  eq_of_==, false, string_eq, and_left, ◌&&◌, starts_with, arith, find, [], false≢true, inr, inl,
  refl, ◌∙◌, sym, ap, Bool-cases, ◌∷◌, true, nat_eq, not, ◌≡◌, keep, All, ◌==◌, Option, Bool, ℕ,
  List, if◌then◌else◌, none, some,
}
use ntu_cloud_native.Schema.{AccessEvent, UserAccount, Database}
use ntu_cloud_native.Result.{Error, ok-inj, err-not-ok, Result, ok, err}
use ntu_cloud_native.Reports.Remarks.{
  value_error, remark_denied, is_denied, text_or, earlier, target_of, awaiting, denied_request_id,
  Target, is_target, update_compliance_anomaly_remark, remark_target, remark_on,
  update_denied_access_remark, first_target, remark_of, may_remark, update_target, set_remark,
  RemarkAnswer,
}

-- One event that the id names, of the departments that the user may see, an own one where the user
-- may see no others, has the remark now, and all else is as before.
pub record IsRemarked (parse_date : String → Option ℕ) (is_main_gate : String → Bool) (fuel : ℕ)
    (db : Database) (user : Option UserAccount) (anomaly_id remark : String) (answer : RemarkAnswer)
    (db' : Database) : Type 0 where
  pub event : AccessEvent
  pub visible : Visible
  pub scope_is : visible_department_ids fuel db user none ≡ some visible
  pub may_remark_event : may_remark db user visible event ≡ true
  pub is_stored : IsStored event db.events
  pub is_named : Names parse_date is_main_gate anomaly_id event
  pub answers : answer.request_id ≡ event.request_id
  pub carries : All (λ x. has_event event.id x ≡ true → x.remark ≡ remark_of remark) db'.events
  pub others_are_kept :
      keep (λ x. not (has_event event.id x)) db'.events
      ≡ keep (λ x. not (has_event event.id x)) db.events
  pub tables_are_kept : record db' { events = db.events } ≡ db

set_remark-carries :
    (i : ℕ) (remark : Option String) (events : List AccessEvent)
    → All (λ x. has_event i x ≡ true → x.remark ≡ remark) (set_remark i remark events)
unfolding set_remark
set_remark-carries i remark [] = tt
set_remark-carries i remark (e ∷ events) = elim (Bool-cases (e.id == i)) [
  | inl same ↦ rw same ((λ h. refl), set_remark-carries i remark events)
  | inr other ↦
      rw other ((λ h. absurd (false≢true (sym other ∙ h))), set_remark-carries i remark events)
]

keep-set_remark :
    (i : ℕ) (remark : Option String) (events : List AccessEvent)
    → keep (λ x. not (has_event i x)) (set_remark i remark events)
      ≡ keep (λ x. not (has_event i x)) events
unfolding set_remark
keep-set_remark i remark [] = refl
keep-set_remark i remark (e ∷ events) = elim (Bool-cases (e.id == i)) [
  | inl same ↦ rw (same, same) (keep-set_remark i remark events)
  | inr other ↦ rw (other, other) (ap (λ xs. e ∷ xs) (keep-set_remark i remark events))
]

update_target-IsRemarked :
    (parse_date : String → Option ℕ) (is_main_gate : String → Bool) (fuel : ℕ) (db : Database)
    (user : Option UserAccount) (visible : Visible) (anomaly_id remark : String)
    (otherwise : AccessEvent → String) (o : Option AccessEvent) (answer : RemarkAnswer)
    (db' : Database)
    → visible_department_ids fuel db user none ≡ some visible
    → ((e : AccessEvent)
        → o ≡ some e
        → (may_remark db user visible e ≡ true)
          × IsStored e db.events
          × Names parse_date is_main_gate anomaly_id e)
    → update_target db anomaly_id (remark_of remark) otherwise o ≡ ok (answer, db')
    → IsRemarked parse_date is_main_gate fuel db user anomaly_id remark answer db'
unfolding update_target
update_target-IsRemarked parse_date is_main_gate fuel db user visible anomaly_id remark otherwise
      none answer db' v h e =
    absurd (err-not-ok e)
update_target-IsRemarked parse_date is_main_gate fuel db user visible anomaly_id remark otherwise
      (some x) answer db' v h e =
    let same = ok-inj e in
    let (allowed, stored, named) = h x refl in
    let events_are : set_remark x.id (remark_of remark) db.events ≡ db'.events =
      ap (λ z. z.1.events) same in
    record {
      event = x;
      visible = visible;
      scope_is = v;
      may_remark_event = allowed;
      is_stored = stored;
      is_named = named;
      answers = ap (λ z. z.0.request_id) (sym same);
      carries = rw (← events_are) (set_remark-carries x.id (remark_of remark) db.events);
      others_are_kept =
          ap (keep (λ y. not (has_event x.id y))) (sym events_are)
          ∙ keep-set_remark x.id (remark_of remark) db.events;
      tables_are_kept = ap (λ z. record z.1 { events = db.events }) (sym same);
    }

first_target-IsStored :
    (parse_date : String → Option ℕ) (is_main_gate : String → Bool) (db : Database)
    (user : Option UserAccount) (visible : Visible) (anomaly_id : String) (target : Target)
    (date : ℕ) (e : AccessEvent)
    → target_of (split b':' anomaly_id) ≡ some target
    → parse_date target.work_date ≡ some date
    → first_target parse_date is_main_gate db user visible target date ≡ some e
    → (may_remark db user visible e ≡ true)
      × IsStored e db.events
      × Names parse_date is_main_gate anomaly_id e
unfolding first_target is_target
first_target-IsStored parse_date is_main_gate db user visible anomaly_id target date e parsed day
      h =
    let found =
      first_row-holds
        (λ x.
          (is_target parse_date is_main_gate db user visible target date x ≡ true)
          × IsStored x db.events)
        (sort_by (λ a b. if target.is_first then earlier a b else earlier b a)
          (keep (is_target parse_date is_main_gate db user visible target date) db.events))
        e
        (All-sort_by
          (λ x.
            (is_target parse_date is_main_gate db user visible target date x ≡ true)
            × IsStored x db.events)
          (λ a b. if target.is_first then earlier a b else earlier b a)
          (keep (is_target parse_date is_main_gate db user visible target date) db.events)
          (keep-IsStored (is_target parse_date is_main_gate db user visible target date) db.events))
        h in
    (
      ground arith,
      found.1,
      inr (
          is_target-IsPassage parse_date is_main_gate db user visible anomaly_id target date e
            parsed day found.0),
    )

denied-IsStored :
    (parse_date : String → Option ℕ) (is_main_gate : String → Bool) (anomaly_id : String)
    (db : Database) (user : Option UserAccount) (request_id : String) (visible : Visible)
    (e : AccessEvent)
    → starts_with anomaly_id "denied:" ≡ true
    → denied_request_id anomaly_id ≡ request_id
    → find (is_denied db user request_id visible) db.events ≡ some e
    → (may_remark db user visible e ≡ true)
      × IsStored e db.events
      × Names parse_date is_main_gate anomaly_id e
unfolding is_denied
denied-IsStored parse_date is_main_gate anomaly_id db user request_id visible e begins id_is h =
    let (holds, stored) = find-IsStored (is_denied db user request_id visible) db.events e h in
    (
      and_left (may_remark db user visible e) (e.request_id == request_id && e.decision == "DENIED")
          holds,
      stored,
      inl (
        begins,
        eq_of_== e.request_id request_id (ground arith) ∙ sym id_is,
        eq_of_== e.decision "DENIED" (ground arith),
      ),
    )

remark_denied-IsRemarked :
    (parse_date : String → Option ℕ) (is_main_gate : String → Bool) (fuel : ℕ) (db : Database)
    (user : Option UserAccount) (anomaly_id request_id remark : String) (answer : RemarkAnswer)
    (db' : Database)
    → starts_with anomaly_id "denied:" ≡ true
    → denied_request_id anomaly_id ≡ request_id
    → remark_denied fuel db user anomaly_id request_id remark ≡ some (ok (answer, db'))
    → IsRemarked parse_date is_main_gate fuel db user anomaly_id remark answer db'
unfolding remark_denied
remark_denied-IsRemarked parse_date is_main_gate fuel db user anomaly_id request_id remark answer
      db' begins id_is h =
    let (visible, v, k) =
      bind-some (visible_department_ids fuel db user none)
        (λ visible. some (
          update_target db anomaly_id (remark_of remark) (λ e. text_or (some e.reason) awaiting)
            (find (is_denied db user request_id visible) db.events)))
        (ok (answer, db')) h in
    update_target-IsRemarked parse_date is_main_gate fuel db user visible anomaly_id remark
      (λ e. text_or (some e.reason) awaiting)
      (find (is_denied db user request_id visible) db.events) answer db' v
      (λ e found.
        denied-IsStored parse_date is_main_gate anomaly_id db user request_id visible e begins id_is
          found)
      (some-inj k)

-- What is answered to a refusal or else by a computation, was answered by the computation.
not_refused :
    {A : Type 0} (b : Bool) (e : Error) (o : Option (Result A)) (a : A)
    → (if b then some (err e) else o) ≡ some (ok a)
    → o ≡ some (ok a)
not_refused true e o a h = absurd (err-not-ok (some-inj h))
not_refused false e o a h = h

denied-IsRemarked :
    (parse_date : String → Option ℕ) (is_main_gate : String → Bool) (fuel : ℕ) (db : Database)
    (user : Option UserAccount) (anomaly_id remark : String) (answer : RemarkAnswer)
    (db' : Database)
    → starts_with anomaly_id "denied:" ≡ true
    → update_denied_access_remark fuel db user anomaly_id remark ≡ some (ok (answer, db'))
    → IsRemarked parse_date is_main_gate fuel db user anomaly_id remark answer db'
unfolding update_denied_access_remark
denied-IsRemarked parse_date is_main_gate fuel db user anomaly_id remark answer db' begins h =
    remark_denied-IsRemarked parse_date is_main_gate fuel db user anomaly_id
      (denied_request_id anomaly_id) remark answer db' begins refl
      (not_refused (is_empty (denied_request_id anomaly_id)) value_error
        (remark_denied fuel db user anomaly_id (denied_request_id anomaly_id) remark) (answer, db')
        h)

remark_on-IsRemarked :
    (parse_date : String → Option ℕ) (is_main_gate : String → Bool) (fuel : ℕ) (db : Database)
    (user : Option UserAccount) (anomaly_id remark : String) (target : Target) (visible : Visible)
    (date : Option ℕ) (answer : RemarkAnswer) (db' : Database)
    → target_of (split b':' anomaly_id) ≡ some target
    → parse_date target.work_date ≡ date
    → visible_department_ids fuel db user none ≡ some visible
    → remark_on parse_date is_main_gate db user anomaly_id (remark_of remark) target visible date
      ≡ ok (answer, db')
    → IsRemarked parse_date is_main_gate fuel db user anomaly_id remark answer db'
unfolding remark_on
remark_on-IsRemarked parse_date is_main_gate fuel db user anomaly_id remark target visible none
      answer db' parsed day v h =
    absurd (err-not-ok h)
remark_on-IsRemarked parse_date is_main_gate fuel db user anomaly_id remark target visible
      (some date) answer db' parsed day v h =
    update_target-IsRemarked parse_date is_main_gate fuel db user visible anomaly_id remark
      (λ e. awaiting) (first_target parse_date is_main_gate db user visible target date) answer db'
      v
      (λ e p.
        first_target-IsStored parse_date is_main_gate db user visible anomaly_id target date e
          parsed day p)
      h

remark_target-IsRemarked :
    (parse_date : String → Option ℕ) (is_main_gate : String → Bool) (fuel : ℕ) (db : Database)
    (user : Option UserAccount) (anomaly_id remark : String) (o : Option Target)
    (answer : RemarkAnswer) (db' : Database)
    → target_of (split b':' anomaly_id) ≡ o
    → remark_target parse_date is_main_gate fuel db user anomaly_id remark o
      ≡ some (ok (answer, db'))
    → IsRemarked parse_date is_main_gate fuel db user anomaly_id remark answer db'
unfolding remark_target
remark_target-IsRemarked parse_date is_main_gate fuel db user anomaly_id remark none answer db'
      parsed h =
    absurd (err-not-ok (some-inj h))
remark_target-IsRemarked parse_date is_main_gate fuel db user anomaly_id remark (some target) answer
      db' parsed h =
    let (visible, v, k) =
      bind-some (visible_department_ids fuel db user none)
        (λ visible. some (
          remark_on parse_date is_main_gate db user anomaly_id (remark_of remark) target visible
            (parse_date target.work_date)))
        (ok (answer, db')) h in
    remark_on-IsRemarked parse_date is_main_gate fuel db user anomaly_id remark target visible
      (parse_date target.work_date) answer db' parsed refl v (some-inj k)

-- A remark on an anomaly that is answered stands on every row with the id of one event: a row of the table that the id of the anomaly names, by the request id of a refusal, or by the employee, the day and the direction of a granted passage through a main gate; its employee is in a department that the user may see, and is the user's own for a role EMPLOYEE with an employee number; the rows of other ids and the other tables are as before.
pub update_compliance_anomaly_remark-IsRemarked :
    (parse_date : String → Option ℕ) (is_main_gate : String → Bool) (fuel : ℕ) (db : Database)
    (user : Option UserAccount) (anomaly_id remark : String) (answer : RemarkAnswer)
    (db' : Database)
    → update_compliance_anomaly_remark parse_date is_main_gate fuel db user anomaly_id remark
      ≡ some (ok (answer, db'))
    → IsRemarked parse_date is_main_gate fuel db user anomaly_id remark answer db'
unfolding update_compliance_anomaly_remark
update_compliance_anomaly_remark-IsRemarked parse_date is_main_gate fuel db user anomaly_id remark
      answer db' h =
    elim (Bool-cases (starts_with anomaly_id "denied:")) [
      | inl denied ↦
          denied-IsRemarked parse_date is_main_gate fuel db user anomaly_id remark answer db' denied
            (sym (branch denied) ∙ h)
      | inr other ↦
          remark_target-IsRemarked parse_date is_main_gate fuel db user anomaly_id remark
            (target_of (split b':' anomaly_id)) answer db' refl (sym (branch other) ∙ h)
    ]
  where
    branch :
        {b : Bool}
        → starts_with anomaly_id "denied:" ≡ b
        → update_compliance_anomaly_remark parse_date is_main_gate fuel db user anomaly_id remark
          ≡ (if b
              then update_denied_access_remark fuel db user anomaly_id remark
              else remark_target parse_date is_main_gate fuel db user anomaly_id remark
                  (target_of (split b':' anomaly_id)))
    branch p =
        ap
          (λ b.
            if b
            then update_denied_access_remark fuel db user anomaly_id remark
            else remark_target parse_date is_main_gate fuel db user anomaly_id remark
                (target_of (split b':' anomaly_id)))
          p
