-- ===== src/Reports/Attendance/Groups.antt =====
-- What the groups of `_compute_report_center_attendance` hold, against the rows of an employee and a
-- day.
use ntu_cloud_native.Prelude.{
  keep-append, ap, append_cons, length-append, append_nil, sym, ◌∙◌, and_right, and_left, inr, inl,
  Bool-cases, ℕ, ◌≤◌, String, Bool, true, false, not, ◌&&◌, ◌||◌, Option, none, some, List, [], ◌∷◌,
  ◌++◌, ◌≡◌, refl, arith, keep, any, all, count_where, ltb, leb, eqb, if◌then◌else◌, ◌==◌, nat_eq,
  string_eq, pair_eq, eq_of_==, any-append, count_where-append, length,
}
use ntu_cloud_native.Prelude.Dict.{lookup, lookup-insert}
use ntu_cloud_native.Timestamp.{Timestamp}
use ntu_cloud_native.Reports.Attendance.{
  is_empty, EventRow, Group, Groups, key_of, absorb, absorb_into, group_row, group_rows, earlier,
  later, new_group,
}

abbrev pub is_entry : EventRow → Bool
is_entry row = row.event.decision == "GRANTED" && row.event.direction == "IN"

abbrev pub is_exit : EventRow → Bool
is_exit row = row.event.decision == "GRANTED" && row.event.direction == "OUT"

abbrev pub is_denied : EventRow → Bool
is_denied row = row.event.decision == "DENIED"

-- The earliest time of the rows that pass, if one does.
abbrev passes_at : (EventRow → Bool) → Timestamp → EventRow → Bool
passes_at p t r = p r && eqb r.event.occurred_at t

abbrev not_before : (EventRow → Bool) → Timestamp → EventRow → Bool
not_before p t r = not (p r) || leb t r.event.occurred_at

abbrev not_after : (EventRow → Bool) → Timestamp → EventRow → Bool
not_after p t r = not (p r) || leb r.event.occurred_at t

abbrev pub IsEarliest : (EventRow → Bool) → List EventRow → Option Timestamp → Type 0
IsEarliest p rows none = any p rows ≡ false
IsEarliest p rows (some t) = (any (passes_at p t) rows ≡ true) × (all (not_before p t) rows ≡ true)

-- The latest one.
abbrev pub IsLatest : (EventRow → Bool) → List EventRow → Option Timestamp → Type 0
IsLatest p rows none = any p rows ≡ false
IsLatest p rows (some t) = (any (passes_at p t) rows ≡ true) × (all (not_after p t) rows ≡ true)

pub record SumsUp (rows : List EventRow) (group : Group) : Type 0 where
  pub first_is_earliest : IsEarliest is_entry rows group.first_in
  pub last_is_latest : IsLatest is_exit rows group.last_out
  pub denied_is_count : group.denied ≡ count_where is_denied rows

all-append {ℓ} :
    {A : Type ℓ} (p : A → Bool) (xs ys : List A) → all p (xs ++ ys) ≡ (all p xs && all p ys)
all-append p [] ys = refl
all-append p (x ∷ xs) ys = ground (arith, all-append p xs ys)

all-later :
    (p : EventRow → Bool) (t u : Timestamp) (rows : List EventRow)
    → u ≤ t
    → all (not_before p t) rows ≡ true
    → all (not_before p u) rows ≡ true
all-later p t u [] le h = refl
all-later p t u (r ∷ rows) le h = ground (arith, all-later p t u rows le)

all-earlier :
    (p : EventRow → Bool) (t u : Timestamp) (rows : List EventRow)
    → t ≤ u
    → all (not_after p t) rows ≡ true
    → all (not_after p u) rows ≡ true
all-earlier p t u [] le h = refl
all-earlier p t u (r ∷ rows) le h = ground (arith, all-earlier p t u rows le)

all-none :
    (p q : EventRow → Bool) (rows : List EventRow)
    → any p rows ≡ false
    → all (λ r. not (p r) || q r) rows ≡ true
all-none p q [] h = refl
all-none p q (r ∷ rows) h = ground (arith, all-none p q rows)

module _ (p : EventRow → Bool) (rows : List EventRow) (r : EventRow) where
  IsEarliest-pass :
      (o : Option Timestamp)
      → p r ≡ true
      → IsEarliest p rows o
      → IsEarliest p (rows ++ r ∷ []) (earlier o r.event.occurred_at)
  IsEarliest-pass none h k =
      let u = r.event.occurred_at in
      ground (
        arith,
        any-append (passes_at p u) rows (r ∷ []),
        all-append (not_before p u) rows (r ∷ []),
        all-none p (λ x. leb u x.event.occurred_at) rows k,
      )
  IsEarliest-pass (some t) h k =
      let u = r.event.occurred_at in
      elim (Bool-cases (ltb u t)) [
        | inl sooner ↦ ground (
          arith,
          any-append (passes_at p u) rows (r ∷ []),
          all-append (not_before p u) rows (r ∷ []),
          all-later p t u rows (ground arith) k.1,
        )
        | inr not_sooner ↦ ground (
          arith,
          any-append (passes_at p t) rows (r ∷ []),
          all-append (not_before p t) rows (r ∷ []),
        )
      ]

  IsEarliest-skip :
      (o : Option Timestamp) → p r ≡ false → IsEarliest p rows o → IsEarliest p (rows ++ r ∷ []) o
  IsEarliest-skip none h k = ground (arith, any-append p rows (r ∷ []))
  IsEarliest-skip (some t) h k =
      ground
        (arith, any-append (passes_at p t) rows (r ∷ []), all-append (not_before p t) rows (r ∷ []))

  IsLatest-pass :
      (o : Option Timestamp)
      → p r ≡ true
      → IsLatest p rows o
      → IsLatest p (rows ++ r ∷ []) (later o r.event.occurred_at)
  IsLatest-pass none h k =
      let u = r.event.occurred_at in
      ground (
        arith,
        any-append (passes_at p u) rows (r ∷ []),
        all-append (not_after p u) rows (r ∷ []),
        all-none p (λ x. leb x.event.occurred_at u) rows k,
      )
  IsLatest-pass (some t) h k =
      let u = r.event.occurred_at in
      elim (Bool-cases (ltb t u)) [
        | inl newer ↦ ground (
          arith,
          any-append (passes_at p u) rows (r ∷ []),
          all-append (not_after p u) rows (r ∷ []),
          all-earlier p t u rows (ground arith) k.1,
        )
        | inr not_newer ↦ ground (
          arith,
          any-append (passes_at p t) rows (r ∷ []),
          all-append (not_after p t) rows (r ∷ []),
        )
      ]

  IsLatest-skip :
      (o : Option Timestamp) → p r ≡ false → IsLatest p rows o → IsLatest p (rows ++ r ∷ []) o
  IsLatest-skip none h k = ground (arith, any-append p rows (r ∷ []))
  IsLatest-skip (some t) h k =
      ground
        (arith, any-append (passes_at p t) rows (r ∷ []), all-append (not_after p t) rows (r ∷ []))

not_out : (s : String) → (s == "IN") ≡ true → (s == "OUT") ≡ false
not_out s h = rw (eq_of_== s "IN" h)

not_denied : (s : String) → (s == "GRANTED") ≡ true → (s == "DENIED") ≡ false
not_denied s h = rw (eq_of_== s "GRANTED" h)

count_where-skip :
    (p : EventRow → Bool) (rows : List EventRow) (r : EventRow)
    → p r ≡ false
    → count_where p (rows ++ r ∷ []) ≡ count_where p rows
count_where-skip p rows r h = ground (arith, count_where-append p rows (r ∷ []))

-- Taking in a row keeps the figures of a group those of the rows taken in.
absorb-SumsUp :
    (rows : List EventRow) (group : Group) (r : EventRow)
    → SumsUp rows group
    → SumsUp (rows ++ r ∷ []) (absorb group r)
unfolding absorb
absorb-SumsUp rows group r h = elim (Bool-cases (is_entry r)) [
  | inl entry ↦
      let granted = and_left (r.event.decision == "GRANTED") (r.event.direction == "IN") entry in
      let inward = and_right (r.event.decision == "GRANTED") (r.event.direction == "IN") entry in
      let skip : is_exit r ≡ false = rw (not_out r.event.direction inward) (ground arith) in
      rw (granted, inward)
        record {
          first_is_earliest =
              IsEarliest-pass is_entry rows r group.first_in entry h.first_is_earliest;
          last_is_latest = IsLatest-skip is_exit rows r group.last_out skip h.last_is_latest;
          denied_is_count =
              h.denied_is_count
              ∙ sym (count_where-skip is_denied rows r (not_denied r.event.decision granted));
        }
  | inr no_entry ↦ elim (Bool-cases (is_exit r)) [
    | inl exit ↦
        let granted = and_left (r.event.decision == "GRANTED") (r.event.direction == "OUT") exit in
        let outward = and_right (r.event.decision == "GRANTED") (r.event.direction == "OUT") exit in
        rw (no_entry, granted, outward)
          record {
            first_is_earliest =
                IsEarliest-skip is_entry rows r group.first_in no_entry h.first_is_earliest;
            last_is_latest = IsLatest-pass is_exit rows r group.last_out exit h.last_is_latest;
            denied_is_count =
                h.denied_is_count
                ∙ sym (count_where-skip is_denied rows r (not_denied r.event.decision granted));
          }
    | inr no_exit ↦
        let first = IsEarliest-skip is_entry rows r group.first_in no_entry h.first_is_earliest in
        let last = IsLatest-skip is_exit rows r group.last_out no_exit h.last_is_latest in
        elim (Bool-cases (is_denied r)) [
          | inl refused ↦
              rw (no_entry, no_exit, refused)
                record {
                  first_is_earliest = first;
                  last_is_latest = last;
                  denied_is_count =
                      ground (arith, h.denied_is_count, count_where-append is_denied rows (r ∷ []));
                }
          | inr not_refused ↦
              rw (no_entry, no_exit, not_refused)
                record {
                  first_is_earliest = first;
                  last_is_latest = last;
                  denied_is_count =
                      h.denied_is_count ∙ sym (count_where-skip is_denied rows r not_refused);
                }
        ]
  ]
]

-- The rows that count for an employee and a day.
abbrev pub is_row_of : String × ℕ → EventRow → Bool
is_row_of k row = not (is_empty row.event.employee_id) && k == key_of row

abbrev pub SumsUpAll : List EventRow → Option Group → Type 0
SumsUpAll rows none = rows ≡ []
SumsUpAll rows (some group) = SumsUp rows group × (1 ≤ length rows)

absorb_into-SumsUp :
    (rows : List EventRow) (o : Option Group) (r : EventRow)
    → SumsUpAll rows o
    → SumsUpAll (rows ++ r ∷ []) (some (absorb_into o r))
absorb_into-SumsUp rows none r h = (
  absorb-SumsUp rows (new_group r) r
      (rw h record { first_is_earliest = refl; last_is_latest = refl; denied_is_count = refl }),
  omega (arith, length-append rows (r ∷ [])),
)
absorb_into-SumsUp rows (some group) r h =
    (absorb-SumsUp rows group r h.0, omega (arith, length-append rows (r ∷ [])))

lookup-group_row :
    (k : String × ℕ) (groups : Groups) (row : EventRow)
    → lookup k (group_row groups row)
      ≡ (if is_row_of k row then some (absorb_into (lookup k groups) row) else lookup k groups)
unfolding group_row
lookup-group_row k groups row = elim (Bool-cases (is_empty row.event.employee_id)) [
  | inl absent ↦ rw absent
  | inr present ↦ elim (Bool-cases (k == key_of row)) [
    | inl same ↦
        let e : k ≡ key_of row = eq_of_== k (key_of row) same in
        rw (present, same)
          (lookup-insert k (key_of row) (absorb_into (lookup (key_of row) groups) row) groups
            ∙ (rw same (ap (λ j. some (absorb_into (lookup j groups) row)) (sym e))))
    | inr other ↦
        rw (present, other)
          (lookup-insert k (key_of row) (absorb_into (lookup (key_of row) groups) row) groups
            ∙ rw other)
  ]
]

group_row-SumsUp :
    (k : String × ℕ) (seen : List EventRow) (groups : Groups) (row : EventRow)
    → SumsUpAll (keep (is_row_of k) seen) (lookup k groups)
    → SumsUpAll (keep (is_row_of k) (seen ++ row ∷ [])) (lookup k (group_row groups row))
group_row-SumsUp k seen groups row h =
    rw (lookup-group_row k groups row, keep-append (is_row_of k) seen (row ∷ []))
      (elim (Bool-cases (is_row_of k row)) [
        | inl its ↦ rw its (absorb_into-SumsUp (keep (is_row_of k) seen) (lookup k groups) row h)
        | inr not_its ↦ rw (not_its, append_nil (keep (is_row_of k) seen)) h
      ])

group_rows-continue :
    (k : String × ℕ) (seen : List EventRow) (groups : Groups) (rows : List EventRow)
    → SumsUpAll (keep (is_row_of k) seen) (lookup k groups)
    → SumsUpAll (keep (is_row_of k) (seen ++ rows)) (lookup k (group_rows groups rows))
unfolding group_rows
group_rows-continue k seen groups [] h = rw (append_nil seen) h
group_rows-continue k seen groups (row ∷ rows) h = rw (append_cons seen row rows) (
    group_rows-continue k (seen ++ row ∷ []) (group_row groups row) rows
      (group_row-SumsUp k seen groups row h))

-- On any rows: the group of an employee and a day is there exactly when the rows have one of that employee, whose number is not empty, on that day; and it holds the earliest granted entry of these rows, their latest granted exit, both absent when there is none, and the number of their refusals.
pub group_rows-SumsUpAll :
    (rows : List EventRow) (k : String × ℕ)
    → SumsUpAll (keep (is_row_of k) rows) (lookup k (group_rows [] rows))
group_rows-SumsUpAll rows k = group_rows-continue k [] [] rows refl
