-- ===== src/Reports/Remarks/Stored.antt =====
-- The rows that the queries of reporting-api/app/repositories.py for a remark find: they pass the
-- filters, and are stored.
use ntu_cloud_native.Permissions.Departments.{some-inj, none-not-some}
use ntu_cloud_native.Reports.Remarks.{first_row}
use ntu_cloud_native.Schema.{AccessEvent}
use mathlib.Core.Path.{subst}
use ntu_cloud_native.Prelude.{
  refl, ◌++◌, [], inr, ap, ◌∙◌, sym, inl, Bool-cases, All-imp, keep, ◌∷◌, nat_eq, some, true, find,
  All, ◌≡◌, ◌==◌, Bool, ℕ, List,
}

abbrev pub has_event : ℕ → AccessEvent → Bool
has_event i x = x.id == i

-- The event is a row of the table.
abbrev pub IsStored : AccessEvent → List AccessEvent → Type 0
IsStored e events =
    (before : List AccessEvent) × (after : List AccessEvent) × (before ++ e ∷ after ≡ events)

IsStored-cons :
    (x e : AccessEvent) (events : List AccessEvent) → IsStored e events → IsStored e (x ∷ events)
IsStored-cons x e events (before, after, h) = (x ∷ before, after, ap (λ xs. x ∷ xs) h)

pub first_row-holds {κ} :
    (P : AccessEvent → Type κ) (events : List AccessEvent) (e : AccessEvent)
    → All P events
    → first_row events ≡ some e
    → P e
first_row-holds P [] e h p = absurd (none-not-some p)
first_row-holds P (x ∷ events) e h p = subst P (some-inj p) h.0

pub keep-IsStored :
    (p : AccessEvent → Bool) (events : List AccessEvent)
    → All (λ x. (p x ≡ true) × (IsStored x events)) (keep p events)
keep-IsStored p [] = tt
keep-IsStored p (e ∷ events) =
    let more =
      All-imp (λ x. (p x ≡ true) × IsStored x events) (λ x. (p x ≡ true) × IsStored x (e ∷ events))
        (keep p events) (λ x h. (h.0, IsStored-cons e x events h.1)) (keep-IsStored p events) in
    elim (Bool-cases (p e)) [
      | inl kept ↦ rw kept ((kept, ([], events, refl)), more)
      | inr dropped ↦ rw dropped more
    ]

pub find-IsStored :
    (p : AccessEvent → Bool) (events : List AccessEvent) (e : AccessEvent)
    → find p events ≡ some e
    → (p e ≡ true) × IsStored e events
find-IsStored p [] e h = absurd (none-not-some h)
find-IsStored p (x ∷ events) e h = elim (Bool-cases (p x)) [
  | inl here ↦
      let step : find p (x ∷ events) ≡ some x = rw here in
      let same = some-inj (sym step ∙ h) in
      (ap p (sym same) ∙ here, ([], events, ap (λ y. y ∷ events) (sym same)))
  | inr later ↦
      let step : find p (x ∷ events) ≡ find p events = rw later in
      let rest = find-IsStored p events e (sym step ∙ h) in
      (rest.0, IsStored-cons x e events rest.1)
]
