-- ===== src/Reports/Snapshots/Rows.antt =====
-- The rows of the table `report_center_snapshots` that `_read_report_center_snapshot` of
-- reporting-api/app/repositories.py reads after an update or an insert.
use ntu_cloud_native.Permissions.Departments.{some-inj, none-not-some}
use ntu_cloud_native.Reports.Snapshots.Keys.{or_right, or_left, is_for_sym, is_for_same, IsUnique}
use ntu_cloud_native.Timestamp.{Timestamp}
use ntu_cloud_native.Reports.Snapshots.Store.{
  new_row, refreshed, is_for, newer, Snapshot, update_row, latest, Report, Lookup,
}
use ntu_cloud_native.Prelude.{
  inr, ◌||◌, false≢true, sym, inl, any-append, refl, [], leb, ap, ◌∙◌, ◌++◌, Bool-cases, arith,
  some, ◌∷◌, none, true, false, Option, ◌≡◌, any, Bool, List,
}

module _ {A D : Type 0} (l : Lookup) (payload : Report A D) (now : Timestamp) where
  pub latest-none :
      (p : Lookup → Bool) (rows : List (Snapshot A D))
      → any (λ t. p t.lookup) rows ≡ false
      → latest p rows ≡ none
  unfolding latest
  latest-none p [] h = refl
  latest-none p (s ∷ rows) h = ground (arith, latest-none p rows)

  pub latest-passes :
      (p : Lookup → Bool) (s : Snapshot A D) (rows : List (Snapshot A D))
      → p s.lookup ≡ true
      → latest p (s ∷ rows) ≡ some (newer s (latest p rows))
  unfolding latest
  latest-passes p s rows h = rw h

  pub latest-skips :
      (p : Lookup → Bool) (s : Snapshot A D) (rows : List (Snapshot A D))
      → p s.lookup ≡ false
      → latest p (s ∷ rows) ≡ latest p rows
  unfolding latest
  latest-skips p s rows h = rw h

  pub any_of_latest-none :
      (p : Lookup → Bool) (rows : List (Snapshot A D))
      → latest p rows ≡ none
      → any (λ t. p t.lookup) rows ≡ false
  any_of_latest-none p [] h = refl
  any_of_latest-none p (s ∷ rows) h = elim (Bool-cases (p s.lookup)) [
    | inl same ↦ absurd (none-not-some (sym h ∙ latest-passes p s rows same))
    | inr other ↦ rw (other, any_of_latest-none p rows (sym (latest-skips p s rows other) ∙ h))
  ]

  pub update_row_none :
      (rows : List (Snapshot A D))
      → any (λ t. is_for l t.lookup) rows ≡ false
      → update_row l payload now rows ≡ rows
  unfolding update_row
  update_row_none [] h = refl
  update_row_none (s ∷ rows) h = elim (Bool-cases (is_for l s.lookup)) [
    | inl same ↦ absurd (false≢true (sym h ∙ rw same))
    | inr other ↦ rw (other, update_row_none rows (rw other at h))
  ]

  pub any-same :
      (m row : Lookup) (rows : List (Snapshot A D))
      → is_for m row ≡ true
      → any (λ t. is_for row t.lookup) rows ≡ any (λ t. is_for m t.lookup) rows
  any-same m row [] h = refl
  any-same m row (t ∷ rows) h = rw ((is_for_same m row t.lookup h).1, any-same m row rows h)

  pub any-update_row :
      (m : Lookup) (rows : List (Snapshot A D))
      → any (λ t. is_for m t.lookup) (update_row l payload now rows)
        ≡ any (λ t. is_for m t.lookup) rows
  unfolding update_row refreshed
  any-update_row m [] = refl
  any-update_row m (s ∷ rows) = elim (Bool-cases (is_for l s.lookup)) [
    | inl same ↦ rw same (ap (λ b. is_for m s.lookup || b) (any-update_row m rows))
    | inr other ↦ rw other (ap (λ b. is_for m s.lookup || b) (any-update_row m rows))
  ]

  pub update_row-IsUnique :
      (rows : List (Snapshot A D)) → IsUnique rows → IsUnique (update_row l payload now rows)
  unfolding update_row refreshed
  update_row-IsUnique [] u = tt
  update_row-IsUnique (s ∷ rows) u = elim (Bool-cases (is_for l s.lookup)) [
    | inl same ↦ rw same (any-update_row s.lookup rows ∙ u.0, update_row-IsUnique rows u.1)
    | inr other ↦ rw other (any-update_row s.lookup rows ∙ u.0, update_row-IsUnique rows u.1)
  ]

  pub append-IsUnique :
      (rows : List (Snapshot A D))
      → IsUnique rows
      → any (λ t. is_for l t.lookup) rows ≡ false
      → IsUnique (rows ++ new_row l payload now ∷ [])
  append-IsUnique [] u h = (refl, tt)
  append-IsUnique (s ∷ rows) u h =
      let new : is_for s.lookup l ≡ false =
        is_for_sym s.lookup l ∙ or_left (is_for l s.lookup) (any (λ t. is_for l t.lookup) rows) h in
      (
        any-append (λ t. is_for s.lookup t.lookup) rows (new_row l payload now ∷ [])
            ∙ rw (u.0, new),
        append-IsUnique rows u.1
            (or_right (is_for l s.lookup) (any (λ t. is_for l t.lookup) rows) h),
      )

  -- The only row of a key is the newest.
  pub latest-only :
      (s : Snapshot A D) (rows : List (Snapshot A D))
      → is_for l s.lookup ≡ true
      → any (λ t. is_for l t.lookup) rows ≡ false
      → latest (is_for l) (s ∷ rows) ≡ some s
  unfolding newer
  latest-only s rows same alone =
      latest-passes (is_for l) s rows same
      ∙ ap (λ o. some (newer s o)) (latest-none (is_for l) rows alone)

  pub newer-of :
      (t : Snapshot A D) (o : Option (Snapshot A D)) (s : Snapshot A D)
      → is_for l t.lookup ≡ true
      → ((r : Snapshot A D) → o ≡ some r → is_for l r.lookup ≡ true)
      → newer t o ≡ s
      → is_for l s.lookup ≡ true
  unfolding newer
  newer-of t none s same rest p = rw p at same
  newer-of t (some r) s same rest p = elim (Bool-cases (leb r.generated_at t.generated_at)) [
    | inl h ↦ let q : t ≡ s = rw h at p in rw q at same
    | inr h ↦ let q : r ≡ s = rw h at p in rest s (ap some q)
  ]

  pub latest-is_for :
      (rows : List (Snapshot A D)) (s : Snapshot A D)
      → latest (is_for l) rows ≡ some s
      → is_for l s.lookup ≡ true
  unfolding latest
  latest-is_for [] s h = absurd (none-not-some h)
  latest-is_for (t ∷ rows) s h = elim (Bool-cases (is_for l t.lookup)) [
    | inl same ↦
        newer-of t (latest (is_for l) rows) s same (latest-is_for rows)
          (some-inj (sym (latest-passes (is_for l) t rows same) ∙ h))
    | inr other ↦ latest-is_for rows s (sym (latest-skips (is_for l) t rows other) ∙ h)
  ]

  pub read-update_row :
      (rows : List (Snapshot A D)) (s : Snapshot A D)
      → IsUnique rows
      → latest (is_for l) rows ≡ some s
      → latest (is_for l) (update_row l payload now rows) ≡ some (refreshed l payload now s)
  unfolding update_row refreshed latest
  read-update_row [] s u h = absurd (none-not-some h)
  read-update_row (t ∷ rows) s u h = elim (Bool-cases (is_for l t.lookup)) [
    | inl same ↦
        let alone = sym (any-same l t.lookup rows same) ∙ u.0 in
        let is_s = some-inj (sym (latest-only t rows same alone) ∙ h) in
        rw same (
          latest-only (refreshed l payload now t) (update_row l payload now rows) same
            (any-update_row l rows ∙ alone)
          ∙ ap (λ z. some (refreshed l payload now z)) is_s)
    | inr other ↦ rw other (
        latest-skips (is_for l) t (update_row l payload now rows) other
        ∙ read-update_row rows s u.1 (sym (latest-skips (is_for l) t rows other) ∙ h))
  ]

  pub latest-append :
      (p : Lookup → Bool) (rows : List (Snapshot A D)) (s : Snapshot A D)
      → latest p rows ≡ none
      → p s.lookup ≡ true
      → latest p (rows ++ s ∷ []) ≡ some s
  unfolding newer latest
  latest-append p [] s h k = latest-passes p s [] k
  latest-append p (t ∷ rows) s h k = elim (Bool-cases (p t.lookup)) [
    | inl same ↦ absurd (none-not-some (sym h ∙ latest-passes p t rows same))
    | inr other ↦
        latest-skips p t (rows ++ s ∷ []) other
        ∙ latest-append p rows s (sym (latest-skips p t rows other) ∙ h) k
  ]

  pub latest-append_other :
      (p : Lookup → Bool) (rows : List (Snapshot A D)) (s : Snapshot A D)
      → p s.lookup ≡ false
      → latest p (rows ++ s ∷ []) ≡ latest p rows
  latest-append_other p [] s k = latest-skips p s [] k
  latest-append_other p (t ∷ rows) s k = elim (Bool-cases (p t.lookup)) [
    | inl same ↦
        latest-passes p t (rows ++ s ∷ []) same
        ∙ ap (λ o. some (newer t o)) (latest-append_other p rows s k)
        ∙ sym (latest-passes p t rows same)
    | inr other ↦
        latest-skips p t (rows ++ s ∷ []) other
        ∙ latest-append_other p rows s k
        ∙ sym (latest-skips p t rows other)
  ]

  -- A row of another key is read as before.
  pub latest-update_row_other :
      (m : Lookup) (rows : List (Snapshot A D))
      → is_for m l ≡ false
      → latest (is_for m) (update_row l payload now rows) ≡ latest (is_for m) rows
  unfolding update_row refreshed latest
  latest-update_row_other m [] h = refl
  latest-update_row_other m (t ∷ rows) h = elim (Bool-cases (is_for l t.lookup)) [
    | inl same ↦
        let other : is_for m t.lookup ≡ false = (is_for_same l t.lookup m same).0 ∙ h in
        rw same (
          latest-skips (is_for m) (refreshed l payload now t) (update_row l payload now rows) other
          ∙ latest-update_row_other m rows h
          ∙ sym (latest-skips (is_for m) t rows other))
    | inr kept ↦ rw (kept, latest-update_row_other m rows h)
  ]
