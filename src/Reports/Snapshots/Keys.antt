-- ===== src/Reports/Snapshots/Keys.antt =====
-- The unique key of the table `report_center_snapshots` of reporting-api/app/models.py, as
-- `_snapshot_filters` of reporting-api/app/repositories.py compares it.
use ntu_cloud_native.Reports.Snapshots.Store.{Lookup, is_for, Snapshot}
use ntu_cloud_native.Prelude.{
  inr, sym, ◌∙◌, inl, refl, nat_eq, none, string_eq, false≢true, ==_refl, [], some, eq_of_==, arith,
  false, Bool-cases, true, any, is_some, ◌||◌, ◌≡◌, ◌∷◌, Option, Bool, List,
}

-- Of each two rows, the keys of `uq_report_center_snapshots_lookup` differ.
abbrev pub IsUnique : {A D : Type 0} → List (Snapshot A D) → Type 0
IsUnique [] = Unit
IsUnique (s ∷ rows) = (any (λ t. is_for s.lookup t.lookup) rows ≡ false) × IsUnique rows

pub is_for_refl : (l : Lookup) → is_for l l ≡ true
unfolding is_for
is_for_refl l = ground (
  arith,
  ==_refl l.cache_user_key,
  ==_refl l.range_preset,
  ==_refl l.target_type,
  ==_refl l.target_id,
  ==_refl l.scope_hash,
  ==_refl l.preview_limit,
)

-- A row that is found has the key: it is found, and finds, as the lookup.
pub is_for_same :
    (l row m : Lookup)
    → is_for l row ≡ true
    → (is_for m row ≡ is_for m l) × (is_for row m ≡ is_for l m)
unfolding is_for
is_for_same l row m h =
    let p1 : row.cache_user_key ≡ l.cache_user_key =
      eq_of_== row.cache_user_key l.cache_user_key (ground arith) in
    let p2 : row.range_preset ≡ l.range_preset =
      eq_of_== row.range_preset l.range_preset (ground arith) in
    let p3 : row.target_type ≡ l.target_type =
      eq_of_== row.target_type l.target_type (ground arith) in
    let p4 : row.target_id ≡ l.target_id = eq_of_== row.target_id l.target_id (ground arith) in
    let p5 : row.scope_hash ≡ l.scope_hash = eq_of_== row.scope_hash l.scope_hash (ground arith) in
    let p6 : row.period_from ≡ l.period_from = ground arith in
    let p7 : row.period_to ≡ l.period_to = ground arith in
    let p8 : row.preview_limit ≡ l.preview_limit = ground arith in
    (rw (p1, p2, p3, p4, p5, p6, p7, p8), rw (p1, p2, p3, p4, p5, p6, p7, p8))

pub is_for_sym : (l m : Lookup) → is_for l m ≡ is_for m l
is_for_sym l m = elim (Bool-cases (is_for l m)) [
  | inl same ↦ same ∙ sym (is_for_refl m) ∙ (is_for_same l m m same).0
  | inr other ↦ elim (Bool-cases (is_for m l)) [
    | inl same ↦ absurd (false≢true (sym other ∙ (is_for_same m l m same).1 ∙ is_for_refl m))
    | inr neither ↦ other ∙ sym neither
  ]
]

pub or_left : (a b : Bool) → (a || b) ≡ false → a ≡ false
or_left a b h = ground arith

pub or_right : (a b : Bool) → (a || b) ≡ false → b ≡ false
or_right a b h = ground arith

pub some_of {ℓ} : {A : Type ℓ} (o : Option A) → is_some o ≡ true → (a : A) × (o ≡ some a)
some_of none h = absurd (false≢true h)
some_of (some a) h = (a, refl)
