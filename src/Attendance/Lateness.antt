-- ===== src/Attendance/Lateness.antt =====
-- The shift-aware late rule of reporting-api/app/repositories.py, in Python (`_is_late_time`) and as
-- the SQL expression of `_late_sql`, with the semantics of CASE. Times of day are in microseconds.
use ntu_cloud_native.Prelude.{
  ℕ, ◌+◌, ◌*◌, Bool, false, ◌&&◌, List, [], ◌∷◌, ◌≡◌, arith, ltb, leb, any, if◌then◌else◌,
}
use ntu_cloud_native.Timestamp.{clock, minute}

unfoldable pub is_late_time : ℕ → Bool
is_late_time t =
    if leb (clock 17 15) t && ltb t (clock 23 0)
    then ltb (clock 19 45) t
    else if leb (clock 23 0) t
    then false
    else if ltb t (clock 3 45)
    then ltb (clock 0 15) t
    else if ltb t (clock 8 15)
    then ltb (clock 7 45) t
    else if ltb t (clock 12 0)
    then ltb (clock 9 15) t
    else ltb (clock 15 15) t

-- The conditions on `(col)::time` that the generated SQL is made of.
pub data Condition : Type 0 where
  at_least below later_than : ℕ → Condition
  both : Condition → Condition → Condition
  never : Condition

abbrev pub holds : Condition → ℕ → Bool
holds (at_least u) t = leb u t
holds (below u) t = ltb t u
holds (later_than u) t = ltb u t
holds (both c d) t = holds c t && holds d t
holds never t = false

-- `CASE WHEN … THEN … … ELSE … END`: the first condition that holds decides.
abbrev pub eval_case : List (Condition × Condition) → Condition → ℕ → Bool
eval_case [] otherwise t = holds otherwise t
eval_case ((test, result) ∷ whens) otherwise t =
    if holds test t then holds result t else eval_case whens otherwise t

-- `_late_sql`, on a time of day.
unfoldable pub late_sql : ℕ → Bool
late_sql =
    eval_case
      ((both (at_least (clock 17 15)) (below (clock 23 0)), later_than (clock 19 45))
        ∷ (at_least (clock 23 0), never)
        ∷ (below (clock 3 45), later_than (clock 0 15))
        ∷ (below (clock 8 15), later_than (clock 7 45))
        ∷ (below (clock 12 0), later_than (clock 9 15))
        ∷ [])
      (later_than (clock 15 15))

-- The SQL expression says of every time of day what the Python rule says.
pub late_sql-eq-is_late_time : (t : ℕ) → late_sql t ≡ is_late_time t
unfolding late_sql is_late_time
late_sql-eq-is_late_time t = ground arith

-- A shift: when it starts, and the arrivals that belong to it.
pub record Shift : Type 0 where
  pub starts : ℕ
  pub from : ℕ
  pub until : ℕ

-- The shifts of the comment above the rule. Arrivals at the graveyard shift before midnight are
-- early, so that its window begins at 0:00.
abbrev pub shifts : List Shift
shifts =
    record { starts = clock 19 30; from = clock 17 15; until = clock 23 0 }
    ∷ record { starts = clock 0 0; from = clock 0 0; until = clock 3 45 }
    ∷ record { starts = clock 7 30; from = clock 3 45; until = clock 8 15 }
    ∷ record { starts = clock 9 0; from = clock 8 15; until = clock 12 0 }
    ∷ record { starts = clock 15 0; from = clock 12 0; until = clock 17 15 }
    ∷ []

abbrev pub belongs_late : ℕ → Shift → Bool
belongs_late t s = leb s.from t && ltb t s.until && ltb (s.starts + 15 * minute) t

-- An arrival is late exactly when it comes more than 15 minutes after the start of the shift in
-- whose window it falls.
pub is_late_time_iff_late_for_shift : (t : ℕ) → is_late_time t ≡ any (belongs_late t) shifts
unfolding is_late_time
is_late_time_iff_late_for_shift t = ground arith
