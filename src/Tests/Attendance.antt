-- ===== src/Tests/Attendance.antt =====
-- The late rule and the gate match at concrete inputs.
use ntu_cloud_native.Prelude.{ℕ, true, false, some, List, [], ◌∷◌, ◌++◌, ◌≡◌, refl, arith, any, ◌↔◌}
use ntu_cloud_native.Timestamp.{clock}
use ntu_cloud_native.Attendance.Lateness.{
  is_late_time, late_sql, late_sql-eq-is_late_time, is_late_time_iff_late_for_shift, belongs_late,
  shifts,
}
use ntu_cloud_native.Attendance.Gate.{
  gate_matches_main, Like, done, run_goes, run_ends, same, OneLine, newline, gate_matches_main_iff,
  gate_matches_main-newline,
}

-- 9:16 is late for the shift of 9:00, 19:45 is not for that of 19:30.
late_at_nine : is_late_time (clock 9 16) ≡ true
unfolding is_late_time
late_at_nine = refl

on_time_for_late_shift : is_late_time (clock 19 45) ≡ false
unfolding is_late_time
on_time_for_late_shift = refl

late_sql-eq-is_late_time_example : late_sql (clock 9 16) ≡ is_late_time (clock 9 16)
late_sql-eq-is_late_time_example = late_sql-eq-is_late_time (clock 9 16)

is_late_time_iff_late_for_shift_example :
    is_late_time (clock 9 16) ≡ any (belongs_late (clock 9 16)) shifts
is_late_time_iff_late_for_shift_example = is_late_time_iff_late_for_shift (clock 9 16)

abbrev pattern_a : List ℕ
pattern_a = b'%' ∷ b'A' ∷ []

abbrev gate_a : List ℕ
gate_a = b'1' ∷ b'A' ∷ []

gate_a-OneLine : OneLine gate_a
gate_a-OneLine = (omega arith, (omega arith, tt))

gate_a-Like : Like pattern_a gate_a
gate_a-Like = run_goes b'1' refl (run_ends refl (same b'A' (omega arith) (omega arith) refl done))

gate_matches_main_iff_example :
    (gate_matches_main pattern_a (some gate_a) ≡ true) ↔ Like pattern_a gate_a
gate_matches_main_iff_example = gate_matches_main_iff pattern_a gate_a gate_a-OneLine

gate_matches_main-newline_example :
    (gate_matches_main pattern_a (some (gate_a ++ newline ∷ [])) ≡ true)
    × (¬ Like pattern_a (gate_a ++ newline ∷ []))
gate_matches_main-newline_example =
    gate_matches_main-newline pattern_a gate_a gate_a-OneLine gate_a-Like (omega arith)
      (omega arith) (omega arith)
