-- ===== src/Reports/Presets.antt =====
-- The range presets of the report center and their windows: `normalize_report_center_range_preset`
-- and `resolve_report_center_preset_window` of reporting-api/app/repositories.py.
pub mod Window
use ntu_cloud_native.Prelude.{
  ℕ, ◌+◌, ◌-◌, ◌*◌, ◌≤◌, String, Bool, true, false, ◌||◌, ◌&&◌, Option, none, some, List, [], ◌∷◌,
  contains, if◌then◌else◌, ◌==◌, string_eq, ◌≡◌, arith, ◌/◌,
}
use ntu_cloud_native.Prelude.Text.{strip, is_empty}
use ntu_cloud_native.Timestamp.{Timestamp, local_date, day, clock, second}
use ntu_cloud_native.Calendar.{Date, date_of, day_number, subtract_months}
use ntu_cloud_native.Result.{Result, ok, err, value_error}

-- `REPORT_CENTER_PRECOMPUTE_PRESETS`
abbrev pub precompute_presets : List String
precompute_presets = "today" ∷ "last3d" ∷ "last7d" ∷ "thisMonth" ∷ "last3m" ∷ []

unfoldable pub normalize_preset : Option String → Option String
normalize_preset none = none
normalize_preset (some range_preset) =
    if is_empty range_preset
    then none
    else if contains precompute_presets (strip range_preset) || strip range_preset == "custom"
    then some (strip range_preset)
    else none

-- The first day of the window, from today.
unfoldable pub preset_from_date : String → ℕ → Option ℕ
preset_from_date range_preset today =
    if range_preset == "today"
    then some today
    else if range_preset == "last3d"
    then some (today - 3)
    else if range_preset == "last7d"
    then some (today - 7)
    else if range_preset == "thisMonth"
    then some (
        day_number (record { year = (date_of today).year; month = (date_of today).month; day = 1 }))
    else if range_preset == "last3m"
    then some (day_number (subtract_months (date_of today) 3))
    else none

unfoldable pub window_of : Option ℕ → ℕ → Result (Timestamp × Timestamp)
window_of none today = err value_error
window_of (some from) today = ok (from * day, today * day + clock 23 59 + 59 * second)

-- `resolve_report_center_preset_window` at the time `now`.
unfoldable pub resolve_preset_window : String → Timestamp → Result (Timestamp × Timestamp)
unfolding window_of
resolve_preset_window range_preset now =
    window_of (preset_from_date range_preset (local_date now)) (local_date now)
