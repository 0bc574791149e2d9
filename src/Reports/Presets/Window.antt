-- ===== src/Reports/Presets/Window.antt =====
-- What the windows of the presets cover.
use ntu_cloud_native.Reports.Presets.{
  window_of, precompute_presets, resolve_preset_window, preset_from_date,
}
use ntu_cloud_native.Prelude.{
  ap, ℕ, ◌+◌, ◌-◌, ◌*◌, ◌%◌, ◌≤◌, ◌<◌, String, true, some, contains, ◌==◌, string_eq, ◌≡◌, refl,
  arith, Bool-cases, inl, inr,
}
use ntu_cloud_native.Timestamp.{Timestamp, local_date, day, clock, second}
use ntu_cloud_native.Calendar.{Date, date_of, day_number, subtract_months}
use ntu_cloud_native.Calendar.Ordinal.{day_number-date_of, day_number_mono}
use ntu_cloud_native.Calendar.Months.{subtract_months-IsDate}
use ntu_cloud_native.Result.{ok}

-- The first of a month is not after a day of it.
first_of_month-le :
    (d : Date)
    → 1 ≤ d.day
    → day_number (record { year = d.year; month = d.month; day = 1 }) ≤ day_number d
unfolding day_number
first_of_month-le d h = omega arith

three_months_before :
    (n : ℕ) → 2 ≤ (date_of n).year → day_number (subtract_months (date_of n) 3) ≤ n
three_months_before n late =
    let d = date_of n in
    let here = day_number-date_of n in
    let there = subtract_months-IsDate d 3 here.0 (omega arith) in
    let earlier =
      day_number_mono (subtract_months d 3) d there.0 here.0
        (omega (arith, there.1, there.0.month_le, here.0.month_ge_one)) (omega (arith, there.1)) in
    omega (arith, earlier, here.1)

-- A preset of the list has a first day, which is not after today.
preset_from_date-le :
    (preset : String) (today : ℕ)
    → contains precompute_presets preset ≡ true
    → 2 ≤ (date_of today).year
    → (from : ℕ) × (preset_from_date preset today ≡ some from) × (from ≤ today)
unfolding preset_from_date
preset_from_date-le preset today known late = elim (Bool-cases (preset == "today")) [
  | inl a ↦ (today, rw a refl, omega arith)
  | inr a ↦ elim (Bool-cases (preset == "last3d")) [
    | inl b ↦ (today - 3, rw (a, b) refl, omega arith)
    | inr b ↦ elim (Bool-cases (preset == "last7d")) [
      | inl c ↦ (today - 7, rw (a, b, c) refl, omega arith)
      | inr c ↦ elim (Bool-cases (preset == "thisMonth")) [
        | inl d ↦ (
          day_number
              (record { year = (date_of today).year; month = (date_of today).month; day = 1 }),
          rw (a, b, c, d) refl,
          omega (
            arith,
            first_of_month-le (date_of today) (day_number-date_of today).0.day_ge_one,
            (day_number-date_of today).1,
          ),
        )
        | inr d ↦
            let last : (preset == "last3m") ≡ true = ground arith in
            (
              day_number (subtract_months (date_of today) 3),
              rw (a, b, c, d, last) refl,
              three_months_before today late,
            )
      ]
    ]
  ]
]

-- From the second year on, the window of each preset that is computed ahead begins at a midnight not after the given time and ends with the last second of its day.
pub resolve_preset_window_covers :
    (preset : String) (now : Timestamp)
    → contains precompute_presets preset ≡ true
    → 2 ≤ (date_of (local_date now)).year
    → (window : Timestamp × Timestamp) × (resolve_preset_window preset now ≡ ok window)
      × (window.0 % day ≡ 0)
      × (window.0 ≤ now)
      × (now < window.1 + second)
      × (local_date window.1 ≡ local_date now)
unfolding resolve_preset_window
resolve_preset_window_covers preset now known late =
    let today = local_date now in
    let (from, e, le) = preset_from_date-le preset today known late in
    (
      (from * day, today * day + clock 23 59 + 59 * second),
      ap (λ o. window_of o today) e,
      omega arith,
      omega arith,
      omega arith,
      omega arith,
    )
