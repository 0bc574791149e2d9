-- ===== src/Calendar/Ordinal.antt =====
-- The calendar date of a day number, and back.
use ntu_cloud_native.Calendar.{
  Date, IsDate, day_number, date_of, find_year, year_length, month_length, find_month,
  days_before_year, days_before_month,
}
use ntu_cloud_native.Prelude.{
  ap, ℕ, zero, suc, ◌+◌, ◌-◌, ◌*◌, ◌≤◌, ◌<◌, ◌≡◌, refl, arith, eqb, Bool-cases, inl, inr,
}

-- The days from a month on, for some months.
days_from : ℕ → ℕ → ℕ → ℕ
days_from zero y m = 0
days_from (suc k) y m = month_length y m + days_from k y (m + 1)

twelve_months : (y : ℕ) → days_from 12 y 1 ≡ year_length y
unfolding days_from month_length year_length
twelve_months y = ground arith

month_length_pos : (y m : ℕ) → 28 ≤ month_length y m
unfolding month_length
month_length_pos y m = ground arith

year_length_bounds : (y : ℕ) → (365 ≤ year_length y) × (year_length y ≤ 366)
unfolding year_length
year_length_bounds y = ground arith

days_before_year-step :
    (y : ℕ) → 1 ≤ y → days_before_year (y + 1) ≡ days_before_year y + year_length y
unfolding days_before_year
days_before_year-step zero h = ground arith
days_before_year-step (suc y) h = ground arith

days_before_month-step :
    (y m : ℕ) → 1 ≤ m → days_before_month y (m + 1) ≡ days_before_month y m + month_length y m
unfolding days_before_month
days_before_month-step y zero h = ground arith
days_before_month-step y (suc m) h = ground arith

find_year_lem :
    (fuel y n : ℕ)
    → n ≤ fuel
    → 1 ≤ y
    → (days_before_year (find_year fuel y n).0 + (find_year fuel y n).1 ≡ days_before_year y + n)
      × ((find_year fuel y n).1 < year_length (find_year fuel y n).0)
unfolding find_year
find_year_lem zero y n h k = (refl, omega (arith, year_length_bounds y))
find_year_lem (suc fuel) y n h k = ground (
  arith,
  year_length_bounds y,
  days_before_year-step y k,
  find_year_lem fuel (y + 1) (n - year_length y),
)

find_month_lem :
    (fuel y m n : ℕ)
    → n < days_from fuel y m
    → 1 ≤ m
    → (days_before_month y (find_month fuel y m n).0 + (find_month fuel y m n).1
        ≡ days_before_month y m + n)
      × ((find_month fuel y m n).1 < month_length y (find_month fuel y m n).0)
      × (m ≤ (find_month fuel y m n).0)
      × ((find_month fuel y m n).0 < m + fuel)
unfolding find_month days_from
find_month_lem zero y m n h k = absurd (omega arith)
find_month_lem (suc fuel) y m n h k =
    ground
      (arith, days_before_month-step y m k, find_month_lem fuel y (m + 1) (n - month_length y m))

first_year : days_before_year 1 ≡ 0
unfolding days_before_year
first_year = refl

first_month : (y : ℕ) → days_before_month y 1 ≡ 0
unfolding days_before_month
first_month y = refl

-- Every day number has a date of the calendar, and is the number of that date.
pub day_number-date_of : (n : ℕ) → IsDate (date_of n) × (day_number (date_of n) ≡ n)
unfolding date_of day_number
day_number-date_of n =
    let in_year = find_year n 1 n in
    let y = find_year_lem n 1 n (omega arith) (omega arith) in
    let m =
      find_month_lem 12 in_year.0 1 in_year.1 (omega (arith, y.1, twelve_months in_year.0))
        (omega arith) in
    (
      record {
        month_ge_one = m.2;
        month_le = omega (arith, m.3);
        day_ge_one = omega arith;
        day_le = omega (arith, m.1);
      },
      omega (arith, y.0, m.0, first_year, first_month in_year.0),
    )

add_zero : (n : ℕ) → n + 0 ≡ n
add_zero n = omega arith

add_suc : (n k : ℕ) → n + suc k ≡ n + k + 1
add_suc n k = omega arith

days_before_month-le : (y m k : ℕ) → 1 ≤ m → days_before_month y m ≤ days_before_month y (m + k)
days_before_month-le y m zero h = omega (arith, ap (λ j. days_before_month y j) (add_zero m))
days_before_month-le y m (suc k) h = omega (
  arith,
  days_before_month-le y m k h,
  days_before_month-step y (m + k) (omega arith),
  ap (λ j. days_before_month y j) (add_suc m k),
)

days_before_year-le : (y k : ℕ) → 1 ≤ y → days_before_year y ≤ days_before_year (y + k)
days_before_year-le y zero h = omega (arith, ap days_before_year (add_zero y))
days_before_year-le y (suc k) h = omega (
  arith,
  days_before_year-le y k h,
  days_before_year-step (y + k) (omega arith),
  ap days_before_year (add_suc y k),
)

whole_year : (y : ℕ) → days_before_month y 13 ≡ year_length y
unfolding days_before_month month_length year_length
whole_year y = ground arith

-- The last day of a month is before the first of a later month.
pub day_number_mono :
    (d' d : Date)
    → IsDate d'
    → IsDate d
    → 1 ≤ d'.year
    → 12 * d'.year + d'.month < 12 * d.year + d.month
    → day_number d' < day_number d
unfolding day_number
day_number_mono d' d v' v first before = elim (Bool-cases (eqb d'.year d.year)) [
  | inl same ↦
      let e : d'.year ≡ d.year = ground arith in
      let gap : d'.month + 1 + (d.month - (d'.month + 1)) ≡ d.month = omega arith in
      let step = days_before_month-step d'.year d'.month v'.month_ge_one in
      let later =
        days_before_month-le d'.year (d'.month + 1) (d.month - (d'.month + 1)) (omega arith) in
      omega (
        arith,
        v'.day_ge_one,
        v'.day_le,
        step,
        later,
        ap (λ m. days_before_month d'.year m) gap,
        ap (λ y. days_before_month y d.month) e,
        ap days_before_year e,
      )
  | inr other ↦
      let less : d'.year + 1 ≤ d.year = ground (arith, v'.month_ge_one, v.month_le, v'.month_le) in
      let gap : d'.year + 1 + (d.year - (d'.year + 1)) ≡ d.year = omega arith in
      let step = days_before_month-step d'.year d'.month v'.month_ge_one in
      let months : d'.month + 1 + (12 - d'.month) ≡ 13 = omega (arith, v'.month_le) in
      let later = days_before_month-le d'.year (d'.month + 1) (12 - d'.month) (omega arith) in
      let years = days_before_year-le (d'.year + 1) (d.year - (d'.year + 1)) (omega arith) in
      omega (
        arith,
        v'.day_ge_one,
        v'.day_le,
        step,
        later,
        ap (λ m. days_before_month d'.year m) months,
        whole_year d'.year,
        days_before_year-step d'.year first,
        years,
        ap days_before_year gap,
      )
]
