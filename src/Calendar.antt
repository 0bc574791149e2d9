-- ===== src/Calendar.antt =====
-- Python's `date` and `calendar.monthrange`, as far as reporting-api/app/repositories.py uses them:
-- the calendar date of a count of days since 0001-01-01, and the months before a date.
pub mod Ordinal
pub mod Months
use ntu_cloud_native.Prelude.{
  ℕ, zero, suc, ◌+◌, ◌-◌, ◌*◌, ◌/◌, ◌%◌, ◌≤◌, Bool, ◌&&◌, ◌||◌, not, min, eqb, ltb, leb,
  if◌then◌else◌,
}

pub record Date : Type 0 where
  pub year : ℕ
  pub month : ℕ
  pub day : ℕ

abbrev pub is_leap : ℕ → Bool
is_leap y = eqb (y % 4) 0 && (not (eqb (y % 100) 0) || eqb (y % 400) 0)

-- `monthrange(year, month)[1]`
unfoldable pub month_length : ℕ → ℕ → ℕ
month_length y m =
    if eqb m 2
    then (if is_leap y then 29 else 28)
    else if eqb m 4 || eqb m 6 || eqb m 9 || eqb m 11
    then 30
    else 31

unfoldable pub year_length : ℕ → ℕ
year_length y = if is_leap y then 366 else 365

-- The year of a day, counted from the first day of a year on, and the day in it.
unfoldable pub find_year : ℕ → ℕ → ℕ → ℕ × ℕ
unfolding year_length
find_year zero y n = (y, n)
find_year (suc fuel) y n =
    let rest = find_year fuel (y + 1) (n - year_length y) in
    if ltb n (year_length y) then (y, n) else rest

unfoldable pub find_month : ℕ → ℕ → ℕ → ℕ → ℕ × ℕ
unfolding month_length
find_month zero y m n = (m, n)
find_month (suc fuel) y m n =
    let rest = find_month fuel y (m + 1) (n - month_length y m) in
    if ltb n (month_length y m) then (m, n) else rest

-- `date.fromordinal` of the count plus one. A year has at least 365 days, so that the count of days
-- is fuel enough, and a year has 12 months.
unfoldable pub date_of : ℕ → Date
date_of n =
    let in_year = find_year n 1 n in
    let in_month = find_month 12 in_year.0 1 in_year.1 in
    record { year = in_year.0; month = in_month.0; day = in_month.1 + 1 }

-- The days before a year, and before a month of it.
unfoldable pub days_before_year : ℕ → ℕ
unfolding year_length
days_before_year zero = 0
days_before_year (suc y) = days_before_year y + (if eqb y 0 then 0 else year_length y)

unfoldable pub days_before_month : ℕ → ℕ → ℕ
unfolding month_length
days_before_month y zero = 0
days_before_month y (suc m) = days_before_month y m + (if eqb m 0 then 0 else month_length y m)

unfoldable pub day_number : Date → ℕ
day_number d = days_before_year d.year + days_before_month d.year d.month + (d.day - 1)

-- A date of the calendar.
pub record IsDate (d : Date) : Type 0 where
  pub month_ge_one : 1 ≤ d.month
  pub month_le : d.month ≤ 12
  pub day_ge_one : 1 ≤ d.day
  pub day_le : d.day ≤ month_length d.year d.month

-- The loop of `_subtract_months`, on a month that still has `months` to lose: what the code calls
-- `month` is `month - months`, an integer.
unfoldable pub borrow_years : ℕ → ℕ → ℕ → ℕ → ℕ × ℕ
borrow_years zero months year month = (year, month)
borrow_years (suc fuel) months year month =
    let rest = borrow_years fuel months (year - 1) (month + 12) in
    if leb month months then rest else (year, month)

-- `_subtract_months`; each round of the loop gains 12 months, so that `months` rounds are enough. A
-- year below 1, which `date` refuses, is 0 here.
unfoldable pub subtract_months : Date → ℕ → Date
subtract_months d months =
    let left = borrow_years months months d.year d.month in
    record {
      year = left.0;
      month = left.1 - months;
      day = min d.day (month_length left.0 (left.1 - months));
    }
