-- ===== src/Calendar/Months.antt =====
-- What `_subtract_months` returns.
use ntu_cloud_native.Calendar.{IsDate, Date, month_length, subtract_months, borrow_years}
use ntu_cloud_native.Prelude.{ℕ, zero, suc, ◌+◌, ◌-◌, ◌*◌, ◌≤◌, ◌<◌, ◌≡◌, refl, arith, min}

borrow_years_lem :
    (fuel months year month : ℕ)
    → months < month + 12 * fuel
    → months < 12 * year + month
    → 1 ≤ month
    → month ≤ months + 12
    → (12 * (borrow_years fuel months year month).0 + (borrow_years fuel months year month).1
        ≡ 12 * year + month)
      × (months < (borrow_years fuel months year month).1)
      × ((borrow_years fuel months year month).1 ≤ months + 12)
unfolding borrow_years
borrow_years_lem zero months year month fuel_left enough pos small = omega arith
borrow_years_lem (suc fuel) months year month fuel_left enough pos small =
    ground (arith, borrow_years_lem fuel months (year - 1) (month + 12))

month_length_pos : (y m : ℕ) → 1 ≤ month_length y m
unfolding month_length
month_length_pos y m = ground arith

-- A date that the calendar has enough months before is taken to the date that many months earlier: the same day, or the last of its month where that is shorter.
pub subtract_months-IsDate :
    (d : Date) (months : ℕ)
    → IsDate d
    → months < 12 * d.year + d.month
    → IsDate (subtract_months d months)
      × (12 * (subtract_months d months).year + (subtract_months d months).month + months
          ≡ 12 * d.year + d.month)
      × ((subtract_months d months).day
          ≡ min d.day
              (month_length (subtract_months d months).year (subtract_months d months).month))
unfolding subtract_months
subtract_months-IsDate d months v enough =
    let left =
      borrow_years_lem months months d.year d.month (omega (arith, v.month_ge_one)) enough
        v.month_ge_one (omega (arith, v.month_le)) in
    let kept = borrow_years months months d.year d.month in
    let long = month_length_pos kept.0 (kept.1 - months) in
    (
      record {
        month_ge_one = omega (arith, left.1);
        month_le = omega (arith, left.2);
        day_ge_one = omega (arith, v.day_ge_one, long);
        day_le = omega arith;
      },
      omega (arith, left.0, left.1),
      refl,
    )
