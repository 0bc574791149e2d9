-- ===== src/Reports/Rounding.antt =====
-- `round(x, 2)` of the reports' quotients, in hundredths: the nearest one, a tie to the even one. The
-- quotient is exact here, where the program's is the nearest double.
use ntu_cloud_native.Prelude.{ℕ, ◌+◌, ◌*◌, ◌/◌, ◌%◌, Option, none, some, if◌then◌else◌, ltb, eqb}

abbrev nearest_even : ℕ → ℕ → ℕ → ℕ
nearest_even q r d = if ltb (2 * r) d then q else if ltb d (2 * r) then q + 1 else q + q % 2

-- `round(n / d, 2)`
unfoldable pub hundredths : ℕ → ℕ → ℕ
hundredths n d = nearest_even (100 * n / d) ((100 * n) % d) d

-- `round(n / d, 2) if d else None`
unfoldable pub rounded_quotient : ℕ → ℕ → Option ℕ
unfolding hundredths
rounded_quotient n d = if eqb d 0 then none else some (hundredths n d)
