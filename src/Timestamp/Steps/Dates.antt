-- ===== src/Timestamp/Steps/Dates.antt =====
-- The date check against the Gregorian calendar.
use eestv_lib.Common.{
  ℕ, zero, suc, ◌+◌, ◌/◌, ◌%◌, ◌≤◌, ◌<◌, ◌≡◌, ◌≢◌, refl, Bool, not, ◌&&◌, ◌||◌, some, none, arith,
  leb, ◌==◌, if◌then◌else◌,
}
use eestv_lib.Common.Int.{ℤ, divisible}
use eestv_lib.Common.Text.{Text}
use eestv_lib.Timestamp.{DateAndTime, is_leap_year, max_day_in_month}
use eestv_lib.Timestamp.Steps.{date_validator}

-- The months alternate between 31 and 30 days, starting anew with August, and February has 28 or 29.
abbrev pub calendar_days : ℕ → Bool → ℕ
calendar_days month leap_year =
    if month == 2 then (if leap_year then 29 else 28) else 30 + (month + month / 8) % 2

max_day-calendar :
    (m : ℕ) (leap_year : Bool)
    → 1 ≤ m
    → m ≤ 12
    → max_day_in_month m leap_year ≡ calendar_days m leap_year
unfolding max_day_in_month
max_day-calendar zero leap_year h k = absurd (omega arith)
max_day-calendar (suc zero) leap_year h k = refl
max_day-calendar (suc (suc zero)) leap_year h k = refl
max_day-calendar (suc (suc (suc zero))) leap_year h k = refl
max_day-calendar (suc (suc (suc (suc zero)))) leap_year h k = refl
max_day-calendar (suc (suc (suc (suc (suc zero))))) leap_year h k = refl
max_day-calendar (suc (suc (suc (suc (suc (suc zero)))))) leap_year h k = refl
max_day-calendar (suc (suc (suc (suc (suc (suc (suc zero))))))) leap_year h k = refl
max_day-calendar (suc (suc (suc (suc (suc (suc (suc (suc zero)))))))) leap_year h k = refl
max_day-calendar (suc (suc (suc (suc (suc (suc (suc (suc (suc zero))))))))) leap_year h k = refl
max_day-calendar (suc (suc (suc (suc (suc (suc (suc (suc (suc (suc zero)))))))))) leap_year h k =
    refl
max_day-calendar (suc (suc (suc (suc (suc (suc (suc (suc (suc (suc (suc zero))))))))))) leap_year h
      k =
    refl
max_day-calendar (suc (suc (suc (suc (suc (suc (suc (suc (suc (suc (suc (suc zero))))))))))))
      leap_year h k =
    refl
max_day-calendar (suc (suc (suc (suc (suc (suc (suc (suc (suc (suc (suc (suc (suc m)))))))))))))
      leap_year h k =
    absurd (omega arith)

max_day-none : (m : ℕ) (leap_year : Bool) → 12 < m → max_day_in_month m leap_year ≡ 0
unfolding max_day_in_month
max_day-none m leap_year h = ground arith

-- A year is a leap year if it is divisible by 4, and by 400 if by 100.
abbrev pub gregorian_leap : ℤ → Bool
gregorian_leap year = divisible year 4 && (not (divisible year 100) || divisible year 400)

leap-gregorian : (year : ℤ) → is_leap_year year ≡ gregorian_leap year
unfolding is_leap_year
leap-gregorian year = ground arith

-- Once a month and a day are known, the check passes exactly the days of the Gregorian calendar, and
-- changes nothing; a format without a year takes every year for a leap year.
pub date_validator-calendar :
    (has_year : Bool) (t : Text) (i : ℤ) (d : DateAndTime)
    → d.month ≢ 0
    → d.day ≢ 0
    → date_validator has_year t i d ≡ (
        if leb d.month 12
          && leb d.day (calendar_days d.month (not has_year || gregorian_leap d.year))
        then some (0, d)
        else none)
unfolding date_validator
date_validator-calendar has_year t i d m n = ground (
  arith,
  leap-gregorian d.year,
  max_day-calendar d.month (not has_year || is_leap_year d.year),
  max_day-none d.month (not has_year || is_leap_year d.year),
)
