-- ===== src/GoTime.antt =====
-- The part of Go's package time that the program uses, for times in UTC. A `Time` counts the
-- nanoseconds from 0000-01-01T00:00:00Z, the day of a time parsed from "15:04"; Go's zero time,
-- year 1, is a year of 366 days later. A `Duration` is an int64 of nanoseconds.
use maintenance_controller.Base.{
  ℕ, ◌+◌, ◌-◌, ◌*◌, ◌/◌, ◌%◌, ◌≡◌, refl, Bool, ◌&&◌, ltb, leb, ◌==◌, if◌then◌else◌,
}
use maintenance_controller.Base.Int.{ℤ, pos, negsuc, pos_part, neg_part, sub_ℕ, ◌-ℤ◌}

abbrev pub Time : Type 0
Time = ℕ

abbrev pub Duration : Type 0
Duration = ℤ

abbrev pub second : ℕ
second = 1_000_000_000

abbrev pub day : ℕ
day = 86_400_000_000_000

abbrev pub zero_time : Time
zero_time = 31_622_400_000_000_000

abbrev pub is_zero : Time → Bool
is_zero t = t == zero_time

-- t.After(u) and t.Before(u)
abbrev pub after : Time → Time → Bool
after t u = ltb u t

abbrev pub before : Time → Time → Bool
before t u = ltb t u

-- The bounds of an int64, and the value that overflow leaves.
abbrev pub int64_half : ℕ
int64_half = 9_223_372_036_854_775_808

abbrev pub residue : ℤ → ℕ
residue z = (pos_part z + (2 * int64_half - neg_part z % (2 * int64_half))) % (2 * int64_half)

unfoldable pub wrap_int64 : ℤ → ℤ
wrap_int64 z =
    if ltb (residue z) int64_half then pos (residue z) else sub_ℕ (residue z) (2 * int64_half)

-- t.Sub(u) saturates.
unfoldable pub sub_time : Time → Time → Duration
sub_time t u =
    if leb u t
    then (if ltb (t - u) int64_half then pos (t - u) else pos (int64_half - 1))
    else if ltb int64_half (u - t)
    then negsuc (int64_half - 1)
    else negsuc (u - t - 1)

abbrev pub day_number : Time → ℕ
day_number t = t / day

-- The time of day, which Clock, Hour, Minute, Second and Nanosecond take apart.
abbrev pub time_of_day : Time → ℕ
time_of_day t = t % day

-- Hour, minute and second of the day, in nanoseconds: t.Clock() without the nanoseconds.
abbrev pub clock_of_day : Time → ℕ
clock_of_day t = time_of_day t / second * second

-- time.Sunday is 0. Day 0 is a Saturday.
unfoldable pub weekday : Time → ℕ
weekday t = (day_number t + 6) % 7

-- time.Date(at.Year(), at.Month(), at.Day(), t.Hour(), …, t.Nanosecond(), time.UTC)
abbrev pub on_day_of : Time → Time → Time
on_day_of at t = day_number at * day + time_of_day t

pub record Date : Type 0 where
  pub year : ℕ
  pub month : ℕ
  pub day_of_month : ℕ

-- The proleptic Gregorian calendar, by years that begin in March. An era has 400 years, and the
-- count starts an era early so that it never falls below 0.
abbrev era_days : ℕ
era_days = 146_097

abbrev year_of_era : ℕ → ℕ
year_of_era doe = (doe - doe / 1460 + doe / 36_524 - doe / 146_096) / 365

abbrev day_of_year : ℕ → ℕ
day_of_year doe = let yoe = year_of_era doe in doe - (365 * yoe + yoe / 4 - yoe / 100)

civil_of_year : ℕ → ℕ → Date
civil_of_year year doy =
    let mp = (5 * doy + 2) / 153 in
    record {
      year = if ltb mp 10 then year - 400 else year - 399;
      month = if ltb mp 10 then mp + 3 else mp - 9;
      day_of_month = doy - (153 * mp + 2) / 5 + 1;
    }

unfoldable pub civil : ℕ → Date
unfolding civil_of_year
civil days =
    let z = days + era_days - 60 in
    civil_of_year (z / era_days * 400 + year_of_era (z % era_days)) (day_of_year (z % era_days))

-- t.Date()
unfoldable pub date : Time → Date
unfolding civil
date t = civil (day_number t)

abbrev pub same_date : Date → Date → Bool
same_date a b = a.year == b.year && (a.month == b.month && a.day_of_month == b.day_of_month)

leap_day : date (739_310 * day) ≡ record { year = 2024; month = 2; day_of_month = 29 }
unfolding date
leap_day = refl

unix_epoch : date (719_528 * day) ≡ record { year = 1970; month = 1; day_of_month = 1 }
unfolding date
unix_epoch = refl

pub zero_date : date zero_time ≡ record { year = 1; month = 1; day_of_month = 1 }
unfolding date
zero_date = refl

unix_epoch_weekday : weekday (719_528 * day) ≡ 4
unfolding weekday
unix_epoch_weekday = refl

wrapped_minimum : wrap_int64 (negsuc (int64_half - 1) -ℤ pos 1) ≡ pos (int64_half - 1)
unfolding wrap_int64 ◌-ℤ◌
wrapped_minimum = refl
