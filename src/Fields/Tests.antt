-- ===== src/Fields/Tests.antt =====
-- Minutes on from the end of a day, of a year and of the century.
use ubersdr_ntp.Prelude.{◌≡◌, refl, true, arith}
use ubersdr_ntp.Prelude.Int.{pos, ◌+ℤ◌, ◌-ℤ◌, ◌*ℤ◌, ◌/ℤ◌, ◌%ℤ◌}
use ubersdr_ntp.Fields.{
  is_leap_year2, year_days, sum_years, minutes_since_2000, wrap_years, advance_minutes,
  is_range_valid, in_range,
}
use ubersdr_ntp.Fields.Days.{fields}
use ubersdr_ntp.Fields.Advance.{century_minutes, minutes_since_2000-advance_minutes}

steps : Unit {0}
unfolding is_leap_year2 year_days sum_years minutes_since_2000 wrap_years advance_minutes
    is_range_valid in_range ◌+ℤ◌ ◌-ℤ◌ ◌*ℤ◌ ◌/ℤ◌ ◌%ℤ◌
steps = tt

leap_year_end : advance_minutes (fields 58 23 366 24) (pos 3) ≡ fields 1 0 1 25
unfolding steps
leap_year_end = refl

century_end : advance_minutes (fields 59 23 365 99) (pos 1) ≡ fields 0 0 1 0
unfolding steps
century_end = refl

minutes_since_2000-advance_minutes_example :
    (minutes_since_2000 (advance_minutes (fields 58 23 366 24) (pos 3))
      ≡ (minutes_since_2000 (fields 58 23 366 24) +ℤ pos 3) %ℤ pos century_minutes)
    × (is_range_valid (advance_minutes (fields 58 23 366 24) (pos 3)) ≡ true)
minutes_since_2000-advance_minutes_example =
    minutes_since_2000-advance_minutes 3 58 23 366 24 (omega arith)
