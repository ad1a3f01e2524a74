-- ===== src/Civil/Tests.antt =====
-- The conversions at the Unix epoch, a leap day and the eve of 2000.
use ubersdr_ntp.Prelude.{◌≡◌, refl, arith}
use ubersdr_ntp.Prelude.Int.{pos, negsuc, ◌+ℤ◌, ◌-ℤ◌, ◌*ℤ◌, ◌/ℤ◌}
use ubersdr_ntp.Civil.{
  era, in_era, march_day, era_year_start, days_from_civil, year_of_era, month_of, day_of,
  civil_of_era, civil_from_days,
}
use ubersdr_ntp.Civil.Calendar.{is_leap, IsDate, date, next_day, day_number}
use ubersdr_ntp.Civil.RoundTrip.{day_number-civil_from_days, civil_from_days-day_number}
use ubersdr_ntp.Civil.NextDay.{civil_from_days-next_day}

conversions : Unit {0}
unfolding era in_era march_day era_year_start days_from_civil year_of_era month_of day_of
    civil_of_era civil_from_days is_leap ◌+ℤ◌ ◌-ℤ◌ ◌*ℤ◌ ◌/ℤ◌
conversions = tt

epoch : civil_from_days (pos 0) ≡ date (pos 1970) 1 1
unfolding conversions
epoch = refl

before_epoch : civil_from_days (negsuc 0) ≡ date (pos 1969) 12 31
unfolding conversions
before_epoch = refl

civil_from_days-next_day_example :
    civil_from_days (pos 10956 +ℤ pos 1) ≡ next_day (civil_from_days (pos 10956))
civil_from_days-next_day_example = civil_from_days-next_day (pos 10956)

day_number-civil_from_days_example : day_number (civil_from_days (negsuc 800000)) ≡ negsuc 800000
day_number-civil_from_days_example = day_number-civil_from_days (negsuc 800000)

leap_day-IsDate : IsDate (date (pos 2000) 2 29)
unfolding is_leap
leap_day-IsDate = omega arith

civil_from_days-day_number_example :
    civil_from_days (day_number (date (pos 2000) 2 29)) ≡ date (pos 2000) 2 29
civil_from_days-day_number_example =
    civil_from_days-day_number (date (pos 2000) 2 29) leap_day-IsDate
