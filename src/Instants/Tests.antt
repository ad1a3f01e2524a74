-- ===== src/Instants/Tests.antt =====
-- The instant functions in 2016, on the day of a leap second.
use ubersdr_ntp.Prelude.{◌+◌, ◌≡◌, ◌↔◌, refl, true}
use ubersdr_ntp.Prelude.Int.{ℤ, pos, ◌+ℤ◌, ◌-ℤ◌, ◌*ℤ◌, ◌/ℤ◌, ◌%ℤ◌}
use ubersdr_ntp.Civil.{
  era, in_era, march_day, era_year_start, days_from_civil, year_of_era, month_of, day_of,
  civil_of_era, civil_from_days,
}
use ubersdr_ntp.Civil.Calendar.{days_in_month}
use ubersdr_ntp.Fields.Days.{fields}
use ubersdr_ntp.Instants.{
  floor_div, floor_mod, utc_ms_from_fields, host_now_fields, is_last_day_of_month,
}
use ubersdr_ntp.Instants.LastDay.{date_at, is_last_day_of_month_iff}

functions : Unit {0}
unfolding era in_era march_day era_year_start days_from_civil year_of_era month_of day_of
    civil_of_era civil_from_days floor_div floor_mod utc_ms_from_fields host_now_fields
    is_last_day_of_month ◌+ℤ◌ ◌-ℤ◌ ◌*ℤ◌ ◌/ℤ◌ ◌%ℤ◌
functions = tt

-- 2016-12-31T23:59:59.250Z.
abbrev leap_eve : ℤ
leap_eve = pos 1483228799250

leap_eve-fields : host_now_fields leap_eve ≡ fields 59 23 366 16
unfolding functions
leap_eve-fields = refl

leap_eve_last : is_last_day_of_month leap_eve ≡ true
unfolding functions
leap_eve_last = refl

leap_eve_year : (date_at leap_eve).year ≡ pos (2000 + 16)
unfolding functions
leap_eve_year = refl

is_last_day_of_month_iff_example :
    (is_last_day_of_month leap_eve ≡ true)
    ↔ ((date_at leap_eve).day ≡ days_in_month (date_at leap_eve).year (date_at leap_eve).month)
is_last_day_of_month_iff_example = is_last_day_of_month_iff leap_eve
