-- ===== src/Labeler/Tests.antt =====
-- The labeler at the leap second before January 1st 2017.
use ubersdr_ntp.Prelude.{◌≡◌, refl, true, false}
use ubersdr_ntp.Prelude.Int.{pos, ◌+ℤ◌, ◌-ℤ◌, ◌*ℤ◌, ◌/ℤ◌, ◌%ℤ◌}
use ubersdr_ntp.Civil.{
  era, in_era, era_year_start, year_of_era, month_of, day_of, civil_of_era, civil_from_days,
}
use ubersdr_ntp.Instants.{floor_div, floor_mod, is_last_day_of_month}
use ubersdr_ntp.Labeler.{PpsLabeler, expected, is_armed, is_expected, count_on, next, new_labeler}
use ubersdr_ntp.Labeler.Leaps.{MayLeap, next-MayLeap}

methods : Unit {0}
unfolding expected is_armed is_expected count_on next floor_div floor_mod is_last_day_of_month era
    in_era era_year_start year_of_era month_of day_of civil_of_era civil_from_days ◌+ℤ◌ ◌-ℤ◌ ◌*ℤ◌
    ◌/ℤ◌ ◌%ℤ◌
methods = tt

-- The labeler after 23:59:59 on December 31st 2016.
abbrev year_end : PpsLabeler
year_end = (next new_labeler (pos 1483228799) true false).0

abbrev leap_second : PpsLabeler
leap_second = (next year_end (pos 1483228800) true true).0

leaps : (next year_end (pos 1483228800) true true).1.leap ≡ true
unfolding methods
leaps = refl

not_again : (next leap_second (pos 1483228801) true true).0.resyncs ≡ leap_second.resyncs
unfolding methods
not_again = refl

leap_have : leap_second.have ≡ true
unfolding methods
leap_have = refl

next-MayLeap_example :
    (year_end.have ≡ true)
    × (true ≡ true)
    × (year_end.last.leap ≡ false)
    × ((next year_end (pos 1483228800) true true).1.posix ≡ year_end.last.posix +ℤ pos 1)
    × MayLeap
        (next year_end (pos 1483228800) true true).0.leap_announced_at
        (next year_end (pos 1483228800) true true).1.posix
next-MayLeap_example = next-MayLeap year_end (pos 1483228800) true true leaps
