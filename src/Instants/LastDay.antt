-- ===== src/Instants/LastDay.antt =====
-- `isLastDayOfMonth` against the calendar.
use ubersdr_ntp.Prelude.{◌≡◌, ◌↔◌, true, not, ◌==◌, arith}
use ubersdr_ntp.Prelude.Int.{ℤ, pos}
use ubersdr_ntp.Civil.{CivilDate, civil_from_days}
use ubersdr_ntp.Civil.Calendar.{days_in_month, IsDate, next_day}
use ubersdr_ntp.Civil.RoundTrip.{civil_from_days-IsDate}
use ubersdr_ntp.Civil.NextDay.{civil_from_days-next_day}
use ubersdr_ntp.Instants.{floor_div, is_last_day_of_month}

-- The date of an instant.
abbrev pub date_at : ℤ → CivilDate
date_at ms = civil_from_days (floor_div (floor_div ms (pos 1000)) (pos 86400))

month-next_day :
    (t : CivilDate)
    → IsDate t
    → (not (t.month == (next_day t).month) ≡ true) ↔ (t.day ≡ days_in_month t.year t.month)
month-next_day t v = ground arith

-- `isLastDayOfMonth` holds exactly on the instants whose date is the last of its month.
pub is_last_day_of_month_iff :
    (ms : ℤ)
    → (is_last_day_of_month ms ≡ true)
      ↔ ((date_at ms).day ≡ days_in_month (date_at ms).year (date_at ms).month)
unfolding is_last_day_of_month
is_last_day_of_month_iff ms =
    rw (civil_from_days-next_day (floor_div (floor_div ms (pos 1000)) (pos 86400)))
      (month-next_day (date_at ms) (civil_from_days-IsDate _))
