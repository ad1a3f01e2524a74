-- ===== src/Civil/Calendar.antt =====
-- The proleptic Gregorian calendar by its rules, independent of src/CivilTime.h: what a date is,
-- and which date follows it.
use ubersdr_ntp.Prelude.{ℕ, ◌+◌, ◌≤◌, ◌%◌, Bool, not, ◌&&◌, ◌||◌, ltb, ◌==◌, if◌then◌else◌}
use ubersdr_ntp.Prelude.Int.{ℤ, pos, pos_part, neg_part, ◌+ℤ◌}
use ubersdr_ntp.Civil.{CivilDate, days_from_civil}

-- Whether n divides a year, of either sign.
abbrev divides : ℕ → ℤ → Bool
divides n y = (pos_part y + neg_part y) % n == 0

unfoldable pub is_leap : ℤ → Bool
is_leap y = divides 4 y && (not (divides 100 y) || divides 400 y)

abbrev pub month_length : Bool → ℕ → ℕ
month_length leap m =
    if m == 2
    then (if leap then 29 else 28)
    else if (m == 4) || (m == 6) || (m == 9) || (m == 11)
    then 30
    else 31

abbrev pub days_in_month : ℤ → ℕ → ℕ
days_in_month y m = month_length (is_leap y) m

abbrev pub date : ℤ → ℕ → ℕ → CivilDate
date y m d = record { year = y; month = m; day = d }

pub record IsDate (t : CivilDate) : Type 0 where
  pub month_in : (1 ≤ t.month) × (t.month ≤ 12)
  pub day_in : (1 ≤ t.day) × (t.day ≤ days_in_month t.year t.month)

abbrev pub next_day : CivilDate → CivilDate
next_day t =
    if ltb t.day (days_in_month t.year t.month)
    then record t { day = t.day + 1 }
    else if ltb t.month 12
    then record t { month = t.month + 1; day = 1 }
    else record { year = t.year +ℤ pos 1; month = 1; day = 1 }

abbrev pub day_number : CivilDate → ℤ
day_number t = days_from_civil t.year t.month t.day
