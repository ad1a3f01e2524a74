-- ===== src/Fields.antt =====
-- src/clock/TimeFrameVoter.{h,cpp}: `TimeFields` and the calendar arithmetic of the voter, with
-- years 00 to 99 read as 2000 to 2099. The fields are `int`s, -1 where nothing was decoded.
pub mod Days
pub mod Range
pub mod Advance
mod Tests
use ubersdr_ntp.Prelude.{ℕ, zero, suc, ◌+◌, Bool, true, false, not, ◌&&◌, ◌||◌, if◌then◌else◌}
use ubersdr_ntp.Prelude.Int.{
  ℤ, pos, negsuc, pos_part, ◌+ℤ◌, ◌-ℤ◌, ◌*ℤ◌, ◌/ℤ◌, ◌%ℤ◌, ltb_ℤ, leb_ℤ, eqb_ℤ,
}

pub record TimeFields : Type 0 where
  pub minute : ℤ
  pub hour : ℤ
  pub doy : ℤ
  pub year2 : ℤ

-- `TimeFields{}`.
abbrev pub unset : TimeFields
unset = record { minute = negsuc 0; hour = negsuc 0; doy = negsuc 0; year2 = negsuc 0 }

unfoldable pub is_leap_year2 : ℤ → Bool
is_leap_year2 year2 =
    let y = pos 2000 +ℤ year2 in
    eqb_ℤ (y %ℤ pos 4) (pos 0)
    && (not (eqb_ℤ (y %ℤ pos 100) (pos 0)) || eqb_ℤ (y %ℤ pos 400) (pos 0))

-- `isLeapYear2(y) ? 366 : 365`.
unfoldable pub year_days : ℤ → ℤ
year_days y = if is_leap_year2 y then pos 366 else pos 365

-- The loop of `minutesSince2000` from year y, with `left` rounds to go.
unfoldable pub sum_years : ℕ → ℤ → ℤ → ℤ
sum_years zero y days = days
sum_years (suc left) y days = sum_years left (y +ℤ pos 1) (days +ℤ year_days y)

-- The loop runs while y < year2, so not at all for a negative year.
unfoldable pub minutes_since_2000 : TimeFields → ℤ
minutes_since_2000 t =
    let days = sum_years (pos_part t.year2) (pos 0) (pos 0) +ℤ (t.doy -ℤ pos 1) in
    (days *ℤ pos 24 +ℤ t.hour) *ℤ pos 60 +ℤ t.minute

-- The loop of `advanceMinutes`: the day of the year and the year. Each round takes a year off the
-- day, so the day bounds the rounds (`Advance.wrap_years_lem`).
unfoldable pub wrap_years : ℕ → ℤ → ℤ → ℤ × ℤ
wrap_years zero doy year2 = (doy, year2)
wrap_years (suc fuel) doy year2 =
    let next = wrap_years fuel (doy -ℤ year_days year2) ((year2 +ℤ pos 1) %ℤ pos 100) in
    if ltb_ℤ (year_days year2) doy then next else (doy, year2)

unfoldable pub advance_minutes : TimeFields → ℤ → TimeFields
advance_minutes t minutes =
    let minute = t.minute +ℤ minutes in
    let hour = t.hour +ℤ minute /ℤ pos 60 in
    let doy = t.doy +ℤ hour /ℤ pos 24 in
    let (doy', year2') = wrap_years (pos_part doy) doy t.year2 in
    record { minute = minute %ℤ pos 60; hour = hour %ℤ pos 24; doy = doy'; year2 = year2' }

-- `rangeValid` of the voter's frames, which also refuses day 366 of a common year.
unfoldable pub in_range : TimeFields → Bool
in_range t =
    leb_ℤ (pos 0) t.minute
    && (leb_ℤ t.minute (pos 59)
        && (leb_ℤ (pos 0) t.hour
            && (leb_ℤ t.hour (pos 23)
                && (leb_ℤ (pos 1) t.doy
                    && (leb_ℤ t.doy (pos 366)
                        && (leb_ℤ (pos 0) t.year2 && leb_ℤ t.year2 (pos 99)))))))

unfoldable pub is_range_valid : TimeFields → Bool
unfolding in_range
is_range_valid t = in_range t && not (eqb_ℤ t.doy (pos 366) && not (is_leap_year2 t.year2))
