-- ===== src/Civil.antt =====
-- src/CivilTime.h: Howard Hinnant's civil-date algorithms, in 32-bit `unsigned` where the source
-- has it. `int` and `long long` are unbounded here: no sum below leaves them for a real instant.
pub mod Era
pub mod Calendar
pub mod March
pub mod RoundTrip
pub mod Start
pub mod NextDay
mod Tests
use ubersdr_ntp.Prelude.{ℕ, ◌-◌, ◌/◌, ltb, leb, if◌then◌else◌}
use ubersdr_ntp.Prelude.Int.{ℤ, pos, ◌+ℤ◌, ◌-ℤ◌, ◌*ℤ◌, ◌/ℤ◌, leb_ℤ}
use ubersdr_ntp.Prelude.Word.{add32, sub32, mul32, to_u32}

-- The out-parameters of `civilFromDays`.
pub record CivilDate : Type 0 where
  pub year : ℤ
  pub month : ℕ
  pub day : ℕ

-- `(z >= 0 ? z : z - (size - 1)) / size`, the number of the block of `size` that holds z.
unfoldable pub era : ℕ → ℤ → ℤ
era size z = (if leb_ℤ (pos 0) z then z else z -ℤ pos (size - 1)) /ℤ pos size

-- The place of z in its block, as `unsigned`.
unfoldable pub in_era : ℕ → ℤ → ℕ
in_era size z = to_u32 (z -ℤ era size z *ℤ pos size)

-- `doy` of `daysFromCivil`: days since March 1st, in `unsigned`.
unfoldable pub march_day : ℕ → ℕ → ℕ
march_day m d =
    sub32 (add32 (add32 (mul32 153 (add32 m (if ltb 2 m then sub32 0 3 else 9))) 2 / 5) d) 1

-- `yoe * 365u + yoe / 4u - yoe / 100u`, the days of an era before its year `yoe`.
unfoldable pub era_year_start : ℕ → ℕ
era_year_start yoe = sub32 (add32 (mul32 yoe 365) (yoe / 4)) (yoe / 100)

unfoldable pub days_from_civil : ℤ → ℕ → ℕ → ℤ
days_from_civil y0 m d =
    let y = if leb m 2 then y0 -ℤ pos 1 else y0 in
    let doe = add32 (era_year_start (in_era 400 y)) (march_day m d) in
    era 400 y *ℤ pos 146097 +ℤ pos doe -ℤ pos 719468

-- The year of the era that holds day `doe` of it.
unfoldable pub year_of_era : ℕ → ℕ
year_of_era doe = sub32 (add32 (sub32 doe (doe / 1460)) (doe / 36524)) (doe / 146096) / 365

-- The month and the day of the month, for a day since March 1st.
unfoldable pub month_of : ℕ → ℕ
month_of doy = let mp = add32 (mul32 5 doy) 2 / 153 in add32 mp (if ltb mp 10 then 3 else sub32 0 9)

unfoldable pub day_of : ℕ → ℕ
day_of doy =
    let mp = add32 (mul32 5 doy) 2 / 153 in add32 (sub32 doy (add32 (mul32 153 mp) 2 / 5)) 1

-- The date of day `doe` of an era.
unfoldable pub civil_of_era : ℤ → ℕ → CivilDate
civil_of_era e doe =
    let yoe = year_of_era doe in
    let doy = sub32 doe (era_year_start yoe) in
    let m = month_of doy in
    record {
      year = pos yoe +ℤ e *ℤ pos 400 +ℤ (if leb m 2 then pos 1 else pos 0);
      month = m;
      day = day_of doy;
    }

unfoldable pub civil_from_days : ℤ → CivilDate
civil_from_days z = civil_of_era (era 146097 (z +ℤ pos 719468)) (in_era 146097 (z +ℤ pos 719468))
