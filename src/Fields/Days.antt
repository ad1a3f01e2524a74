-- ===== src/Fields/Days.antt =====
-- Days and minutes since 2000 as numbers.
use ubersdr_ntp.Prelude.{
  ℕ, zero, suc, ◌+◌, ◌-◌, ◌*◌, ◌/◌, ◌%◌, ◌≤◌, ◌<◌, ◌≡◌, ap, ◌∙◌, arith, if◌then◌else◌, ◌==◌,
}
use ubersdr_ntp.Prelude.Int.{pos, pos_laws, pos-sub, pos-add, pos-mod}
use ubersdr_ntp.Fields.{TimeFields, is_leap_year2, year_days, sum_years, minutes_since_2000}

-- The fields of a decoded time, none of them negative.
abbrev pub fields : ℕ → ℕ → ℕ → ℕ → TimeFields
fields mi h d y = record { minute = pos mi; hour = pos h; doy = pos d; year2 = pos y }

-- The length of year 2000 + y.
abbrev pub year_length : ℕ → ℕ
year_length y = if y % 4 == 0 then 366 else 365

-- The days before January 1st of year 2000 + y.
abbrev pub days_before : ℕ → ℕ
days_before y = 365 * y + (y + 3) / 4

abbrev pub IsTime : ℕ → ℕ → ℕ → ℕ → Type 0
IsTime mi h d y = (mi < 60) × (h < 24) × (1 ≤ d) × (d ≤ year_length y) × (y < 100)

abbrev pub minute_number : ℕ → ℕ → ℕ → ℕ → ℕ
minute_number mi h d y = ((days_before y + (d - 1)) * 24 + h) * 60 + mi

pub is_leap_year2-pos : (y : ℕ) → y < 100 → is_leap_year2 (pos y) ≡ (y % 4 == 0)
unfolding is_leap_year2
is_leap_year2-pos y h = rw (pos-add, pos-mod _ 4, pos-mod _ 100, pos-mod _ 400) (ground arith)

pub year_days_lem : (y : ℕ) → y < 100 → year_days (pos y) ≡ pos (year_length y)
unfolding year_days
year_days_lem y h = rw (is_leap_year2-pos y h) (ground arith)

pub days_before-add_one : (y : ℕ) → days_before (y + 1) ≡ days_before y + year_length y
days_before-add_one y = ground arith

sum_years_lem :
    (left y n : ℕ)
    → y + left ≤ 100
    → sum_years left (pos y) (pos n) ≡ pos (n + (days_before (y + left) - days_before y))
unfolding sum_years
sum_years_lem zero y n h = ap pos (omega arith)
sum_years_lem (suc left) y n h =
    rw (year_days_lem y (omega arith), pos-add y 1, pos-add n (year_length y))
      (sum_years_lem left (y + 1) (n + year_length y) (omega arith) ∙ ap pos days)
  where
    days :
        n + year_length y + (days_before (y + 1 + left) - days_before (y + 1))
        ≡ n + (days_before (y + suc left) - days_before y)
    days = ground (arith, days_before-add_one y)

pub minutes_since_2000_lem :
    (mi h d y : ℕ)
    → IsTime mi h d y
    → minutes_since_2000 (fields mi h d y) ≡ pos (minute_number mi h d y)
unfolding minutes_since_2000
minutes_since_2000_lem mi h d y v =
    rw (sum_years_lem y 0 0 (omega arith), pos-sub d 1 (omega arith))
      (simp pos_laws (ap pos (omega arith)))
