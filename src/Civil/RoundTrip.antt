-- ===== src/Civil/RoundTrip.antt =====
-- `daysFromCivil` and `civilFromDays` against the calendar, by way of the March-based year.
use ubersdr_ntp.Prelude.{
  ℕ, ◌+◌, ◌-◌, ◌≤◌, ◌<◌, ◌≡◌, sym, ap, subst, ◌∙◌, true, Bool-cases, inl, inr, arith, leb,
  if◌then◌else◌,
}
use ubersdr_ntp.Prelude.Int.{ℤ, pos, ◌+ℤ◌, ◌-ℤ◌, ◌*ℤ◌, int_laws, parts_of_eq}
use ubersdr_ntp.Civil.{
  CivilDate, era, in_era, era_year_start, march_day, year_of_era, month_of, day_of, civil_of_era,
  days_from_civil, civil_from_days,
}
use ubersdr_ntp.Civil.Era.{
  EndsLeap, IsDayOfYear, era_400, era_146097, era_146097_unique, year_of_era_lem,
  year_of_era_unique,
}
use ubersdr_ntp.Prelude.Word.{u32_mod, sub32}
use ubersdr_ntp.Civil.March.{
  march_date, day_number-march_date, march_date-IsDate, month_of-march_day, march_day_range,
  is_leap-EndsLeap, is_leap_pos, month_length_le, add32_lem,
}
use ubersdr_ntp.Civil.Calendar.{is_leap, IsDate, day_number}

sub32_lem : (a b : ℕ) → b ≤ a → a < u32_mod → sub32 a b ≡ a - b
sub32_lem a b h k = omega arith

civil_of_era_lem :
    (e : ℤ) (doe : ℕ)
    → doe < 146097
    → civil_of_era e doe ≡ march_date e (year_of_era doe) (doe - era_year_start (year_of_era doe))
unfolding civil_of_era
civil_of_era_lem e doe h =
    rw (sub32_lem doe (era_year_start (year_of_era doe)) (year_of_era_lem doe h).1 (omega arith))

-- Where day z falls in the March-based calendar.
record March (z : ℤ) (t : CivilDate) : Type 0 where
  e : ℤ
  yoe : ℕ
  doy : ℕ
  year_in : yoe < 400
  day_in : IsDayOfYear yoe doy
  date_is : t ≡ march_date e yoe doy
  number_is : z ≡ e *ℤ pos 146097 +ℤ pos (era_year_start yoe + doy) -ℤ pos 719468

doy-lt : {yoe : ℕ} (doy : ℕ) → IsDayOfYear yoe doy → doy < 366
doy-lt doy h = omega arith

civil_from_days-March : (z : ℤ) → March z (civil_from_days z)
unfolding civil_from_days
civil_from_days-March z = record {
  e = era 146097 w;
  yoe = year_of_era doe;
  doy = doe - era_year_start (year_of_era doe);
  year_in = year.0;
  day_in = year.2;
  date_is = civil_of_era_lem (era 146097 w) doe (era_146097 w).0;
  number_is = rw (whole) (omega (int_laws, parts_of_eq (era_146097 w).1));
}
  where
    w : ℤ
    w = z +ℤ pos 719468

    doe : ℕ
    doe = in_era 146097 w

    year :
        (year_of_era doe < 400)
        × (era_year_start (year_of_era doe) ≤ doe)
        × IsDayOfYear (year_of_era doe) (doe - era_year_start (year_of_era doe))
    year = year_of_era_lem doe (era_146097 w).0

    whole : era_year_start (year_of_era doe) + (doe - era_year_start (year_of_era doe)) ≡ doe
    whole = omega (arith, year.1)

March-day_number : {z : ℤ} {t : CivilDate} → March z t → day_number t ≡ z
March-day_number m =
    ap day_number m.date_is
    ∙ (day_number-march_date m.e m.yoe m.doy m.year_in (doy-lt m.doy m.day_in) ∙ sym m.number_is)

-- `daysFromCivil` undoes `civilFromDays` on every day number.
pub day_number-civil_from_days : (z : ℤ) → day_number (civil_from_days z) ≡ z
day_number-civil_from_days z = March-day_number (civil_from_days-March z)

-- `civilFromDays` gives a date of the Gregorian calendar on every day number.
pub civil_from_days-IsDate : (z : ℤ) → IsDate (civil_from_days z)
civil_from_days-IsDate z =
    let m = civil_from_days-March z in
    subst IsDate (sym m.date_is) (march_date-IsDate m.e m.yoe m.doy m.year_in m.day_in)

March-civil_from_days : {z : ℤ} {t : CivilDate} → March z t → civil_from_days z ≡ t
unfolding civil_from_days
March-civil_from_days {z} {t} m =
    rw (from, unique.0, unique.1, civil_of_era_lem m.e doe day.1, day.0, rest) (sym m.date_is)
  where
    doe : ℕ
    doe = era_year_start m.yoe + m.doy

    day : (year_of_era doe ≡ m.yoe) × (doe < 146097)
    day = year_of_era_unique m.yoe m.doy m.year_in m.day_in

    from : z +ℤ pos 719468 ≡ pos doe +ℤ m.e *ℤ pos 146097
    from = omega (int_laws, parts_of_eq m.number_is)

    unique :
        (era 146097 (pos doe +ℤ m.e *ℤ pos 146097) ≡ m.e)
        × (in_era 146097 (pos doe +ℤ m.e *ℤ pos 146097) ≡ doe)
    unique = era_146097_unique m.e doe day.1

    rest : era_year_start m.yoe + m.doy - era_year_start m.yoe ≡ m.doy
    rest = omega arith

-- `y` of `daysFromCivil`: the year in which the March-based year of the date begins.
abbrev pub march_year_of : CivilDate → ℤ
march_year_of t = if leb t.month 2 then t.year -ℤ pos 1 else t.year

year_from_march :
    (t : CivilDate)
    → t.year
      ≡ pos (in_era 400 (march_year_of t))
        +ℤ era 400 (march_year_of t) *ℤ pos 400
        +ℤ (if leb t.month 2 then pos 1 else pos 0)
year_from_march t = rw (← (era_400 (march_year_of t)).1) (elim (Bool-cases (leb t.month 2)) [
  | inl early ↦ rw early (omega int_laws)
  | inr late ↦ rw late (omega int_laws)
])

february :
    (t : CivilDate) → t.month ≡ 2 → is_leap t.year ≡ true → EndsLeap (in_era 400 (march_year_of t))
february t m leap =
    is_leap-EndsLeap yoe (era_400 (march_year_of t)).0 (sym shift ∙ (ap is_leap (sym year) ∙ leap))
  where
    yoe : ℕ
    yoe = in_era 400 (march_year_of t)

    e : ℤ
    e = era 400 (march_year_of t)

    year : t.year ≡ pos (yoe + 1) +ℤ e *ℤ pos 400
    year = year_from_march t ∙ rw m (omega int_laws)

    shift : is_leap (pos (yoe + 1) +ℤ e *ℤ pos 400) ≡ is_leap (pos (yoe + 1))
    shift = is_leap_pos e (yoe + 1) (omega (arith, (era_400 (march_year_of t)).0))

-- A date of the calendar is a day of the March-based year.
IsDate-March : (t : CivilDate) → IsDate t → March (day_number t) t
unfolding days_from_civil
IsDate-March t v = record {
  e = era 400 (march_year_of t);
  yoe = in_era 400 (march_year_of t);
  doy = march_day t.month t.day;
  year_in = (era_400 (march_year_of t)).0;
  day_in = day;
  date_is = λ i. record { year = year i; month = sym month.0 i; day = sym month.1 i };
  number_is = rw (
      add32_lem (in_era 400 (march_year_of t)) (march_day t.month t.day)
        (era_400 (march_year_of t)).0 (doy-lt _ day));
}
  where
    month :
        (month_of (march_day t.month t.day) ≡ t.month) × (day_of (march_day t.month t.day) ≡ t.day)
    month =
        month_of-march_day t.month t.day v.month_in.0 v.month_in.1 v.day_in.0
          (omega (arith, v.day_in, month_length_le (is_leap t.year) t.month))

    year :
        t.year
        ≡ (march_date
            (era 400 (march_year_of t))
            (in_era 400 (march_year_of t))
            (march_day t.month t.day)).year
    year = rw month.0 (year_from_march t)

    day : IsDayOfYear (in_era 400 (march_year_of t)) (march_day t.month t.day)
    day =
        elim (march_day_range t.month t.day (is_leap t.year) v.month_in.0 v.month_in.1 v.day_in.0
          v.day_in.1) [
            | inl early ↦ inl early
            | inr (last, m, leap) ↦ inr (last, february t m leap)
          ]

pub day_number-march_day :
    (t : CivilDate)
    → IsDate t
    → day_number t
      ≡ era 400 (march_year_of t) *ℤ pos 146097
        +ℤ pos (era_year_start (in_era 400 (march_year_of t)) + march_day t.month t.day)
        -ℤ pos 719468
unfolding IsDate-March
day_number-march_day t v = (IsDate-March t v).number_is

-- `civilFromDays` undoes `daysFromCivil` on every date of the calendar.
pub civil_from_days-day_number : (t : CivilDate) → IsDate t → civil_from_days (day_number t) ≡ t
civil_from_days-day_number t v = March-civil_from_days (IsDate-March t v)
