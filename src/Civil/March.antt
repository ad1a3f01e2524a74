-- ===== src/Civil/March.antt =====
-- The March-based year that both conversions go by, against the calendar's rules.
use ubersdr_ntp.Prelude.{
  ℕ, ◌+◌, ◌≤◌, ◌<◌, ◌≡◌, sym, subst, ◌∙◌, ◌⊎◌, Bool, true, false, inl, inr, arith, leb,
  if◌then◌else◌,
}
use ubersdr_ntp.Prelude.Int.{ℤ, pos, negsuc, ◌+ℤ◌, ◌-ℤ◌, ◌*ℤ◌, int_laws}
use ubersdr_ntp.Civil.{CivilDate, era_year_start, march_day, month_of, day_of, days_from_civil}
use ubersdr_ntp.Civil.Era.{EndsLeap, IsDayOfYear, era_400_unique, march_day-month_of}
use ubersdr_ntp.Prelude.Word.{add32}
use ubersdr_ntp.Civil.Calendar.{is_leap, month_length, IsDate, day_number}

-- The date of day `doy` of the year that begins in March of year `yoe` of era `e`.
abbrev pub march_date : ℤ → ℕ → ℕ → CivilDate
march_date e yoe doy = record {
  year = pos yoe +ℤ e *ℤ pos 400 +ℤ (if leb (month_of doy) 2 then pos 1 else pos 0);
  month = month_of doy;
  day = day_of doy;
}

pub sub_add : (z : ℤ) → (z +ℤ pos 1 -ℤ pos 1 ≡ z) × (z +ℤ pos 0 ≡ z)
sub_add z = (omega int_laws, omega int_laws)

pub add32_lem :
    (yoe doy : ℕ)
    → yoe < 400
    → doy < 366
    → add32 (era_year_start yoe) doy ≡ era_year_start yoe + doy
unfolding era_year_start
add32_lem yoe doy h k = omega arith

march_year :
    (e : ℤ) (yoe doy : ℕ)
    → (if leb (month_of doy) 2
        then (march_date e yoe doy).year -ℤ pos 1
        else (march_date e yoe doy).year)
      ≡ pos yoe +ℤ e *ℤ pos 400
march_year e yoe doy = ground (arith, sub_add (pos yoe +ℤ e *ℤ pos 400))

pub day_number-march_date :
    (e : ℤ) (yoe doy : ℕ)
    → yoe < 400
    → doy < 366
    → day_number (march_date e yoe doy)
      ≡ e *ℤ pos 146097 +ℤ pos (era_year_start yoe + doy) -ℤ pos 719468
unfolding days_from_civil
day_number-march_date e yoe doy h k = rw (
  march_year e yoe doy,
  (era_400_unique e yoe h).0,
  (era_400_unique e yoe h).1,
  march_day-month_of doy k,
  add32_lem yoe doy h k,
)

month_of_range : (doy : ℕ) → doy < 366 → (1 ≤ month_of doy) × (month_of doy ≤ 12) × (1 ≤ day_of doy)
unfolding month_of day_of
month_of_range doy h = ground arith

day_of-le_leap : (doy : ℕ) → doy < 366 → day_of doy ≤ month_length true (month_of doy)
unfolding month_of day_of
day_of-le_leap doy h = ground arith

day_of-le : (doy : ℕ) → doy < 365 → day_of doy ≤ month_length false (month_of doy)
unfolding month_of day_of
day_of-le doy h = ground arith

pub is_leap_pos : (e : ℤ) (r : ℕ) → r ≤ 400 → is_leap (pos r +ℤ e *ℤ pos 400) ≡ is_leap (pos r)
unfolding is_leap ◌+ℤ◌ ◌*ℤ◌
is_leap_pos (pos n) r h = ground arith
is_leap_pos (negsuc n) r h = ground arith

pub EndsLeap-is_leap : (yoe : ℕ) → EndsLeap yoe → is_leap (pos (yoe + 1)) ≡ true
unfolding is_leap
EndsLeap-is_leap yoe h = ground arith

month_length_mono : (b : Bool) (m : ℕ) → month_length false m ≤ month_length b m
month_length_mono true m = ground arith
month_length_mono false m = ground arith

-- February 29th of a leap year.
leap_end : (e : ℤ) (yoe : ℕ) → yoe < 400 → EndsLeap yoe → IsDate (march_date e yoe 365)
unfolding month_of day_of
leap_end e yoe h k = record { month_in = omega arith; day_in = rw (leap) (omega arith) }
  where
    year : pos yoe +ℤ e *ℤ pos 400 +ℤ pos 1 ≡ pos (yoe + 1) +ℤ e *ℤ pos 400
    year = omega int_laws

    leap : is_leap (pos yoe +ℤ e *ℤ pos 400 +ℤ pos 1) ≡ true
    leap = rw year (is_leap_pos e (yoe + 1) (omega arith) ∙ EndsLeap-is_leap yoe k)

pub month_length_le : (b : Bool) (m : ℕ) → month_length b m ≤ month_length true m
month_length_le true m = ground arith
month_length_le false m = ground arith

pub march_date-IsDate :
    (e : ℤ) (yoe doy : ℕ) → yoe < 400 → IsDayOfYear yoe doy → IsDate (march_date e yoe doy)
march_date-IsDate e yoe doy h (inl k) = record {
  month_in = omega (arith, month_of_range doy);
  day_in = (
    omega (arith, month_of_range doy),
    omega (
      arith,
      day_of-le doy k,
      month_length_mono (is_leap (march_date e yoe doy).year) (month_of doy),
    ),
  );
}
march_date-IsDate e yoe doy h (inr k) =
    subst (λ d. IsDate (march_date e yoe d)) (sym k.0) (leap_end e yoe h k.1)

pub month_of-march_day :
    (m d : ℕ)
    → 1 ≤ m
    → m ≤ 12
    → 1 ≤ d
    → d ≤ month_length true m
    → (month_of (march_day m d) ≡ m) × (day_of (march_day m d) ≡ d)
unfolding march_day month_of day_of
month_of-march_day m d hm hm' hd hd' = ground arith

pub march_day_range :
    (m d : ℕ) (b : Bool)
    → 1 ≤ m
    → m ≤ 12
    → 1 ≤ d
    → d ≤ month_length b m
    → (march_day m d < 365) ⊎ ((march_day m d ≡ 365) × (m ≡ 2) × (b ≡ true))
unfolding march_day
march_day_range m d true hm hm' hd hd' = ground arith
march_day_range m d false hm hm' hd hd' = ground arith

pub is_leap-EndsLeap : (yoe : ℕ) → yoe < 400 → is_leap (pos (yoe + 1)) ≡ true → EndsLeap yoe
unfolding is_leap
is_leap-EndsLeap yoe h k = ground arith
