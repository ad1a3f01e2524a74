-- ===== src/Fields/Advance.antt =====
-- `advanceMinutes` is the addition of minutes in the calendar of 2000 to 2099, which wraps round
-- after the last minute of 2099.
use ubersdr_ntp.Prelude.{
  ℕ, zero, suc, ◌+◌, ◌-◌, ◌*◌, ◌/◌, ◌%◌, ◌≤◌, ◌<◌, ◌≡◌, refl, ap, ◌∙◌, true, false, Bool-cases, inl,
  inr, arith,
}
use native.Mathlib.Nat.{le_refl}
use ubersdr_ntp.Prelude.Int.{ℤ, pos, ◌+ℤ◌, ◌%ℤ◌, ltb_ℤ, pos-sub, pos-add, pos-mod, pos-div}
use ubersdr_ntp.Fields.{TimeFields, wrap_years, minutes_since_2000, advance_minutes, is_range_valid}
use ubersdr_ntp.Fields.Range.{is_range_valid-fields}
use ubersdr_ntp.Fields.Days.{
  fields, year_length, days_before, days_before-add_one, IsTime, minute_number, year_days_lem,
  minutes_since_2000_lem,
}

-- The days and the minutes of 2000 to 2099.
abbrev pub century_days : ℕ
century_days = 36525

abbrev pub century_minutes : ℕ
century_minutes = century_days * 1440

-- Where the loop of `advanceMinutes` stops: a day within its year, the same day of the century.
record Wrapped (d y : ℕ) (r : ℤ × ℤ) : Type 0 where
  day : ℕ
  year : ℕ
  returns : r ≡ (pos day, pos year)
  day_in : (1 ≤ day) × (day ≤ year_length year)
  year_in : year < 100
  same_day : days_before year + (day - 1) ≡ (days_before y + (d - 1)) % century_days

year_length_bounds : (y : ℕ) → (365 ≤ year_length y) × (year_length y ≤ 366)
year_length_bounds y = ground arith

next_year :
    (y d : ℕ)
    → y < 100
    → year_length y < d
    → (days_before ((y + 1) % 100) + (d - year_length y - 1)) % century_days
      ≡ (days_before y + (d - 1)) % century_days
next_year y d h longer = omega (arith, days_before-add_one y)

within_year :
    (y d : ℕ)
    → y < 100
    → 1 ≤ d
    → d ≤ year_length y
    → days_before y + (d - 1) ≡ (days_before y + (d - 1)) % century_days
within_year y d hy hd h = omega (arith, days_before-add_one y)

lt_le : (a b : ℕ) → a < b → a ≤ b
lt_le a b h = omega arith

longer_lt : (a b : ℕ) → ltb_ℤ (pos a) (pos b) ≡ true → a < b
longer_lt a b h = ground arith

within_le : (a b : ℕ) → ltb_ℤ (pos a) (pos b) ≡ false → b ≤ a
within_le a b h = ground arith

wrap_years_lem :
    (fuel d y : ℕ) → d ≤ fuel → 1 ≤ d → y < 100 → Wrapped d y (wrap_years fuel (pos d) (pos y))
unfolding wrap_years
wrap_years_lem zero d y hf hd hy = absurd (omega arith)
wrap_years_lem (suc fuel) d y hf hd hy =
    rw (year_days_lem y hy) (elim (Bool-cases (ltb_ℤ (pos (year_length y)) (pos d))) [
      | inl longer ↦
          rw
            (
              longer,
              pos-sub d (year_length y) (lt_le _ _ (longer_lt _ _ longer)),
              pos-add y 1,
              pos-mod (y + 1) 100,
            )
            (again (longer_lt _ _ longer) (
              wrap_years_lem fuel (d - year_length y) ((y + 1) % 100)
                (omega (arith, year_length_bounds y)) (omega (arith, longer_lt _ _ longer))
                (omega arith)))
      | inr within ↦ rw within (record {
        day = d;
        year = y;
        returns = refl;
        day_in = (hd, within_le _ _ within);
        year_in = hy;
        same_day = within_year y d hy hd (within_le _ _ within);
      })
    ])
  where
    again :
        {r : ℤ × ℤ}
        → year_length y < d
        → Wrapped (d - year_length y) ((y + 1) % 100) r
        → Wrapped d y r
    again longer w = record {
      day = w.day;
      year = w.year;
      returns = w.returns;
      day_in = w.day_in;
      year_in = w.year_in;
      same_day = w.same_day ∙ next_year y d hy longer;
    }

minutes_add :
    (to from mi h k : ℕ)
    → to ≡ (from + (h + (mi + k) / 60) / 24) % century_days
    → (to * 24 + (h + (mi + k) / 60) % 24) * 60 + (mi + k) % 60
      ≡ ((from * 24 + h) * 60 + mi + k) % century_minutes
minutes_add to from mi h k e = omega arith

-- The time that is `k` minutes after another, in the calendar of the century.
pub record Later (k mi h d y : ℕ) (r : TimeFields) : Type 0 where
  pub minute : ℕ
  pub hour : ℕ
  pub day : ℕ
  pub year : ℕ
  pub returns : r ≡ fields minute hour day year
  pub time_in : IsTime minute hour day year
  pub number_is :
      minute_number minute hour day year ≡ (minute_number mi h d y + k) % century_minutes

-- `advanceMinutes` of a valid time is the valid time that many minutes on.
pub advance_minutes-Later :
    (k mi h d y : ℕ)
    → IsTime mi h d y
    → Later k mi h d y (advance_minutes (fields mi h d y) (pos k))
unfolding advance_minutes
advance_minutes-Later k mi h d y v =
    rw
      (
        pos-add mi k,
        pos-div (mi + k) 60,
        pos-mod (mi + k) 60,
        pos-add h ((mi + k) / 60),
        pos-div (h + (mi + k) / 60) 24,
        pos-mod (h + (mi + k) / 60) 24,
        pos-add d ((h + (mi + k) / 60) / 24),
      )
      (rw w.returns (record {
        minute = (mi + k) % 60;
        hour = (h + (mi + k) / 60) % 24;
        day = w.day;
        year = w.year;
        returns = refl;
        time_in = (omega arith, omega arith, w.day_in.0, w.day_in.1, w.year_in);
        number_is =
            minutes_add (days_before w.year + (w.day - 1)) (days_before y + (d - 1)) mi h k
              (omega (arith, w.same_day));
      }))
  where
    days : ℕ
    days = d + (h + (mi + k) / 60) / 24

    w : Wrapped days y (wrap_years days (pos days) (pos y))
    w = wrap_years_lem days days y (le_refl days) (omega arith) (omega arith)

-- `advanceMinutes` adds minutes: the number of minutes since 2000 grows by as many, modulo the
-- century that two-digit years can name, and the result is in the voter's ranges again.
pub minutes_since_2000-advance_minutes :
    (k mi h d y : ℕ)
    → IsTime mi h d y
    → (minutes_since_2000 (advance_minutes (fields mi h d y) (pos k))
        ≡ (minutes_since_2000 (fields mi h d y) +ℤ pos k) %ℤ pos century_minutes)
      × (is_range_valid (advance_minutes (fields mi h d y) (pos k)) ≡ true)
minutes_since_2000-advance_minutes k mi h d y v = (
  rw
      (
        l.returns,
        minutes_since_2000_lem l.minute l.hour l.day l.year l.time_in,
        minutes_since_2000_lem mi h d y v,
        pos-add _ k,
        pos-mod _ century_minutes,
      )
      (ap pos l.number_is),
  rw l.returns (is_range_valid-fields l.minute l.hour l.day l.year l.time_in),
)
  where
    l : Later k mi h d y (advance_minutes (fields mi h d y) (pos k))
    l = advance_minutes-Later k mi h d y v
