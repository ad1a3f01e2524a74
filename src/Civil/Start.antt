-- ===== src/Civil/Start.antt =====
-- The days before a March-based year, and how many its successor adds.
use ubersdr_ntp.Prelude.{
  ℕ, ◌+◌, ◌≤◌, ◌<◌, ◌≡◌, refl, sym, ap, ◌∙◌, ◌≢◌, true, Bool-cases, subst, dec_lt, inl, inr, arith,
  if◌then◌else◌,
}
use ubersdr_ntp.Prelude.Int.{ℤ, pos, ◌+ℤ◌, ◌-ℤ◌, ◌*ℤ◌, int_laws, *ℤ_parts}
use ubersdr_ntp.Civil.{CivilDate, era, in_era, era_year_start, march_day}
use ubersdr_ntp.Civil.Era.{era_400, era_400_unique}
use ubersdr_ntp.Civil.Calendar.{is_leap, month_length, IsDate, next_day, day_number}
use ubersdr_ntp.Civil.March.{is_leap_pos}
use ubersdr_ntp.Civil.RoundTrip.{march_year_of, day_number-march_day}

-- The days before March 1st of a year, from the start of era 0.
abbrev pub start : ℤ → ℤ
start y = era 400 y *ℤ pos 146097 +ℤ pos (era_year_start (in_era 400 y))

era_year_start-add_one :
    (r : ℕ)
    → r < 399
    → era_year_start (r + 1) ≡ era_year_start r + (if is_leap (pos (r + 1)) then 366 else 365)
unfolding era_year_start is_leap
era_year_start-add_one r h = ground arith

era_year_start_ends : (era_year_start 0 ≡ 0) × (era_year_start 399 + 366 ≡ 146097)
unfolding era_year_start
era_year_start_ends = (refl, refl)

start_at :
    (e : ℤ) (r : ℕ)
    → r < 400
    → start (pos r +ℤ e *ℤ pos 400) ≡ e *ℤ pos 146097 +ℤ pos (era_year_start r)
start_at e r h = rw ((era_400_unique e r h).0, (era_400_unique e r h).1)

-- From one year of an era to the next.
start_within :
    (e : ℤ) (r : ℕ)
    → r < 399
    → start (pos r +ℤ e *ℤ pos 400 +ℤ pos 1)
      ≡ start (pos r +ℤ e *ℤ pos 400)
        +ℤ pos (if is_leap (pos r +ℤ e *ℤ pos 400 +ℤ pos 1) then 366 else 365)
start_within e r h =
    rw
      (
        shift,
        start_at e (r + 1) (omega arith),
        start_at e r (omega arith),
        is_leap_pos e (r + 1) (omega arith),
      )
      (omega (int_laws, era_year_start-add_one r h))
  where
    shift : pos r +ℤ e *ℤ pos 400 +ℤ pos 1 ≡ pos (r + 1) +ℤ e *ℤ pos 400
    shift = omega int_laws

zero_leap : is_leap (pos 0) ≡ true
unfolding is_leap
zero_leap = refl

-- From the last year of an era to the first of the next, which ends in a February 29th.
start_across :
    (e : ℤ)
    → start (pos 399 +ℤ e *ℤ pos 400 +ℤ pos 1)
      ≡ start (pos 399 +ℤ e *ℤ pos 400)
        +ℤ pos (if is_leap (pos 399 +ℤ e *ℤ pos 400 +ℤ pos 1) then 366 else 365)
start_across e =
    rw
      (
        shift,
        start_at (e +ℤ pos 1) 0 (omega arith),
        start_at e 399 (omega arith),
        is_leap_pos (e +ℤ pos 1) 0 (omega arith),
        zero_leap,
      )
      (omega (int_laws, *ℤ_parts e 146097, *ℤ_parts (e +ℤ pos 1) 146097, era_year_start_ends))
  where
    shift : pos 399 +ℤ e *ℤ pos 400 +ℤ pos 1 ≡ pos 0 +ℤ (e +ℤ pos 1) *ℤ pos 400
    shift = omega (int_laws, *ℤ_parts e 400, *ℤ_parts (e +ℤ pos 1) 400)

start-add_one_at :
    (e : ℤ) (r : ℕ)
    → r < 400
    → start (pos r +ℤ e *ℤ pos 400 +ℤ pos 1)
      ≡ start (pos r +ℤ e *ℤ pos 400)
        +ℤ pos (if is_leap (pos r +ℤ e *ℤ pos 400 +ℤ pos 1) then 366 else 365)
start-add_one_at e r h = elim (dec_lt r 399) [
  | yes p ↦ start_within e r p
  | no p ↦ let last : r ≡ 399 = omega arith in rw last (start_across e)
]

-- A March-based year has 366 days if it ends in a leap year, and 365 if not.
start-add_one :
    (y : ℤ) → start (y +ℤ pos 1) ≡ start y +ℤ pos (if is_leap (y +ℤ pos 1) then 366 else 365)
start-add_one y =
    subst (λ w. start (w +ℤ pos 1) ≡ start w +ℤ pos (if is_leap (w +ℤ pos 1) then 366 else 365))
      (sym (era_400 y).1) (start-add_one_at (era 400 y) (in_era 400 y) (era_400 y).0)

pub number_from_start :
    (t : CivilDate)
    → IsDate t
    → day_number t ≡ start (march_year_of t) +ℤ pos (march_day t.month t.day) -ℤ pos 719468
number_from_start t v = day_number-march_day t v ∙ omega int_laws

pub next_day-IsDate : (t : CivilDate) → IsDate t → IsDate (next_day t)
next_day-IsDate t v = ground arith

pub march_day-suc_day :
    (m d : ℕ)
    → 1 ≤ m
    → m ≤ 12
    → 1 ≤ d
    → d < month_length true m
    → march_day m (d + 1) ≡ march_day m d + 1
unfolding march_day
march_day-suc_day m d hm hm' hd hd' = ground arith

pub march_day-suc_month :
    (m : ℕ) → 1 ≤ m → m < 12 → m ≢ 2 → march_day (m + 1) 1 ≡ march_day m (month_length true m) + 1
unfolding march_day
march_day-suc_month m hm hm' hf = ground arith

february_end : march_day 2 28 ≡ 364
unfolding march_day
february_end = refl

leap_february_end : march_day 2 29 ≡ 365
unfolding march_day
leap_february_end = refl

pub march_start : (march_day 3 1 ≡ 0) × (march_day 12 31 ≡ 305) × (march_day 1 1 ≡ 306)
unfolding march_day
march_start = (refl, refl, refl)

-- The days of the year that ends in February of year y.
pub before_march :
    (y : ℤ) → start y ≡ start (y -ℤ pos 1) +ℤ pos (march_day 2 (month_length (is_leap y) 2) + 1)
before_march y =
    ap start back
    ∙ (start-add_one (y -ℤ pos 1)
        ∙ rw (← back) (elim (Bool-cases (is_leap y)) [
          | inl leap ↦ rw (leap, leap_february_end) refl
          | inr common ↦ rw (common, february_end) refl
        ]))
  where
    back : y ≡ y -ℤ pos 1 +ℤ pos 1
    back = omega int_laws
