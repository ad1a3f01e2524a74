-- ===== src/Civil/NextDay.antt =====
-- One day number on is one date on, so the two conversions count the calendar's days.
use ubersdr_ntp.Prelude.{
  ℕ, ◌+◌, ◌≤◌, ◌<◌, ◌≡◌, sym, ap, ◌∙◌, ◌≢◌, Bool, true, false, Bool-cases, subst, ℕ_discrete,
  lt→ltb, ltb→lt, ltb→ge, inl, inr, arith, leb, ltb,
}
use ubersdr_ntp.Prelude.Int.{ℤ, pos, ◌+ℤ◌, ◌-ℤ◌, int_laws, parts_of_eq}
use ubersdr_ntp.Civil.{CivilDate, march_day, civil_from_days}
use ubersdr_ntp.Civil.Calendar.{
  is_leap, month_length, days_in_month, IsDate, date, next_day, day_number,
}
use ubersdr_ntp.Civil.March.{month_length_le}
use ubersdr_ntp.Civil.RoundTrip.{
  march_year_of, civil_from_days-IsDate, civil_from_days-day_number, day_number-civil_from_days,
}
use ubersdr_ntp.Civil.Start.{
  start, number_from_start, next_day-IsDate, march_day-suc_day, march_day-suc_month, march_start,
  before_march,
}

Follows : CivilDate → CivilDate → Type 0
Follows t u = day_number u ≡ day_number t +ℤ pos 1

number_step :
    (t u : CivilDate)
    → IsDate t
    → IsDate u
    → start (march_year_of u) +ℤ pos (march_day u.month u.day)
      ≡ start (march_year_of t) +ℤ pos (march_day t.month t.day) +ℤ pos 1
    → Follows t u
unfolding Follows
number_step t u vt vu e =
    rw (number_from_start t vt, number_from_start u vu) (omega (int_laws, parts_of_eq e))

same_month :
    (y : ℤ) (m d : ℕ)
    → IsDate (date y m d)
    → IsDate (date y m (d + 1))
    → Follows (date y m d) (date y m (d + 1))
same_month y m d v w = number_step (date y m d) (date y m (d + 1)) v w (
    rw
      (march_day-suc_day m d v.month_in.0 v.month_in.1 v.day_in.0
        (omega (arith, w.day_in, month_length_le (is_leap y) m)))
      (omega int_laws))

february_ends :
    (y : ℤ)
    → IsDate (date y 2 (month_length (is_leap y) 2))
    → Follows (date y 2 (month_length (is_leap y) 2)) (date y 3 1)
february_ends y v =
    number_step (date y 2 (month_length (is_leap y) 2)) (date y 3 1) v
      (record { month_in = omega arith; day_in = omega arith })
      (rw march_start.0 (omega (int_laws, parts_of_eq (before_march y))))

other_month_ends :
    (y : ℤ) (m : ℕ)
    → m < 12
    → m ≢ 2
    → IsDate (date y m (month_length (is_leap y) m))
    → IsDate (date y (m + 1) 1)
    → Follows (date y m (month_length (is_leap y) m)) (date y (m + 1) 1)
other_month_ends y m h f v w =
    number_step (date y m (month_length (is_leap y) m)) (date y (m + 1) 1) v w
      (rw (same_half, length, march_day-suc_month m v.month_in.0 h f) (omega int_laws))
  where
    same_half : leb (m + 1) 2 ≡ leb m 2
    same_half = ground arith

    length : month_length (is_leap y) m ≡ month_length true m
    length = ground arith

month_end :
    (y : ℤ) (m : ℕ)
    → m < 12
    → IsDate (date y m (days_in_month y m))
    → IsDate (date y (m + 1) 1)
    → Follows (date y m (days_in_month y m)) (date y (m + 1) 1)
month_end y m h v w = elim (ℕ_discrete m 2) [
  | yes e ↦
      subst
        (λ k.
          IsDate (date y k (days_in_month y k))
          → Follows (date y k (days_in_month y k)) (date y (k + 1) 1))
        (sym e) (february_ends y) v
  | no f ↦ other_month_ends y m h f v w
]

year_end :
    (y : ℤ)
    → IsDate (date y 12 31)
    → IsDate (date (y +ℤ pos 1) 1 1)
    → Follows (date y 12 31) (date (y +ℤ pos 1) 1 1)
year_end y v w =
    number_step (date y 12 31) (date (y +ℤ pos 1) 1 1) v w
      (rw (march_start.1, march_start.2, same) (omega int_laws))
  where
    same : y +ℤ pos 1 -ℤ pos 1 ≡ y
    same = omega int_laws

next_by_day :
    (t : CivilDate) → IsDate t → t.day < days_in_month t.year t.month → Follows t (next_day t)
next_by_day t v h =
    rw (lt→ltb _ _ h)
      (same_month t.year t.month t.day v (record { month_in = v.month_in; day_in = omega arith }))

month_length_pos : (b : Bool) (m : ℕ) → 1 ≤ month_length b m
month_length_pos true m = ground arith
month_length_pos false m = ground arith

month_ends :
    (t : CivilDate)
    → IsDate t
    → t.day ≡ days_in_month t.year t.month
    → t.month < 12
    → Follows t (date t.year (t.month + 1) 1)
month_ends t v last h =
    subst (λ d. IsDate (date y m d) → Follows (date y m d) (date y (m + 1) 1)) (sym last)
      (λ w. month_end y m h w (record {
        month_in = omega (arith, v.month_in);
        day_in = (omega arith, month_length_pos (is_leap y) (m + 1));
      }))
      v
  where
    open t use {year as y, month as m}

year_ends :
    (t : CivilDate)
    → IsDate t
    → t.day ≡ days_in_month t.year t.month
    → t.month ≡ 12
    → Follows t (date (t.year +ℤ pos 1) 1 1)
year_ends t v last h =
    subst (λ (u : CivilDate). IsDate u → Follows u (date (t.year +ℤ pos 1) 1 1)) here
      (λ w. year_end t.year w (record { month_in = omega arith; day_in = omega arith })) v
  where
    here : date t.year 12 31 ≡ t
    here = λ i. record {
      year = t.year;
      month = sym h i;
      day = (ap (days_in_month t.year) (sym h) ∙ sym last) i;
    }

-- The date that the calendar puts next has the next day number.
pub day_number-next_day :
    (t : CivilDate) → IsDate t → day_number (next_day t) ≡ day_number t +ℤ pos 1
unfolding Follows
day_number-next_day t v = elim (Bool-cases (ltb t.day (days_in_month t.year t.month))) [
  | inl within ↦ next_by_day t v (ltb→lt _ _ within)
  | inr over ↦ elim (Bool-cases (ltb t.month 12)) [
    | inl before ↦ rw (over, before) (month_ends t v (last over) (ltb→lt _ _ before))
    | inr december ↦ rw (over, december) (year_ends t v (last over) (twelfth december))
  ]
]
  where
    last : ltb t.day (days_in_month t.year t.month) ≡ false → t.day ≡ days_in_month t.year t.month
    last e = omega (arith, ltb→ge _ _ e, v.day_in)

    twelfth : ltb t.month 12 ≡ false → t.month ≡ 12
    twelfth e = omega (arith, ltb→ge _ _ e, v.month_in)

-- `civilFromDays` walks the calendar: the next day number gives the next date.
pub civil_from_days-next_day : (z : ℤ) → civil_from_days (z +ℤ pos 1) ≡ next_day (civil_from_days z)
civil_from_days-next_day z =
    ap civil_from_days (sym step)
    ∙ civil_from_days-day_number (next_day t) (next_day-IsDate t (civil_from_days-IsDate z))
  where
    t : CivilDate
    t = civil_from_days z

    step : day_number (next_day t) ≡ z +ℤ pos 1
    step =
        day_number-next_day t (civil_from_days-IsDate z)
        ∙ ap (λ w. w +ℤ pos 1) (day_number-civil_from_days z)
