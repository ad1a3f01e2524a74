-- ===== src/Fields/Range.antt =====
-- The voter's range gate accepts exactly the times of 2000 to 2099.
use ubersdr_ntp.Prelude.{ℕ, ◌≤◌, ◌<◌, ◌≡◌, subst, true, and_left, arith}
use ubersdr_ntp.Prelude.Int.{pos, pos_part, ◌≤ℤ◌, pos-pos_part, pos_part-le}
use ubersdr_ntp.Fields.{TimeFields, in_range, is_range_valid}
use ubersdr_ntp.Fields.Days.{fields, year_length, IsTime, is_leap_year2-pos}

in_range-fields :
    (mi h d y : ℕ)
    → mi < 60
    → h < 24
    → 1 ≤ d
    → d ≤ 366
    → y < 100
    → in_range (fields mi h d y) ≡ true
unfolding in_range
in_range-fields mi h d y a b c e f = ground arith

pub is_range_valid-fields :
    (mi h d y : ℕ) → IsTime mi h d y → is_range_valid (fields mi h d y) ≡ true
unfolding is_range_valid
is_range_valid-fields mi h d y v =
    rw (is_leap_year2-pos y v.4) (ground (arith, in_range-fields mi h d y))

-- The numbers of a time that passes the gate.
pub record Ranged (t : TimeFields) : Type 0 where
  pub minute : ℕ
  pub hour : ℕ
  pub day : ℕ
  pub year : ℕ
  pub time_is : t ≡ fields minute hour day year
  pub time_in : IsTime minute hour day year

record InRange (t : TimeFields) : Type 0 where
  minute : (pos 0 ≤ℤ t.minute) × (t.minute ≤ℤ pos 59)
  hour : (pos 0 ≤ℤ t.hour) × (t.hour ≤ℤ pos 23)
  doy : (pos 1 ≤ℤ t.doy) × (t.doy ≤ℤ pos 366)
  year2 : (pos 0 ≤ℤ t.year2) × (t.year2 ≤ℤ pos 99)

in_range-InRange : (t : TimeFields) → in_range t ≡ true → InRange t
unfolding in_range
in_range-InRange t h = ground arith

common_day :
    (mi h d y : ℕ)
    → y < 100
    → d ≤ 366
    → is_range_valid (fields mi h d y) ≡ true
    → (d ≤ year_length y) × (in_range (fields mi h d y) ≡ true)
unfolding is_range_valid
common_day mi h d y hy hd v = ground (arith, is_leap_year2-pos y)

pub gate_first : (t : TimeFields) → is_range_valid t ≡ true → in_range t ≡ true
unfolding is_range_valid
gate_first t h = and_left _ _ h

pub is_range_valid-Ranged : (t : TimeFields) → is_range_valid t ≡ true → Ranged t
is_range_valid-Ranged t h = record {
  minute = pos_part t.minute;
  hour = pos_part t.hour;
  day = pos_part t.doy;
  year = pos_part t.year2;
  time_is = same;
  time_in = (
    omega (arith, pos_part-le t.minute 59 r.minute.1),
    omega (arith, pos_part-le t.hour 23 r.hour.1),
    omega (arith, r.doy),
    (common_day _ _ (pos_part t.doy) (pos_part t.year2)
        (omega (arith, pos_part-le t.year2 99 r.year2.1)) (pos_part-le t.doy 366 r.doy.1)
        (subst (λ u. is_range_valid u ≡ true) same h)).0,
    omega (arith, pos_part-le t.year2 99 r.year2.1),
  );
}
  where
    r : InRange t
    r = in_range-InRange t (gate_first t h)

    same : t ≡ fields (pos_part t.minute) (pos_part t.hour) (pos_part t.doy) (pos_part t.year2)
    same = λ i. record {
      minute = pos-pos_part t.minute r.minute.0 i;
      hour = pos-pos_part t.hour r.hour.0 i;
      doy = pos-pos_part t.doy (omega (arith, r.doy.0)) i;
      year2 = pos-pos_part t.year2 r.year2.0 i;
    }
