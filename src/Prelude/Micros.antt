-- ===== src/Prelude/Micros.antt =====
-- A concrete floating point for the tests: millionths, as integers.
use Prim.Native.Nat.{◌+◌, ◌-◌, ◌*◌, ◌^◌}
use ubersdr_ntp.Prelude.Int.{ℤ, pos, pos_part, neg_part, ◌*ℤ◌, ◌/ℤ◌, ltb_ℤ, leb_ℤ, sub_ℕ}
use ubersdr_ntp.Prelude.Double.{Double}

abbrev pub Micros : Type 0
Micros = ℤ

-- The rules of `*` and `/` at a scale of 10^6.
instance abbrev pub micros : Double Micros
micros = record {
  dadd = λ a b. sub_ℕ (pos_part a + pos_part b) (neg_part a + neg_part b);
  dsub = λ a b. sub_ℕ (pos_part a + neg_part b) (neg_part a + pos_part b);
  dmul = λ a b. (a *ℤ b) /ℤ pos 1_000_000;
  ddiv = λ a b. (a *ℤ pos 1_000_000) /ℤ b;
  dabs = λ a. pos (pos_part a + neg_part a);
  dneg = λ a. sub_ℕ (neg_part a) (pos_part a);
  dinfinity = pos (10 ^ 24);
  dlt = ltb_ℤ;
  dle = leb_ℤ;
  dfloor = λ a. a /ℤ pos 1_000_000;
  decimal = λ n k. pos (n * 10 ^ (6 - k));
  of_int = λ n. n *ℤ pos 1_000_000;
}
