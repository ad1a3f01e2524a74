-- ===== src/Instants/Floor.antt =====
-- `floorDiv` and `floorMod`: the quotient rounded down and a remainder that is never negative.
use ubersdr_ntp.Prelude.{ℕ, ◌/◌, ◌≡◌, arith}
use ubersdr_ntp.Prelude.Int.{
  ℤ, pos, negsuc, ◌+ℤ◌, ◌-ℤ◌, ◌*ℤ◌, ◌/ℤ◌, ◌%ℤ◌, ◌≤ℤ◌, pos_part, int_laws, pos-mul, *ℤ_parts,
}
use ubersdr_ntp.Instants.{floor_div, floor_mod}

-- What `floorDiv` and `floorMod` make of a: a multiple of the divisor and a place within it.
abbrev pub Splits : ℕ → ℤ → ℤ → ℤ → Type 0
Splits n a q r = (a ≡ r +ℤ q *ℤ pos n) × (pos 0 ≤ℤ r) × (r +ℤ pos 1 ≤ℤ pos n)

negative : (q n : ℕ) → pos_part (negsuc q *ℤ pos n) ≡ 0
unfolding ◌*ℤ◌
negative q n = ground arith

floor_div_pos_1000 : (a : ℕ) → floor_div (pos a) (pos 1000) ≡ pos (a / 1000)
unfolding floor_div ◌-ℤ◌ ◌/ℤ◌ ◌%ℤ◌
floor_div_pos_1000 a = ground arith

floor_div_negsuc_1000 : (a : ℕ) → floor_div (negsuc a) (pos 1000) ≡ negsuc (a / 1000)
unfolding floor_div ◌-ℤ◌ ◌/ℤ◌ ◌%ℤ◌
floor_div_negsuc_1000 a = ground arith

pub floor_1000 : (a : ℤ) → Splits 1000 a (floor_div a (pos 1000)) (floor_mod a (pos 1000))
unfolding floor_mod
floor_1000 (pos a) =
    rw (floor_div_pos_1000 a, pos-mul (a / 1000) 1000)
      (omega int_laws, omega int_laws, omega int_laws)
floor_1000 (negsuc a) = rw (floor_div_negsuc_1000 a) (
  omega int_laws,
  omega (int_laws, *ℤ_parts (negsuc (a / 1000)) 1000, negative (a / 1000) 1000),
  omega (int_laws, *ℤ_parts (negsuc (a / 1000)) 1000, negative (a / 1000) 1000),
)

floor_div_pos_86400 : (a : ℕ) → floor_div (pos a) (pos 86400) ≡ pos (a / 86400)
unfolding floor_div ◌-ℤ◌ ◌/ℤ◌ ◌%ℤ◌
floor_div_pos_86400 a = ground arith

floor_div_negsuc_86400 : (a : ℕ) → floor_div (negsuc a) (pos 86400) ≡ negsuc (a / 86400)
unfolding floor_div ◌-ℤ◌ ◌/ℤ◌ ◌%ℤ◌
floor_div_negsuc_86400 a = ground arith

pub floor_86400 : (a : ℤ) → Splits 86400 a (floor_div a (pos 86400)) (floor_mod a (pos 86400))
unfolding floor_mod
floor_86400 (pos a) =
    rw (floor_div_pos_86400 a, pos-mul (a / 86400) 86400)
      (omega int_laws, omega int_laws, omega int_laws)
floor_86400 (negsuc a) = rw (floor_div_negsuc_86400 a) (
  omega int_laws,
  omega (int_laws, *ℤ_parts (negsuc (a / 86400)) 86400, negative (a / 86400) 86400),
  omega (int_laws, *ℤ_parts (negsuc (a / 86400)) 86400, negative (a / 86400) 86400),
)
