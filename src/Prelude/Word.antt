-- ===== src/Prelude/Word.antt =====
-- `unsigned` arithmetic: 32-bit words as native numbers that wrap.
use Prim.Native.Nat.{ℕ, ◌+◌, ◌-◌, ◌*◌, ◌%◌, ◌^◌}
use ubersdr_ntp.Prelude.Int.{ℤ, pos_part, neg_part}

abbrev pub u32_mod : ℕ
u32_mod = 2 ^ 32

abbrev pub add32 : ℕ → ℕ → ℕ
add32 a b = (a + b) % u32_mod

abbrev pub sub32 : ℕ → ℕ → ℕ
sub32 a b = (a + u32_mod - b) % u32_mod

abbrev pub mul32 : ℕ → ℕ → ℕ
mul32 a b = (a * b) % u32_mod

-- A signed integer as `unsigned`: its residue.
abbrev pub to_u32 : ℤ → ℕ
to_u32 a = (pos_part a + (u32_mod - neg_part a % u32_mod)) % u32_mod
