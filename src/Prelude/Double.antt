-- ===== src/Prelude/Double.antt =====
-- Floating point, which the source takes from the compiler and the C library: the operations are
-- fields, so what is stated over every instance holds whatever a rounding does, of NaN too.
use Prim.Native.Nat.{ℕ}
use mathlib.Core.Bool.{Bool}
use ubersdr_ntp.Prelude.Tests.{if◌then◌else◌}
use ubersdr_ntp.Prelude.Int.{ℤ}

-- `decimal n k` is the literal n / 10^k, `of_int` the conversion of an integer.
pub record Double (D : Type 0) : Type 0 where
  pub dadd : D → D → D
  pub dsub : D → D → D
  pub dmul : D → D → D
  pub ddiv : D → D → D
  pub dabs : D → D
  pub dneg : D → D
  pub dinfinity : D
  pub dlt : D → D → Bool
  pub dle : D → D → Bool
  pub dfloor : D → ℤ
  pub decimal : ℕ → ℕ → D
  pub of_int : ℤ → D

module _ {D : Type 0} ⦃f : Double D⦄ where
  abbrev pub add : D → D → D
  add = f.dadd

  abbrev pub sub : D → D → D
  sub = f.dsub

  abbrev pub mul : D → D → D
  mul = f.dmul

  abbrev pub div : D → D → D
  div = f.ddiv

  abbrev pub abs : D → D
  abs = f.dabs

  abbrev pub neg : D → D
  neg = f.dneg

  abbrev pub infinity : D
  infinity = f.dinfinity

  abbrev pub lt : D → D → Bool
  lt = f.dlt

  abbrev pub le : D → D → Bool
  le = f.dle

  abbrev pub floor : D → ℤ
  floor = f.dfloor

  abbrev pub lit : ℕ → ℕ → D
  lit = f.decimal

  abbrev pub from_int : ℤ → D
  from_int = f.of_int

  -- std::min and std::max, which return the first argument on a tie.
  abbrev pub dmin : D → D → D
  dmin a b = if lt b a then b else a

  abbrev pub dmax : D → D → D
  dmax a b = if lt a b then b else a
