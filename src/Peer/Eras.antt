-- ===== src/Peer/Eras.antt =====
-- src/NtpClient.cpp: the loops of `fromNtpTime` on exact numbers, whole millionths of a second, in place
-- of the doubles of the source.
use ubersdr_ntp.Prelude.{
  ℕ, zero, suc, ◌+◌, ◌*◌, ◌≤◌, ◌<◌, ◌≡◌, refl, sym, subst, true, false, arith, ◌⊎◌, Bool-cases, inl,
  inr,
}
use ubersdr_ntp.Prelude.Int.{pos, pos_part, neg_part, ◌*ℤ◌, ◌/ℤ◌, ltb_ℤ}
use ubersdr_ntp.Prelude.Micros.{Micros, micros}
use ubersdr_ntp.Prelude.Double.{add, sub}
use ubersdr_ntp.Peer.Wire.{half_era, eras_down, eras_up, eras_between, nearest_era}

abbrev era : ℕ
era = 4_294_967_296_000_000

abbrev pub half : ℕ
half = 2_147_483_648_000_000

-- a is at most n above b.
abbrev pub Within : ℕ → Micros → Micros → Type 0
Within n a b = pos_part a + neg_part b ≤ pos_part b + neg_part a + n

half_era_is : half_era {D = Micros} ≡ pos half
unfolding ◌*ℤ◌ ◌/ℤ◌
half_era_is = refl

-- There is a round for each era between the times, and one more.
eras_between_is : (a b : Micros) → pos_part (sub a b) + neg_part (sub a b) < eras_between a b * era
unfolding ◌*ℤ◌ ◌/ℤ◌
eras_between_is a b = ground arith

eras_between-Within :
    (a b : Micros) → let n : ℕ = half + eras_between a b * era in Within n a b × Within n b a
eras_between-Within a b = (ground (arith, eras_between_is a b), ground (arith, eras_between_is a b))

-- The same but for whole eras.
abbrev pub ErasApart : Micros → Micros → Type 0
ErasApart a b =
    (j : ℕ) × (k : ℕ) × (pos_part a + neg_part b + j * era ≡ pos_part b + neg_part a + k * era)

ErasApart-refl : (a : Micros) → ErasApart a a
ErasApart-refl a = (0, 0, refl)

ErasApart-trans : (a b c : Micros) → ErasApart a b → ErasApart b c → ErasApart a c
ErasApart-trans a b c (j, k, e) (j', k', e') = (j + j', k + k', omega (arith, e, e'))

-- A round of a loop: what its test says, and what is left after it.
module _ (a b : Micros) where
  near : ltb_ℤ (pos half) (sub a b) ≡ false → Within half a b
  near h = ground arith

  down :
      (left : ℕ)
      → Within (half + suc left * era) a b
      → Within (half + left * era) (sub a (pos era)) b
  down left h = ground arith

  down_far : ltb_ℤ (pos half) (sub a b) ≡ true → Within half b (sub a (pos era))
  down_far h = ground arith

  down_ErasApart : ErasApart (sub a (pos era)) a
  down_ErasApart = (1, 0, ground arith)

  up :
      (left : ℕ)
      → Within (half + suc left * era) b a
      → Within (half + left * era) b (add a (pos era))
  up left h = ground arith

  up_far : ltb_ℤ (pos half) (sub b a) ≡ true → Within half (add a (pos era)) b
  up_far h = ground arith

  up_ErasApart : ErasApart (add a (pos era)) a
  up_ErasApart = (0, 1, ground arith)

-- With a round for each era that the time is past the known one, the loop ends with its test, and does
-- not take the time past the other end.
eras_down_lem :
    (left : ℕ) (approx unix : Micros)
    → Within (half + left * era) unix approx
    → let y = eras_down left approx unix in
      Within half y approx × ((y ≡ unix) ⊎ Within half approx y) × ErasApart y unix
unfolding eras_down ◌*ℤ◌ ◌/ℤ◌
eras_down_lem zero approx unix h = (ground (arith, h), inl refl, ErasApart-refl unix)
eras_down_lem (suc left) approx unix h = elim (Bool-cases (ltb_ℤ (pos half) (sub unix approx))) [
  | inl e ↦
      (let next = sub unix (pos era) in
        let ih = eras_down_lem left approx next (down unix approx left h) in
        rw e (
          ih.0,
          inr (elim ih.1 [ inl same ↦ rw same (down_far unix approx e) | inr within ↦ within ]),
          ErasApart-trans _ next unix ih.2 (down_ErasApart unix approx),
        ))
  | inr e ↦ rw e (near unix approx e, inl refl, ErasApart-refl unix)
]

eras_up_lem :
    (left : ℕ) (approx unix : Micros)
    → Within (half + left * era) approx unix
    → let y = eras_up left approx unix in
      Within half approx y × ((y ≡ unix) ⊎ Within half y approx) × ErasApart y unix
unfolding eras_up ◌*ℤ◌ ◌/ℤ◌
eras_up_lem zero approx unix h = (ground (arith, h), inl refl, ErasApart-refl unix)
eras_up_lem (suc left) approx unix h = elim (Bool-cases (ltb_ℤ (pos half) (sub approx unix))) [
  | inl e ↦
      (let next = add unix (pos era) in
        let ih = eras_up_lem left approx next (up unix approx left h) in
        rw e (
          ih.0,
          inr (elim ih.1 [ inl same ↦ rw same (up_far unix approx e) | inr within ↦ within ]),
          ErasApart-trans _ next unix ih.2 (up_ErasApart unix approx),
        ))
  | inr e ↦ rw e (near approx unix e, inl refl, ErasApart-refl unix)
]

-- On exact times the rounds that the loops are given are enough for both to end, and they end at the
-- time that is the given one but for whole eras of 2^32 seconds, and that is at most half an era from
-- the time that is roughly known, on either side.
pub nearest_era-Within :
    (approx unix : Micros)
    → let y = nearest_era approx unix in
      Within half y approx × Within half approx y × ErasApart y unix
unfolding nearest_era
nearest_era-Within approx unix =
    let low = eras_down (eras_between unix approx) approx unix in
    let first = eras_down_lem _ approx unix (eras_between-Within unix approx).0 in
    let last = eras_up_lem _ approx low (eras_between-Within low approx).1 in
    (
      elim last.1 [
        | inl same ↦ subst (λ t. Within half t approx) (sym same) first.0
        | inr within ↦ within
      ],
      last.0,
      ErasApart-trans _ low unix last.2 first.2,
    )
