-- ===== src/Tally/Window.antt =====
-- src/ClientTally.cpp: the sum of a ring against the part of a log that is of the past hour.
use ubersdr_ntp.Prelude.{
  ℕ, zero, suc, ◌+◌, ◌-◌, ◌<◌, ◌≡◌, refl, sym, ap, subst, ◌∙◌, true, List, [], ◌∷◌, get_or, All,
  if◌then◌else◌, arith,
}
use ubersdr_ntp.Prelude.Int.{ℤ, pos, ◌+ℤ◌, ◌-ℤ◌, ◌≤ℤ◌, leb_ℤ, ltb_ℤ, +ℤ_parts}
use ubersdr_ntp.Tally.{slot, sum_slots}
use ubersdr_ntp.Tally.Slots.{count_at, add_add, add_zero, add_suc}
use ubersdr_ntp.Tally.Ring.{later_add, Represents}

-- How many minutes of a log are `first` or later.
abbrev pub since : ℤ → List ℤ → ℕ
since first [] = 0
since first (x ∷ log) = (if leb_ℤ first x then 1 else 0) + since first log

-- How many are of the hour that ends with a minute.
abbrev pub past_hour : ℤ → List ℤ → ℕ
past_hour now log = since (now -ℤ pos 59) log

-- How many are of n minutes from k on, minute by minute.
abbrev counted : ℕ → ℤ → List ℤ → ℕ
counted zero k log = 0
counted (suc n) k log = count_at k log + counted n (k +ℤ pos 1) log

sum_slots-counted :
    (n : ℕ) (k : ℤ) (xs : List ℕ) (log : List ℤ)
    → ((i : ℕ) → i < n → get_or xs (slot (k +ℤ pos i)) 0 ≡ count_at (k +ℤ pos i) log)
    → sum_slots n k xs ≡ counted n k log
unfolding sum_slots
sum_slots-counted zero k xs log h = refl
sum_slots-counted (suc n) k xs log h =
    let here =
      subst (λ j. get_or xs (slot j) 0 ≡ count_at j log) (add_zero k) (h 0 (omega arith)) in
    let rest = sum_slots-counted n (k +ℤ pos 1) xs log (λ i below.
      subst (λ j. get_or xs (slot j) 0 ≡ count_at j log) (sym (add_suc k i))
        (h (suc i) (omega (arith, below)))) in
    omega (arith, here, rest)

since_step : (k : ℤ) (log : List ℤ) → since k log ≡ count_at k log + since (k +ℤ pos 1) log
since_step k [] = omega arith
since_step k (x ∷ log) = ground (arith, since_step k log, +ℤ_parts k (pos 1))

since_none : (k : ℤ) (log : List ℤ) → All (λ x. ltb_ℤ x k ≡ true) log → since k log ≡ 0
since_none k [] h = refl
since_none k (x ∷ log) h = ground (arith, h.0, since_none k log h.1)

counted-since :
    (n : ℕ) (k : ℤ) (log : List ℤ)
    → All (λ x. ltb_ℤ x (k +ℤ pos n) ≡ true) log
    → counted n k log ≡ since k log
counted-since zero k log h =
    sym (since_none k log (subst (λ j. All (λ x. ltb_ℤ x j ≡ true) log) (add_zero k) h))
counted-since (suc n) k log h =
    let rest =
      counted-since n (k +ℤ pos 1) log
        (subst (λ j. All (λ x. ltb_ℤ x j ≡ true) log) (sym (add_suc k n)) h) in
    omega (arith, rest, since_step k log)

All-below :
    (log : List ℤ) (last j : ℤ)
    → ltb_ℤ last j ≡ true
    → All (λ x. x ≤ℤ last) log
    → All (λ x. ltb_ℤ x j ≡ true) log
All-below [] last j lt h = tt
All-below (x ∷ log) last j lt h = (ground (arith, h.0, lt), All-below log last j lt h.1)

-- The sum of a ring over an hour that ends g minutes after its newest.
pub sum_slots-since :
    (xs : List ℕ) (b : ℤ) (log : List ℤ) (g : ℕ)
    → Represents xs b log
    → sum_slots (60 - g) (b +ℤ pos g) xs ≡ since (b +ℤ pos g) log
sum_slots-since xs b log g r =
    sum_slots-counted (60 - g) (b +ℤ pos g) xs log (λ i below.
      subst (λ j. get_or xs (slot j) 0 ≡ count_at j log) (sym (add_add b g i))
        (r.holds (g + i) (omega (arith, below))))
    ∙ counted-since (60 - g) (b +ℤ pos g) log (
        All-below log (b +ℤ pos 59) _
          (ap (ltb_ℤ (b +ℤ pos 59)) (add_add b g (60 - g))
            ∙ later_add b 59 (g + (60 - g)) (omega arith))
          r.none_newer)
