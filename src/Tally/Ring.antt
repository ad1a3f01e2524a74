-- ===== src/Tally/Ring.antt =====
-- src/ClientTally.cpp: the ring of minute buckets against the minutes that it counts.
use Prim.Native.Nat.{min}
use ubersdr_ntp.Prelude.{
  dec_lt, ℕ, ◌+◌, ◌%◌, ◌≤◌, ◌<◌, ◌≡◌, ◌≢◌, refl, sym, ap, subst, ◌∙◌, true, List, [], ◌∷◌, length,
  length-set, get_or, All, if_lem, arith, ltb,
}
use ubersdr_ntp.Prelude.Int.{ℤ, pos, ◌+ℤ◌, ◌≤ℤ◌, ltb_ℤ, +ℤ_parts}
use ubersdr_ntp.Tally.{slot, clear_slots, bump, uint32_max}
use ubersdr_ntp.Tally.Slots.{
  slot_lt, slot_add, add_add, length-clear_slots, eqb_add, clear_slots_out, clear_slots_in,
  count_at, get_or-set, get_or-set_ne,
}

-- A ring whose newest minute is b + 59 against a log of minutes: each bucket of the hour from b on holds
-- how often its minute stands in the log, and the log has none that is newer.
pub record Represents (xs : List ℕ) (b : ℤ) (log : List ℤ) : Type 0 where
  pub length_is : length xs ≡ 60
  pub none_newer : All (λ k. k ≤ℤ b +ℤ pos 59) log
  pub holds : (i : ℕ) → i < 60 → get_or xs (slot (b +ℤ pos i)) 0 ≡ count_at (b +ℤ pos i) log

count_at_newer :
    (k : ℤ) (log : List ℤ) (last : ℤ)
    → All (λ x. x ≤ℤ last) log
    → ltb_ℤ last k ≡ true
    → count_at k log ≡ 0
count_at_newer k [] last h newer = refl
count_at_newer k (x ∷ log) last h newer =
    let rest = count_at_newer k log last h.1 newer in ground (arith, h.0, rest)

pub later_add : (b : ℤ) (i j : ℕ) → i < j → ltb_ℤ (b +ℤ pos i) (b +ℤ pos j) ≡ true
later_add b i j h = ground (arith, +ℤ_parts b (pos i), +ℤ_parts b (pos j), h)

All-later :
    (log : List ℤ) (b : ℤ) (i j : ℕ)
    → i ≤ j
    → All (λ k. k ≤ℤ b +ℤ pos i) log
    → All (λ k. k ≤ℤ b +ℤ pos j) log
All-later [] b i j le h = tt
All-later (x ∷ log) b i j le h =
    (omega (arith, h.0, le, +ℤ_parts b (pos i), +ℤ_parts b (pos j)), All-later log b i j le h.1)

-- Moving the ring on by g minutes.
pub clear_slots-Represents :
    (xs : List ℕ) (b : ℤ) (log : List ℤ) (g : ℕ)
    → Represents xs b log
    → Represents (clear_slots (min g 60) (b +ℤ pos 60) xs) (b +ℤ pos g) log
clear_slots-Represents xs b log g r = record {
  length_is = length-clear_slots (min g 60) (b +ℤ pos 60) xs ∙ r.length_is;
  none_newer =
      subst (λ k. All (λ x. x ≤ℤ k) log) (sym (add_add b g 59))
        (All-later log b 59 (g + 59) (omega arith) r.none_newer);
  holds = λ i below. elim (dec_lt (g + i) 60) [
    | yes inside ↦
        ap (λ k. get_or (clear_slots (min g 60) (b +ℤ pos 60) xs) (slot k) 0) (add_add b g i)
        ∙ clear_slots_out (min g 60) (b +ℤ pos 60) xs (slot (b +ℤ pos (g + i))) (λ j cleared same.
          omega (
            arith,
            slot_add b 60,
            slot_add (b +ℤ pos 60) j,
            slot_add b (g + i),
            slot_lt b,
            same,
            cleared,
            inside,
          ))
        ∙ r.holds (g + i) inside
        ∙ ap (λ k. count_at k log) (sym (add_add b g i))
    | no outside ↦
        ap (λ s. get_or (clear_slots (min g 60) (b +ℤ pos 60) xs) s 0)
          (omega (
            arith,
            slot_add b g,
            slot_add (b +ℤ pos g) i,
            slot_add b 60,
            slot_add (b +ℤ pos 60) ((g + i) % 60),
          ))
        ∙ clear_slots_in (min g 60) (b +ℤ pos 60) xs ((g + i) % 60) r.length_is
            (omega (arith, outside, below))
        ∙ sym (
            count_at_newer (b +ℤ pos g +ℤ pos i) log (b +ℤ pos 59) r.none_newer (
              ap (λ k. ltb_ℤ (b +ℤ pos 59) k) (add_add b g i)
              ∙ later_add b 59 (g + i) (omega (arith, outside))))
  ];
}

count_at_le : (k : ℤ) (log : List ℤ) → count_at k log ≤ length log
count_at_le k [] = omega arith
count_at_le k (x ∷ log) = ground (arith, count_at_le k log)

get_or-bump :
    (xs : List ℕ) (i : ℕ)
    → i < length xs
    → get_or xs i 0 < uint32_max
    → get_or (bump xs i) i 0 ≡ get_or xs i 0 + 1
unfolding bump
get_or-bump xs i inside room =
    if_lem (λ (ys : List ℕ). get_or ys i 0 ≡ get_or xs i 0 + 1) (ltb (get_or xs i 0) uint32_max) _ _
      (λ _. get_or-set xs i _ 0 inside) (λ e. absurd (ground (arith, e, room)))

get_or-bump_ne : (xs : List ℕ) (i j : ℕ) → i ≢ j → get_or (bump xs i) j 0 ≡ get_or xs j 0
unfolding bump
get_or-bump_ne xs i j h =
    if_lem (λ (ys : List ℕ). get_or ys j 0 ≡ get_or xs j 0) (ltb (get_or xs i 0) uint32_max) _ _
      (λ _. get_or-set_ne xs i j _ 0 h) (λ _. refl)

length-bump : (xs : List ℕ) (i : ℕ) → length (bump xs i) ≡ length xs
unfolding bump
length-bump xs i =
    if_lem (λ (ys : List ℕ). length ys ≡ length xs) (ltb (get_or xs i 0) uint32_max) _ _
      (λ _. length-set xs i _) (λ _. refl)

-- Counting in the newest minute, while no counter is full.
pub bump-Represents :
    (xs : List ℕ) (b : ℤ) (log : List ℤ)
    → length log < uint32_max
    → Represents xs b log
    → Represents (bump xs (slot (b +ℤ pos 59))) b ((b +ℤ pos 59) ∷ log)
bump-Represents xs b log room r = record {
  length_is = length-bump xs _ ∙ r.length_is;
  none_newer = (omega arith, r.none_newer);
  holds = λ i below. elim (dec_lt i 59) [
    | yes older ↦
        get_or-bump_ne xs _ _
          (λ same. omega (arith, slot_add b 59, slot_add b i, slot_lt b, same, older))
        ∙ r.holds i below
        ∙ sym (rw (eqb_add b 59 i) (ground (arith, older)))
    | no newest ↦
        subst
          (λ i.
            get_or (bump xs (slot (b +ℤ pos 59))) (slot (b +ℤ pos i)) 0
            ≡ count_at (b +ℤ pos i) ((b +ℤ pos 59) ∷ log))
          (omega (arith, newest, below))
          (get_or-bump xs _ (omega (arith, slot_lt (b +ℤ pos 59), r.length_is))
              (omega (arith, room, r.holds 59 (omega arith), count_at_le (b +ℤ pos 59) log))
            ∙ sym (rw (eqb_add b 59 59) (omega (arith, r.holds 59 (omega arith)))))
  ];
}
