-- ===== src/Tally/Slots.antt =====
-- src/ClientTally.cpp: the slots of minutes in the ring, and which of them a clearing leaves.
use ubersdr_ntp.Prelude.{
  ℕ, zero, suc, ◌+◌, ◌-◌, ◌%◌, ◌≤◌, ◌<◌, ◌≡◌, ◌≢◌, ◌⊎◌, inl, inr, refl, sym, ap, ◌∙◌, List, [], ◌∷◌,
  length, length-set, get_or, set, if◌then◌else◌, arith, ◌==◌,
}
use ubersdr_ntp.Prelude.Int.{ℤ, pos, negsuc, ◌+ℤ◌, ◌%ℤ◌, eqb_ℤ, +ℤ_parts}
use ubersdr_ntp.Tally.{slot, clear_slots}

pub slot_lt : (k : ℤ) → slot k < 60
unfolding slot ◌%ℤ◌ ◌+ℤ◌
slot_lt (pos a) = ground arith
slot_lt (negsuc a) = ground arith

pub slot_pos : (a : ℕ) → slot (pos a) ≡ a % 60
unfolding slot ◌%ℤ◌ ◌+ℤ◌
slot_pos a = ground arith

pub slot_negsuc : (a : ℕ) → slot (negsuc a) ≡ 59 - a % 60
unfolding slot ◌%ℤ◌ ◌+ℤ◌
slot_negsuc a = ground arith

-- A minute before 0, moved on past it or not.
pub move_negsuc :
    (a d : ℕ)
    → ((suc a ≤ d) × (negsuc a +ℤ pos d ≡ pos (d - suc a)))
      ⊎ ((d ≤ a) × (negsuc a +ℤ pos d ≡ negsuc (a - d)))
unfolding ◌+ℤ◌
move_negsuc a d = ground arith

pub move_pos : (a d : ℕ) → pos a +ℤ pos d ≡ pos (a + d)
unfolding ◌+ℤ◌
move_pos a d = ground arith

pub slot_add : (k : ℤ) (d : ℕ) → slot (k +ℤ pos d) ≡ (slot k + d) % 60
slot_add (pos a) d = rw (move_pos a d, slot_pos, slot_pos) (omega arith)
slot_add (negsuc a) d = elim (move_negsuc a d) [
  | inl past ↦ rw (past.1, slot_pos, slot_negsuc) (omega (arith, past.0))
  | inr before ↦ rw (before.1, slot_negsuc, slot_negsuc) (omega (arith, before.0))
]

pub add_zero : (k : ℤ) → k +ℤ pos 0 ≡ k
add_zero (pos a) = move_pos a 0 ∙ ap pos (omega arith)
add_zero (negsuc a) = elim (move_negsuc a 0) [
  | inl past ↦ absurd (omega (arith, past.0))
  | inr before ↦ before.1 ∙ ap negsuc (omega arith)
]

pub add_add : (k : ℤ) (a b : ℕ) → k +ℤ pos a +ℤ pos b ≡ k +ℤ pos (a + b)
unfolding ◌+ℤ◌
add_add k a b = ground arith

pub add_suc : (k : ℤ) (j : ℕ) → k +ℤ pos 1 +ℤ pos j ≡ k +ℤ pos (suc j)
add_suc k j = add_add k 1 j ∙ ap (λ n. k +ℤ pos n) (omega arith)

-- How many times a minute stands in a log.
abbrev pub count_at : ℤ → List ℤ → ℕ
count_at k [] = 0
count_at k (x ∷ log) = (if eqb_ℤ x k then 1 else 0) + count_at k log

module _ {A : Type 0} where
  pub get_or-set : (xs : List A) (i : ℕ) (v a : A) → i < length xs → get_or (set xs i v) i a ≡ v
  get_or-set [] i v a h = absurd (omega (arith, h))
  get_or-set (x ∷ xs) zero v a h = refl
  get_or-set (x ∷ xs) (suc i) v a h = get_or-set xs i v a (omega (arith, h))

  pub get_or-set_ne :
      (xs : List A) (i j : ℕ) (v a : A) → i ≢ j → get_or (set xs i v) j a ≡ get_or xs j a
  get_or-set_ne [] i j v a h = refl
  get_or-set_ne (x ∷ xs) zero zero v a h = absurd (h refl)
  get_or-set_ne (x ∷ xs) zero (suc j) v a h = refl
  get_or-set_ne (x ∷ xs) (suc i) zero v a h = refl
  get_or-set_ne (x ∷ xs) (suc i) (suc j) v a h = get_or-set_ne xs i j v a (λ e. h (ap suc e))

pub length-clear_slots :
    (left : ℕ) (k : ℤ) (xs : List ℕ) → length (clear_slots left k xs) ≡ length xs
unfolding clear_slots
length-clear_slots zero k xs = refl
length-clear_slots (suc left) k xs =
    length-clear_slots left (k +ℤ pos 1) (set xs (slot k) 0) ∙ length-set xs (slot k) 0

pub eqb_add : (k : ℤ) (a b : ℕ) → eqb_ℤ (k +ℤ pos a) (k +ℤ pos b) ≡ (a == b)
eqb_add k a b = ground (arith, +ℤ_parts k (pos a), +ℤ_parts k (pos b))

-- Which slots the clearing leaves, and which it clears.
pub clear_slots_out :
    (left : ℕ) (k : ℤ) (xs : List ℕ) (i : ℕ)
    → ((j : ℕ) → j < left → slot (k +ℤ pos j) ≢ i)
    → get_or (clear_slots left k xs) i 0 ≡ get_or xs i 0
unfolding clear_slots
clear_slots_out zero k xs i h = refl
clear_slots_out (suc left) k xs i h =
    clear_slots_out left (k +ℤ pos 1) (set xs (slot k) 0) i
      (λ j below same. h (suc j) (omega arith) (ap slot (sym (add_suc k j)) ∙ same))
    ∙ get_or-set_ne xs (slot k) i 0 0 (λ same. h 0 (omega arith) (ap slot (add_zero k) ∙ same))

pub set_zero : (xs : List ℕ) (j i : ℕ) → get_or xs i 0 ≡ 0 → get_or (set xs j 0) i 0 ≡ 0
set_zero [] j i h = h
set_zero (x ∷ xs) zero zero h = refl
set_zero (x ∷ xs) zero (suc i) h = h
set_zero (x ∷ xs) (suc j) zero h = h
set_zero (x ∷ xs) (suc j) (suc i) h = set_zero xs j i h

pub clear_slots_zero :
    (left : ℕ) (k : ℤ) (xs : List ℕ) (i : ℕ)
    → get_or xs i 0 ≡ 0
    → get_or (clear_slots left k xs) i 0 ≡ 0
unfolding clear_slots
clear_slots_zero zero k xs i h = h
clear_slots_zero (suc left) k xs i h =
    clear_slots_zero left (k +ℤ pos 1) (set xs (slot k) 0) i (set_zero xs (slot k) i h)

pub clear_slots_in :
    (left : ℕ) (k : ℤ) (xs : List ℕ) (j : ℕ)
    → length xs ≡ 60
    → j < left
    → get_or (clear_slots left k xs) (slot (k +ℤ pos j)) 0 ≡ 0
unfolding clear_slots
clear_slots_in zero k xs j l h = absurd (omega (arith, h))
clear_slots_in (suc left) k xs zero l h = clear_slots_zero left (k +ℤ pos 1) (set xs (slot k) 0) _ (
    ap (λ i. get_or (set xs (slot k) 0) (slot i) 0) (add_zero k)
    ∙ get_or-set xs (slot k) 0 0 (omega (arith, slot_lt k, l)))
clear_slots_in (suc left) k xs (suc j) l h =
    ap (λ i. get_or (clear_slots left (k +ℤ pos 1) (set xs (slot k) 0)) (slot i) 0)
      (sym (add_suc k j))
    ∙ clear_slots_in left (k +ℤ pos 1) (set xs (slot k) 0) j (length-set xs (slot k) 0 ∙ l)
        (omega (arith, h))
