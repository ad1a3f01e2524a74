-- ===== src/Tally/PastHour.antt =====
-- src/ClientTally.cpp: the ring is the past hour. What `sum` gives is what a log of every request gives.
use Prim.Native.Nat.{min}
use ubersdr_ntp.Prelude.{
  ℕ, zero, suc, ◌+◌, ◌-◌, ◌≤◌, ◌<◌, ◌≡◌, refl, sym, ap, subst, ◌∙◌, Bool, true, false, List, [],
  ◌∷◌, length, get_or, replicate, if_lem, if◌then◌else◌, arith,
}
use ubersdr_ntp.Prelude.Int.{
  ℤ, pos, pos_part, neg_part, ◌+ℤ◌, ◌-ℤ◌, ◌≤ℤ◌, leb_ℤ, ltb_ℤ, int_laws, +ℤ_parts,
}
use ubersdr_ntp.Tally.{
  Entry, slot, clear_slots, bump, advance, count, sum, new_entry, uint32_max, max_ℤ, min_ℤ, rounds,
  minutes,
}
use ubersdr_ntp.Tally.Slots.{add_add, add_zero}
use ubersdr_ntp.Tally.Ring.{Represents, clear_slots-Represents, bump-Represents}
use ubersdr_ntp.Tally.Window.{past_hour, sum_slots-since}

-- An entry whose newest minute is b + 59 against the logs of its requests and of the limited ones.
record Holds (e : Entry) (b : ℤ) (log limited : List ℤ) : Type 0 where
  newest_is : e.last_minute ≡ b +ℤ pos 59
  requests_are : Represents e.requests b log
  limited_are : Represents e.limited b limited

gap_is : (k : ℤ) (g : ℕ) → pos_part (k +ℤ pos g -ℤ k) ≡ g
unfolding ◌+ℤ◌ ◌-ℤ◌
gap_is k g = ground arith

newest_moved : (last b : ℤ) (g : ℕ) → last ≡ b +ℤ pos 59 → last +ℤ pos g ≡ b +ℤ pos g +ℤ pos 59
newest_moved last b g e =
    ap (λ k. k +ℤ pos g) e
    ∙ add_add b 59 g
    ∙ ap (λ n. b +ℤ pos n) (omega arith)
    ∙ sym (add_add b g 59)

advance-Holds :
    (e : Entry) (b : ℤ) (log limited : List ℤ) (g : ℕ)
    → Holds e b log limited
    → Holds (advance e (e.last_minute +ℤ pos g)) (b +ℤ pos g) log limited
unfolding advance
advance-Holds e b log limited g h =
    if_lem (λ (e' : Entry). Holds e' (b +ℤ pos g) log limited)
      (leb_ℤ (e.last_minute +ℤ pos g) e.last_minute) _ _
      (λ same.
        subst (λ (b' : ℤ). Holds e b' log limited)
          (sym (add_zero b)
            ∙ ap (λ n. b +ℤ pos n) (ground (arith, same, +ℤ_parts e.last_minute (pos g))))
          h)
      (λ later. record {
        newest_is = newest_moved e.last_minute b g h.newest_is;
        requests_are = moved e.requests h.requests_are;
        limited_are = moved e.limited h.limited_are;
      })
  where
    moved :
        {ks : List ℤ} (xs : List ℕ)
        → Represents xs b ks
        → Represents
            (clear_slots
              (min (pos_part (e.last_minute +ℤ pos g -ℤ e.last_minute)) minutes)
              (e.last_minute +ℤ pos 1)
              xs)
            (b +ℤ pos g)
            ks
    moved xs r =
        rw (gap_is e.last_minute g, ap (λ k. k +ℤ pos 1) h.newest_is ∙ add_add b 59 1)
          (clear_slots-Represents xs b _ g r)

bump_at :
    (xs : List ℕ) (b m : ℤ) (log : List ℤ)
    → m ≡ b +ℤ pos 59
    → length log < uint32_max
    → Represents xs b log
    → Represents (bump xs (slot m)) b (m ∷ log)
bump_at xs b m log e room r = rw e (bump-Represents xs b log room r)

bump_if :
    (t : Bool) (xs : List ℕ) (b m : ℤ) (log : List ℤ)
    → m ≡ b +ℤ pos 59
    → length log < uint32_max
    → Represents xs b log
    → Represents (if t then bump xs (slot m) else xs) b (if t then m ∷ log else log)
bump_if true xs b m log e room r = bump_at xs b m log e room r
bump_if false xs b m log e room r = r

count-Holds :
    (e : Entry) (b : ℤ) (log limited : List ℤ) (g : ℕ) (is_limited : Bool)
    → length log < uint32_max
    → length limited < uint32_max
    → Holds e b log limited
    → let m : ℤ = e.last_minute +ℤ pos g in
      Holds
        (count e m is_limited)
        (b +ℤ pos g)
        (m ∷ log)
        (if is_limited then m ∷ limited else limited)
unfolding count
count-Holds e b log limited g is_limited room room' h =
    let moved = advance-Holds e b log limited g h in
    let m : e.last_minute +ℤ pos g ≡ b +ℤ pos g +ℤ pos 59 =
      newest_moved e.last_minute b g h.newest_is in
    record {
      newest_is = moved.newest_is;
      requests_are = bump_at _ _ _ log m room moved.requests_are;
      limited_are = bump_if is_limited _ _ _ limited m room' moved.limited_are;
    }

-- A client's requests, the newest first, each by its minute and whether it was limited.
abbrev pub Requests : Type 0
Requests = List (ℤ × Bool)

-- The entry that they leave, of a client first seen in a minute.
abbrev pub entry_of : ℤ → Requests → Entry
entry_of first [] = new_entry first
entry_of first ((minute, is_limited) ∷ rs) = count (entry_of first rs) minute is_limited

abbrev pub newest_of : ℤ → Requests → ℤ
newest_of first [] = first
newest_of first ((minute, is_limited) ∷ rs) = minute

-- The clock does not go back.
abbrev pub InOrder : ℤ → Requests → Type 0
InOrder first [] = Unit
InOrder first ((minute, is_limited) ∷ rs) = (newest_of first rs ≤ℤ minute) × InOrder first rs

abbrev pub minutes_of : Requests → List ℤ
minutes_of [] = []
minutes_of ((minute, is_limited) ∷ rs) = minute ∷ minutes_of rs

abbrev pub limited_of : Requests → List ℤ
limited_of [] = []
limited_of ((minute, is_limited) ∷ rs) =
    if is_limited then minute ∷ limited_of rs else limited_of rs

window_first : (b : ℤ) (g : ℕ) → b +ℤ pos 59 +ℤ pos g -ℤ pos 60 +ℤ pos 1 ≡ b +ℤ pos g
window_first b g = omega int_laws

ring_first : (b : ℤ) → b +ℤ pos 59 -ℤ pos 60 +ℤ pos 1 ≡ b
ring_first b = omega int_laws

first_is :
    (b : ℤ) (g : ℕ)
    → max_ℤ (b +ℤ pos 59 +ℤ pos g -ℤ pos 60 +ℤ pos 1) (b +ℤ pos 59 -ℤ pos 60 +ℤ pos 1) ≡ b +ℤ pos g
first_is b g =
    rw (window_first b g, ring_first b)
      (if_lem (λ k. k ≡ b +ℤ pos g) (ltb_ℤ (b +ℤ pos g) b) _ _
        (λ below. absurd (ground (arith, below, +ℤ_parts b (pos g)))) (λ _. refl))

last_is : (last : ℤ) (g : ℕ) → min_ℤ (last +ℤ pos g) last ≡ last
last_is last g =
    if_lem (λ k. k ≡ last) (ltb_ℤ last (last +ℤ pos g)) _ _ (λ _. refl)
      (λ same.
        ap (λ n. last +ℤ pos n) (ground (arith, same, +ℤ_parts last (pos g))) ∙ add_zero last)

rounds_is : (b : ℤ) (g : ℕ) → rounds (b +ℤ pos g) (b +ℤ pos 59) ≡ 60 - g
rounds_is b g =
    if_lem (λ n. n ≡ 60 - g) (leb_ℤ (b +ℤ pos g) (b +ℤ pos 59)) _ _
      (λ inside.
        ap (λ k. pos_part (k -ℤ (b +ℤ pos g)) + 1)
          (ap (λ n. b +ℤ pos n) (ground (arith, inside, +ℤ_parts b (pos g), +ℤ_parts b (pos 59)))
            ∙ sym (add_add b g (59 - g)))
        ∙ ap (λ n. n + 1) (gap_is (b +ℤ pos g) (59 - g))
        ∙ ground (arith, inside, +ℤ_parts b (pos g), +ℤ_parts b (pos 59)))
      (λ outside. ground (arith, outside, +ℤ_parts b (pos g), +ℤ_parts b (pos 59)))

hour_first : (b : ℤ) (g : ℕ) → b +ℤ pos 59 +ℤ pos g -ℤ pos 59 ≡ b +ℤ pos g
hour_first b g = omega int_laws

sum-Holds :
    (e : Entry) (b : ℤ) (log limited : List ℤ) (g : ℕ)
    → Holds e b log limited
    → sum e (e.last_minute +ℤ pos g)
      ≡ (past_hour (e.last_minute +ℤ pos g) log, past_hour (e.last_minute +ℤ pos g) limited)
unfolding sum
sum-Holds e b log limited g h =
    rw (h.newest_is, first_is b g, last_is (b +ℤ pos 59) g, rounds_is b g, hour_first b g)
      (λ i. (
        sum_slots-since e.requests b log g h.requests_are i,
        sum_slots-since e.limited b limited g h.limited_are i,
      ))

get_or-replicate : (n i : ℕ) → get_or (replicate {A = ℕ} n 0) i 0 ≡ 0
get_or-replicate zero i = refl
get_or-replicate (suc n) zero = refl
get_or-replicate (suc n) (suc i) = get_or-replicate n i

new_entry-Holds : (first : ℤ) → Holds (new_entry first) (first -ℤ pos 59) [] []
unfolding new_entry
new_entry-Holds first = record {
  newest_is = omega int_laws;
  requests_are = empty;
  limited_are = empty;
}
  where
    empty : Represents (replicate 60 0) (first -ℤ pos 59) []
    empty = record {
      length_is = refl;
      none_newer = tt;
      holds = λ i below. get_or-replicate 60 (slot (first -ℤ pos 59 +ℤ pos i));
    }

limited_fewer : (rs : Requests) → length (limited_of rs) ≤ length rs
limited_fewer [] = omega arith
limited_fewer ((minute, is_limited) ∷ rs) = ground (arith, limited_fewer rs)

length-minutes_of : (rs : Requests) → length (minutes_of rs) ≡ length rs
length-minutes_of [] = refl
length-minutes_of ((minute, is_limited) ∷ rs) = ap suc (length-minutes_of rs)

ahead_part : (last now : ℤ) → last ≤ℤ now → neg_part (now -ℤ last) ≡ 0
unfolding ◌-ℤ◌
ahead_part last now h = ground (arith, h)

ahead : (last now : ℤ) → last ≤ℤ now → (g : ℕ) × (now ≡ last +ℤ pos g)
ahead last now h = (pos_part (now -ℤ last), omega (int_laws, ahead_part last now h))

first_newest : (first : ℤ) → (new_entry first).last_minute ≡ first
unfolding new_entry
first_newest first = refl

entry_of-Holds :
    (first : ℤ) (rs : Requests)
    → InOrder first rs
    → length rs < uint32_max
    → (b : ℤ) × Holds (entry_of first rs) b (minutes_of rs) (limited_of rs)
      × ((entry_of first rs).last_minute ≡ newest_of first rs)
entry_of-Holds first [] order few = (first -ℤ pos 59, new_entry-Holds first, first_newest first)
entry_of-Holds first ((minute, is_limited) ∷ rs) order few =
    let (b, h, newest) = entry_of-Holds first rs order.1 (omega (arith, few)) in
    let (g, e) = ahead (newest_of first rs) minute order.0 in
    let e' : minute ≡ (entry_of first rs).last_minute +ℤ pos g =
      e ∙ ap (λ k. k +ℤ pos g) (sym newest) in
    let counted_in : Holds (count (entry_of first rs) minute is_limited) (b +ℤ pos g)
        (minute ∷ minutes_of rs) (if is_limited then minute ∷ limited_of rs else limited_of rs) =
      subst
        (λ m.
          Holds (count (entry_of first rs) m is_limited) (b +ℤ pos g) (m ∷ minutes_of rs)
            (if is_limited then m ∷ limited_of rs else limited_of rs))
        (sym e')
        (count-Holds (entry_of first rs) b (minutes_of rs) (limited_of rs) g is_limited
          (omega (arith, few, length-minutes_of rs)) (omega (arith, few, limited_fewer rs)) h) in
    (b +ℤ pos g, counted_in, counted_in.newest_is ∙ sym (newest_moved _ b g h.newest_is) ∙ sym e')

-- `sum` refines a log of every request: of a client whose requests come in the order of their minutes,
-- fewer than 2^32 - 1 of them, the ring gives at any later minute how many are of the hour that ends
-- then, and how many of those were limited.
pub sum-past_hour :
    (first : ℤ) (rs : Requests) (now : ℤ)
    → InOrder first rs
    → newest_of first rs ≤ℤ now
    → length rs < uint32_max
    → sum (entry_of first rs) now ≡ (past_hour now (minutes_of rs), past_hour now (limited_of rs))
sum-past_hour first rs now order later few =
    let (b, h, newest) = entry_of-Holds first rs order few in
    let (g, e) = ahead (newest_of first rs) now later in
    let e' : now ≡ (entry_of first rs).last_minute +ℤ pos g =
      e ∙ ap (λ k. k +ℤ pos g) (sym newest) in
    rw e' (sum-Holds (entry_of first rs) b (minutes_of rs) (limited_of rs) g h)
