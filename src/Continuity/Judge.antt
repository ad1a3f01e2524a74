-- ===== src/Continuity/Judge.antt =====
-- What one call of `judge` does to the history, on every branch.
use ubersdr_ntp.Prelude.{◌≡◌, Bool, true, false, arith}
use ubersdr_ntp.Prelude.Double.{Double}
use ubersdr_ntp.Continuity.{
  TimeContinuity, Outcome, accepted, first_confirmed, confirming, refused, adopted, leap_second,
  note_pending, start_history, judge_first, judge_jump, jump_of, judge,
}

-- The outcomes on which the history starts anew.
abbrev pub replaces : Outcome → Bool
replaces first_confirmed = true
replaces adopted = true
replaces leap_second = true
replaces accepted = false
replaces confirming = false
replaces refused = false

module _ {D : Type 0} ⦃f : Double D⦄ where
  -- The history is kept, or it starts at the reading with nothing pending.
  abbrev pub HistoryAfter : Bool → TimeContinuity D → TimeContinuity D → D → D → Type 0
  HistoryAfter true c c' o a =
      (c'.have ≡ true) × (c'.offset ≡ o) × (c'.at ≡ a) × (c'.pending ≡ false)
  HistoryAfter false c c' o a = (c'.have ≡ c.have) × (c'.offset ≡ c.offset) × (c'.at ≡ c.at)

  judge_first-history :
      (c : TimeContinuity D) (o a : D)
      → HistoryAfter (replaces (judge_first c o a).1.outcome) c (judge_first c o a).0 o a
        × ((judge_first c o a).0.rate ≡ c.rate)
  unfolding judge_first note_pending start_history
  judge_first-history c o a = ground arith

  judge_jump-history :
      (c : TimeContinuity D) (j o a : D)
      → HistoryAfter (replaces (judge_jump c j o a).1.outcome) c (judge_jump c j o a).0 o a
        × ((judge_jump c j o a).0.rate ≡ c.rate)
  unfolding judge_jump note_pending start_history
  judge_jump-history c j o a = ground arith

  -- The outcome says what became of the history: a confirmed first time, an adopted time and a
  -- leap second start it at the reading, with nothing pending, and every other outcome leaves it as
  -- it was. The rate is kept in all cases.
  pub judge-history :
      (c : TimeContinuity D) (o a : D) (w : Bool)
      → HistoryAfter (replaces (judge c o a w).1.outcome) c (judge c o a w).0 o a
        × ((judge c o a w).0.rate ≡ c.rate)
  unfolding judge start_history
  judge-history c o a w =
      ground (arith, judge_first-history c o a, judge_jump-history c (jump_of c o a) o a)
