-- ===== src/Continuity/Replaced.antt =====
-- When a call of `judge` replaces the history, over all its outcomes.
use ubersdr_ntp.Prelude.{◌≡◌, refl, ◌⊎◌, inl, inr, Bool, true, false, List, [], arith}
use ubersdr_ntp.Prelude.Double.{Double, abs, sub, le, lit}
use ubersdr_ntp.Continuity.{
  TimeContinuity, Outcome, accepted, first_confirmed, confirming, refused, adopted, leap_second,
  judge_first, judge_jump, jump_of, is_near, is_leap_step, judge, init, first_readings,
  adopt_readings, first_span_sec, adopt_span_sec, agree_sec,
}
use ubersdr_ntp.Continuity.Judge.{replaces, HistoryAfter, judge-history}
use ubersdr_ntp.Continuity.Runs.{Entry, Event, logs}
use ubersdr_ntp.Continuity.Believed.{Confirms, judge-adopted, judge-first_confirmed}

Outcome-cases :
    (x : Outcome)
    → (replaces x ≡ false) ⊎ ((x ≡ first_confirmed) ⊎ ((x ≡ adopted) ⊎ (x ≡ leap_second)))
Outcome-cases accepted = inl refl
Outcome-cases confirming = inl refl
Outcome-cases refused = inl refl
Outcome-cases first_confirmed = inr (inl refl)
Outcome-cases adopted = inr (inr (inl refl))
Outcome-cases leap_second = inr (inr (inr refl))

module _ {D : Type 0} ⦃f : Double D⦄ where
  -- A step of one second, to within the agreement of readings, where a leap second may be.
  abbrev pub IsLeapStep : TimeContinuity D → D → D → Bool → Type 0
  IsLeapStep c o a w =
      (w ≡ true) × (le (abs (sub (abs (jump_of c o a)) (lit 1 0))) agree_sec ≡ true)

  -- What may replace a history: the first time of a run where there is none; and where the time is not
  -- near the history, a leap second, or the time that a longer run holds.
  abbrev pub MayReplace : TimeContinuity D → List (Entry D) → D → D → Bool → Type 0
  MayReplace c past o a w =
      ((c.have ≡ false) × Confirms first_readings first_span_sec o a past)
      ⊎ ((c.have ≡ true)
          × (is_near c o a ≡ false)
          × (IsLeapStep c o a w ⊎ Confirms adopt_readings adopt_span_sec o a past))

  judge-leap_second :
      (c : TimeContinuity D) (o a : D) (w : Bool)
      → (judge c o a w).1.outcome ≡ leap_second
      → (c.have ≡ true) × (is_near c o a ≡ false) × IsLeapStep c o a w
  unfolding judge judge_first judge_jump is_leap_step
  judge-leap_second c o a w e = ground arith

  -- After any calls from the start, `judge` keeps the history as it is, or starts it at the reading, and
  -- that only: where there is none, when the reading ends a run of at least 3 over at least 115 s; where
  -- the time is not near it, for a step of one second where a leap second may be, or when the reading
  -- ends a run of at least 6 over at least 600 s. In a run each reading agrees with the one before it,
  -- and none before the last was admitted.
  pub judge-replaced :
      (es : List (Event D)) (o a : D) (w : Bool)
      → let s = logs (init, []) es in
        let c = (judge s.0 o a w).0 in
        HistoryAfter false s.0 c o a ⊎ (HistoryAfter true s.0 c o a × MayReplace s.0 s.1 o a w)
  judge-replaced es o a w =
      let s = logs (init, []) es in
      let v = (judge s.0 o a w).1.outcome in
      let history = (judge-history s.0 o a w).0 in
      elim (Outcome-cases v) [
        | inl kept ↦ inl (rw kept at history)
        | inr (inl e) ↦ inr (rw e at history, inl (judge-first_confirmed es o a w e))
        | inr (inr (inl e)) ↦
            let j = judge-adopted es o a w e in inr (rw e at history, inr (j.0, j.1, inr j.2))
        | inr (inr (inr e)) ↦
            let j = judge-leap_second s.0 o a w e in inr (rw e at history, inr (j.0, j.1, inl j.2))
      ]
