-- ===== src/Continuity/Believed.antt =====
-- A time that contradicts the history is believed only after a run of readings that agree.
use ubersdr_ntp.Prelude.{
  ℕ, ◌≤◌, ◌≡◌, refl, inl, Bool, true, false, and_left, and_right, ◌&&◌, leb, leb→le, List, [],
  arith, if◌then◌else◌,
}
use ubersdr_ntp.Prelude.Double.{Double, le, sub}
use ubersdr_ntp.Continuity.{
  TimeContinuity, first_confirmed, confirming, refused, adopted, note_pending, span, judge_first,
  judge_jump, jump_of, is_near, judge, init, first_readings, adopt_readings, first_span_sec,
  adopt_span_sec,
}
use ubersdr_ntp.Continuity.Runs.{
  Entry, Event, Run, logs, logs-Tracks, Tracks, Noted, note_pending-Noted,
}

if_adopted : (b : Bool) → (if b then adopted else refused) ≡ adopted → b ≡ true
if_adopted b e = ground arith

if_confirmed : (b : Bool) → (if b then first_confirmed else confirming) ≡ first_confirmed → b ≡ true
if_confirmed b e = ground arith

module _ {D : Type 0} ⦃f : Double D⦄ where
  -- The reading (o, a) ends a run of at least `least` readings over at least `time`.
  pub record Confirms (least : ℕ) (time o a : D) (past : List (Entry D)) : Type 0 where
    pub readings : ℕ
    pub first : D
    pub run : Run readings first o a past
    pub enough : least ≤ readings
    pub long : le time (sub a first) ≡ true

  pending_held :
      (least : ℕ) (time : D) (c : TimeContinuity D) (o a : D) (past : List (Entry D))
      → Tracks c past
      → (leb least (note_pending c o a).pending_readings && le time (span (note_pending c o a)))
        ≡ true
      → Confirms least time o a past
  unfolding span Noted note_pending
  pending_held least time c o a past t held = record {
    readings = (note_pending c o a).pending_readings;
    first = (note_pending c o a).pending_first_at;
    run = n.2;
    enough = leb→le _ _ (and_left _ _ held);
    long = rw (← n.1) (and_right (leb least (note_pending c o a).pending_readings) _ held);
  }
    where
      n : Noted (note_pending c o a) o a past
      n = note_pending-Noted c o a past t

  judge_jump-adopted :
      (c : TimeContinuity D) (j o a : D) (past : List (Entry D))
      → Tracks c past
      → (judge_jump c j o a).1.outcome ≡ adopted
      → Confirms adopt_readings adopt_span_sec o a past
  unfolding judge_jump
  judge_jump-adopted c j o a past t e =
      pending_held adopt_readings adopt_span_sec c o a past t (if_adopted _ e)

  judge_first-first_confirmed :
      (c : TimeContinuity D) (o a : D) (past : List (Entry D))
      → Tracks c past
      → (judge_first c o a).1.outcome ≡ first_confirmed
      → Confirms first_readings first_span_sec o a past
  unfolding judge_first
  judge_first-first_confirmed c o a past t e =
      pending_held first_readings first_span_sec c o a past t (if_confirmed _ e)

  judge-jumps :
      (c : TimeContinuity D) (o a : D) (w : Bool)
      → (judge c o a w).1.outcome ≡ adopted
      → (c.have ≡ true)
        × (is_near c o a ≡ false)
        × ((judge_jump c (jump_of c o a) o a).1.outcome ≡ adopted)
  unfolding judge judge_first
  judge-jumps c o a w e = ground arith

  judge-firsts :
      (c : TimeContinuity D) (o a : D) (w : Bool)
      → (judge c o a w).1.outcome ≡ first_confirmed
      → (c.have ≡ false) × ((judge_first c o a).1.outcome ≡ first_confirmed)
  unfolding judge judge_jump
  judge-firsts c o a w e = ground arith

  -- After any calls from the start, `judge` adopts a time over a history only if there is a history
  -- that the time is not near, and the reading ends a run of at least 6 over at least 600 s, in
  -- which each reading agrees with the one before it and none before the last was admitted.
  pub judge-adopted :
      (es : List (Event D)) (o a : D) (w : Bool)
      → let s = logs (init, []) es in
        (judge s.0 o a w).1.outcome ≡ adopted
        → (s.0.have ≡ true)
          × (is_near s.0 o a ≡ false)
          × Confirms adopt_readings adopt_span_sec o a s.1
  judge-adopted es o a w e =
      let s = logs (init, []) es in
      let j = judge-jumps s.0 o a w e in
      (
        j.0,
        j.1,
        judge_jump-adopted s.0 _ o a s.1 (logs-Tracks es init [] (unfold init in inl refl)) j.2,
      )

  pub judge-first_confirmed :
      (es : List (Event D)) (o a : D) (w : Bool)
      → let s = logs (init, []) es in
        (judge s.0 o a w).1.outcome ≡ first_confirmed
        → (s.0.have ≡ false) × Confirms first_readings first_span_sec o a s.1
  judge-first_confirmed es o a w e =
      let s = logs (init, []) es in
      let j = judge-firsts s.0 o a w e in
      (
        j.0,
        judge_first-first_confirmed s.0 o a s.1 (logs-Tracks es init [] (unfold init in inl refl))
            j.1,
      )
