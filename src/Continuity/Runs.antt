-- ===== src/Continuity/Runs.antt =====
-- Histories of readings: what has to happen before a time is believed.
use ubersdr_ntp.Prelude.{
  ℕ, zero, suc, ◌+◌, ◌≡◌, refl, sym, ◌∙◌, and_left, and_right, ◌⊎◌, inl, inr, Bool, true, false,
  Bool-cases, ◌&&◌, leb, List, [], ◌∷◌, arith,
}
use mathlib.Core.Bool.{false≢true}
use native.Mathlib.Numerals.{add-one}
use ubersdr_ntp.Prelude.Double.{Double, le, sub, add, abs}
use ubersdr_ntp.Continuity.{
  TimeContinuity, Outcome, Verdict, admitted, agrees, note_pending, start_history, span,
  judge_first, judge_jump, jump_of, judge, note_filtered, drift, agree_sec, first_readings,
  adopt_readings, first_span_sec, adopt_span_sec,
}

-- A reading that was judged.
pub record Entry (D : Type 0) : Type 0 where
  pub offset : D
  pub at : D
  pub outcome : Outcome

-- What the owner calls: `judge` of a decoded time, `noteFiltered` of the filter's offset.
pub data Event (D : Type 0) : Type 0 where
  reading : D → D → Bool → Event D
  filtered : D → D → D → Event D

module _ {D : Type 0} ⦃f : Double D⦄ where
  -- Two readings of one new time, the second first.
  abbrev pub agree : D → D → D → D → Bool
  agree o a o' a' = le (abs (sub o o')) (add agree_sec (drift (sub a a')))

  -- The reading (o, a), after `past` with the newest first, is the n-th of a run that began at
  -- `first`: each agrees with the one before it, and none of those was admitted.
  abbrev pub Run : ℕ → D → D → D → List (Entry D) → Type 0
  Run zero first o a past = ⊥
  Run (suc zero) first o a past = first ≡ a
  Run (suc (suc n)) first o a [] = ⊥
  Run (suc (suc n)) first o a (e ∷ past) =
      (agree o a e.offset e.at ≡ true)
      × (admitted e.outcome ≡ false)
      × Run (suc n) first e.offset e.at past

  abbrev pub log : TimeContinuity D × List (Entry D) → Event D → TimeContinuity D × List (Entry D)
  log (c, past) (filtered o r a) = (note_filtered c o r a, past)
  log (c, past) (reading o a w) =
      ((judge c o a w).0, record { offset = o; at = a; outcome = (judge c o a w).1.outcome } ∷ past)

  abbrev pub logs :
      TimeContinuity D × List (Entry D) → List (Event D) → TimeContinuity D × List (Entry D)
  logs s [] = s
  logs s (e ∷ es) = logs (log s e) es

  -- What is pending is the run that the newest reading stands in.
  abbrev pub PendingRun : TimeContinuity D → List (Entry D) → Type 0
  PendingRun c [] = ⊥
  PendingRun c (e ∷ past) =
      (c.pending_offset ≡ e.offset)
      × (c.pending_last_at ≡ e.at)
      × (admitted e.outcome ≡ false)
      × Run c.pending_readings c.pending_first_at e.offset e.at past

  abbrev pub Tracks : TimeContinuity D → List (Entry D) → Type 0
  Tracks c past = (c.pending ≡ false) ⊎ PendingRun c past

  Run-suc :
      (n : ℕ) (first o a : D) (e : Entry D) (past : List (Entry D))
      → agree o a e.offset e.at ≡ true
      → admitted e.outcome ≡ false
      → Run n first e.offset e.at past
      → Run (n + 1) first o a (e ∷ past)
  Run-suc zero first o a e past h k r = absurd r
  Run-suc (suc n) first o a e past h k r = rw (add-one (suc n)) (h, k, r)

  Run-agrees :
      (c : TimeContinuity D) (o a : D) (past : List (Entry D))
      → PendingRun c past
      → agrees c o a ≡ true
      → Run (c.pending_readings + 1) c.pending_first_at o a past
  unfolding agrees
  Run-agrees c o a [] t h = absurd t
  Run-agrees c o a (e ∷ past) (eo, ea, k, r) h =
      Run-suc c.pending_readings c.pending_first_at o a e past
        (rw (← eo, ← ea) (and_right c.pending _ h)) k r

  -- After `notePending` the reading stands in the run that is counted.
  Run-note_pending :
      (c : TimeContinuity D) (o a : D) (past : List (Entry D))
      → Tracks c past
      → let p = note_pending c o a in Run p.pending_readings p.pending_first_at o a past
  unfolding note_pending
  Run-note_pending c o a past t = elim (Bool-cases (agrees c o a)) [
    | inl again ↦ rw again (Run-agrees c o a past (pending_of t again) again)
    | inr afresh ↦ rw afresh refl
  ]
    where
      pending_of : Tracks c past → agrees c o a ≡ true → PendingRun c past
      pending_of (inl idle) h =
          unfold agrees in absurd (false≢true (sym idle ∙ and_left c.pending _ h))
      pending_of (inr r) h = r

  unfoldable pub Noted : TimeContinuity D → D → D → List (Entry D) → Type 0
  Noted p o a past =
      (p.pending_offset ≡ o)
      × (p.pending_last_at ≡ a)
      × Run p.pending_readings p.pending_first_at o a past

  pub note_pending-Noted :
      (c : TimeContinuity D) (o a : D) (past : List (Entry D))
      → Tracks c past
      → Noted (note_pending c o a) o a past
  unfolding Noted note_pending
  note_pending-Noted c o a past t = (refl, refl, Run-note_pending c o a past t)

  -- How a call of `judge` ends: with nothing pending, or refused with the run pending.
  abbrev Ends : TimeContinuity D × Verdict D → D → D → List (Entry D) → Type 0
  Ends r o a past = (r.0.pending ≡ false) ⊎ (Noted r.0 o a past × (admitted r.1.outcome ≡ false))

  judge_first-Ends :
      (c : TimeContinuity D) (o a : D) (past : List (Entry D))
      → Tracks c past
      → Ends (judge_first c o a) o a past
  unfolding judge_first start_history
  judge_first-Ends c o a past t =
      elim (Bool-cases (
        leb first_readings (note_pending c o a).pending_readings
        && le first_span_sec (span (note_pending c o a)))) [
          | inl held ↦ rw held (inl refl)
          | inr short ↦ rw short (inr (note_pending-Noted c o a past t, refl))
        ]

  judge_jump-Ends :
      (c : TimeContinuity D) (j o a : D) (past : List (Entry D))
      → Tracks c past
      → Ends (judge_jump c j o a) o a past
  unfolding judge_jump start_history
  judge_jump-Ends c j o a past t =
      elim (Bool-cases (
        leb adopt_readings (note_pending c o a).pending_readings
        && le adopt_span_sec (span (note_pending c o a)))) [
          | inl held ↦ rw held (inl refl)
          | inr short ↦ rw short (inr (note_pending-Noted c o a past t, refl))
        ]

  judge-Ends :
      (c : TimeContinuity D) (o a : D) (w : Bool) (past : List (Entry D))
      → Tracks c past
      → Ends (judge c o a w) o a past
  unfolding judge start_history
  judge-Ends c o a w past t =
      ground (arith, judge_first-Ends c o a past t, judge_jump-Ends c (jump_of c o a) o a past t)

  Ends-Tracks :
      (r : TimeContinuity D × Verdict D) (o a : D) (past : List (Entry D))
      → Ends r o a past
      → Tracks r.0 (record { offset = o; at = a; outcome = r.1.outcome } ∷ past)
  unfolding Noted
  Ends-Tracks r o a past (inl idle) = inl idle
  Ends-Tracks r o a past (inr ((po, pa, run), k)) = inr (po, pa, k, run)

  pub logs-Tracks :
      (es : List (Event D)) (c : TimeContinuity D) (past : List (Entry D))
      → Tracks c past
      → let s = logs (c, past) es in Tracks s.0 s.1
  logs-Tracks [] c past t = t
  logs-Tracks (reading o a w ∷ es) c past t =
      logs-Tracks es _ _ (Ends-Tracks (judge c o a w) o a past (judge-Ends c o a w past t))
  logs-Tracks (filtered o r a ∷ es) c past t = logs-Tracks es _ past (unfold note_filtered in t)
