-- ===== src/Continuity.antt =====
-- src/TimeContinuity.{h,cpp}: a radio source's decoded times checked against its own history.
-- Over any floating point: `D` and its operations are parameters.
pub mod Judge
pub mod Runs
pub mod Believed
pub mod Replaced
mod Tests
use ubersdr_ntp.Prelude.{ℕ, ◌+◌, Bool, true, false, not, ◌&&◌, ◌||◌, leb, if◌then◌else◌}
use ubersdr_ntp.Prelude.Double.{Double, add, sub, mul, abs, lt, le, lit}

pub record TimeContinuity (D : Type 0) : Type 0 where
  pub have : Bool
  pub offset : D
  pub rate : D
  pub at : D
  pub pending : Bool
  pub pending_offset : D
  pub pending_first_at : D
  pub pending_last_at : D
  pub pending_readings : ℕ

pub data Outcome : Type 0 where
  accepted first_confirmed confirming refused adopted leap_second : Outcome

pub record Verdict (D : Type 0) : Type 0 where
  pub outcome : Outcome
  pub jump_sec : D
  pub readings : ℕ
  pub span_sec : D

abbrev pub discard_filtered : Outcome → Bool
discard_filtered adopted = true
discard_filtered leap_second = true
discard_filtered accepted = false
discard_filtered first_confirmed = false
discard_filtered confirming = false
discard_filtered refused = false

abbrev pub admitted : Outcome → Bool
admitted confirming = false
admitted refused = false
admitted accepted = true
admitted first_confirmed = true
admitted adopted = true
admitted leap_second = true

abbrev pub first_readings : ℕ
first_readings = 3

abbrev pub adopt_readings : ℕ
adopt_readings = 6

module _ {D : Type 0} ⦃f : Double D⦄ where
  abbrev pub jump_limit_sec : D
  jump_limit_sec = lit 5 1

  abbrev pub drift_ppm : D
  drift_ppm = lit 50 0

  abbrev pub agree_sec : D
  agree_sec = lit 25 2

  abbrev pub first_span_sec : D
  first_span_sec = lit 115 0

  abbrev pub adopt_span_sec : D
  adopt_span_sec = lit 600 0

  unfoldable pub init : TimeContinuity D
  init = record {
    have = false;
    offset = lit 0 0;
    rate = lit 0 0;
    at = lit 0 0;
    pending = false;
    pending_offset = lit 0 0;
    pending_first_at = lit 0 0;
    pending_last_at = lit 0 0;
    pending_readings = 0;
  }

  -- How far the daemon clock may have drifted in a time.
  abbrev pub drift : D → D
  drift since = mul (mul (abs since) drift_ppm) (lit 1 6)

  unfoldable pub agrees : TimeContinuity D → D → D → Bool
  agrees c offset_sec at_sec =
      c.pending
      && le (abs (sub offset_sec c.pending_offset))
          (add agree_sec (drift (sub at_sec c.pending_last_at)))

  unfoldable pub note_pending : TimeContinuity D → D → D → TimeContinuity D
  note_pending c offset_sec at_sec =
      let again = agrees c offset_sec at_sec in
      record c {
        pending = if again then c.pending else true;
        pending_first_at = if again then c.pending_first_at else at_sec;
        pending_readings = (if again then c.pending_readings else 0) + 1;
        pending_offset = offset_sec;
        pending_last_at = at_sec;
      }

  unfoldable pub start_history : TimeContinuity D → D → D → TimeContinuity D
  start_history c offset_sec at_sec = record c {
    have = true;
    offset = offset_sec;
    at = at_sec;
    pending = false;
    pending_readings = 0;
  }

  unfoldable pub span : TimeContinuity D → D
  span c = sub c.pending_last_at c.pending_first_at

  -- `judge` with no history: the first time.
  unfoldable pub judge_first : TimeContinuity D → D → D → TimeContinuity D × Verdict D
  judge_first c implied at_sec =
      let p = note_pending c implied at_sec in
      let held = leb first_readings p.pending_readings && le first_span_sec (span p) in
      (
        if held then start_history p implied at_sec else p,
        record {
          outcome = if held then first_confirmed else confirming;
          jump_sec = lit 0 0;
          readings = p.pending_readings;
          span_sec = span p;
        },
      )

  -- `judge` of a time that is neither near the history nor the announced step.
  unfoldable pub judge_jump : TimeContinuity D → D → D → D → TimeContinuity D × Verdict D
  judge_jump c jump implied at_sec =
      let p = note_pending c implied at_sec in
      let held = leb adopt_readings p.pending_readings && le adopt_span_sec (span p) in
      (
        if held then start_history p implied at_sec else p,
        record {
          outcome = if held then adopted else refused;
          jump_sec = jump;
          readings = p.pending_readings;
          span_sec = span p;
        },
      )

  -- `impliedOffsetSec - predicted`.
  unfoldable pub jump_of : TimeContinuity D → D → D → D
  jump_of c implied at_sec = sub implied (add c.offset (mul c.rate (sub at_sec c.at)))

  unfoldable pub is_near : TimeContinuity D → D → D → Bool
  is_near c implied at_sec =
      le (abs (jump_of c implied at_sec)) (add jump_limit_sec (drift (sub at_sec c.at)))

  unfoldable pub is_leap_step : TimeContinuity D → D → D → Bool → Bool
  is_leap_step c implied at_sec leap_window =
      leap_window && le (abs (sub (abs (jump_of c implied at_sec)) (lit 1 0))) agree_sec

  unfoldable pub judge : TimeContinuity D → D → D → Bool → TimeContinuity D × Verdict D
  judge c implied at_sec leap_window =
      let jump = jump_of c implied at_sec in
      if not c.have
      then judge_first c implied at_sec
      else if is_near c implied at_sec
      then (
        record c { pending = false; pending_readings = 0 },
        record { outcome = accepted; jump_sec = jump; readings = 0; span_sec = lit 0 0 },
      )
      else if is_leap_step c implied at_sec leap_window
      then (
        start_history c implied at_sec,
        record { outcome = leap_second; jump_sec = jump; readings = 0; span_sec = lit 0 0 },
      )
      else judge_jump c jump implied at_sec

  unfoldable pub note_filtered : TimeContinuity D → D → D → D → TimeContinuity D
  note_filtered c offset_sec rate at_sec = record c {
    have = true;
    offset = offset_sec;
    rate = rate;
    at = at_sec;
  }
