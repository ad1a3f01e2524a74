-- ===== src/Estimator/Hold.antt =====
-- src/OffsetEstimator.cpp: `holdThroughSpikes`.
use ubersdr_ntp.Prelude.{
  ℕ, ◌+◌, Bool, true, false, not, ◌&&◌, ◌||◌, List, [], ◌∷◌, ◌++◌, length, map, leb, if◌then◌else◌,
}
use ubersdr_ntp.Prelude.Double.{Double, add, sub, mul, div, abs, neg, lt, le, lit, dmax}
use ubersdr_ntp.Estimator.{OffsetEstimate, JitterRecord, SpikeHold, drop_while, median, zero_sec}

-- What the estimate is judged by: whether there is a usual jitter yet, and the limits.
pub record Limits (D : Type 0) : Type 0 where
  pub armed : Bool
  pub baseline : D
  pub threshold : D
  pub calm : D

-- `kBaselineMinRecords`.
abbrev pub min_records : ℕ
min_records = 60

module _ {D : Type 0} ⦃f : Double D⦄ where
  -- `kMaxCalmAgeSec`, `kCalmToReleaseSec` and `kMaxHoldSec`.
  abbrev pub max_calm_age_sec : D
  max_calm_age_sec = lit 300 0

  abbrev pub calm_to_release_sec : D
  calm_to_release_sec = lit 60 0

  abbrev pub max_hold_sec : D
  max_hold_sec = lit 600 0

  -- The record of the usual jitter, one reading in ten seconds, over half an hour.
  unfoldable pub record_jitter : SpikeHold D → D → D → SpikeHold D
  record_jitter h at jitter =
      let due = not h.holding && le h.next_jitter_record_at at in
      let history : List (JitterRecord D) =
        if due
        then h.jitter_history ++ (record { at = at; jitter = jitter } ∷ [])
        else h.jitter_history in
      record h {
        jitter_history = drop_while (λ j. lt j.at (sub at (lit 1800 0))) history;
        next_jitter_record_at = if due then add at (lit 10 0) else h.next_jitter_record_at;
      }

  unfoldable pub limits_of : SpikeHold D → Limits D
  limits_of h =
      let baseline = median (map (λ (j : JitterRecord D). j.jitter) h.jitter_history) in
      let threshold = dmax (lit 100 6) (mul (lit 5 0) baseline) in
      if leb min_records (length h.jitter_history)
      then record {
        armed = true;
        baseline = baseline;
        threshold = threshold;
        calm = mul (lit 5 1) threshold;
      }
      else record { armed = false; baseline = zero_sec; threshold = zero_sec; calm = zero_sec }

  -- What is left of the last hold's gap after a time.
  unfoldable pub slew_gap : (D → D → D) → SpikeHold D → D → SpikeHold D
  slew_gap copysign h dt =
      let step = mul h.gap_slew dt in
      if le h.gap (lit 0 0) && le (lit 0 0) h.gap then h else record h {
        gap = if le (abs h.gap) step then lit 0 0 else sub h.gap (copysign step h.gap);
      }

  -- Whether a spike starts a hold.
  abbrev pub is_spike_at : SpikeHold D → Limits D → D → D → Bool
  is_spike_at h l at jitter =
      l.armed
      && not h.rearm_on_calm
      && lt l.threshold jitter
      && h.have_calm
      && le (sub at h.calm_at) max_calm_age_sec

  -- Outside a hold: one starts, or a calm level is noted.
  unfoldable pub watch : SpikeHold D → Limits D → D → D → D → SpikeHold D
  watch h l at jitter published =
      if is_spike_at h l at jitter
      then record h {
        holding = true;
        hold_start = at;
        calm_since = neg (lit 1 0);
        holds = h.holds + 1;
      }
      else if not l.armed || le jitter l.calm
      then record h {
        have_calm = true;
        calm_at = at;
        calm_offset = published;
        rearm_on_calm = false;
      }
      else h

  unfoldable pub watch_if_free : SpikeHold D → Limits D → D → D → D → SpikeHold D
  watch_if_free h l at jitter published = if h.holding then h else watch h l at jitter published

  -- In a hold: since when it is calm again.
  unfoldable pub note_calm : SpikeHold D → Limits D → D → D → SpikeHold D
  note_calm h l at jitter = record h {
    calm_since =
        if le jitter l.calm
        then if lt h.calm_since (lit 0 0) then at else h.calm_since
        else neg (lit 1 0);
  }

  abbrev pub is_settled : SpikeHold D → D → Bool
  is_settled h at = le (lit 0 0) h.calm_since && le calm_to_release_sec (sub at h.calm_since)

  abbrev pub is_expired : SpikeHold D → D → Bool
  is_expired h at = le max_hold_sec (sub at h.hold_start)

  -- The level that is held: the calm one, carried at the rate.
  abbrev pub held_level : SpikeHold D → OffsetEstimate D → D
  held_level h e = add h.calm_offset (mul e.rate (sub e.at_sec h.calm_at))

  -- The end of a hold, with the gap that is left to the live level.
  unfoldable pub release : SpikeHold D → OffsetEstimate D → Bool → SpikeHold D
  release h e settled =
      let gap = sub (held_level h e) e.offset_sec in
      record h {
        holding = false;
        gap = gap;
        gap_slew = dmax (lit 10 6) (div (abs gap) (lit 60 0));
        have_calm = false;
        holds_timed_out = if settled then h.holds_timed_out else h.holds_timed_out + 1;
        rearm_on_calm = if settled then h.rearm_on_calm else true;
      }

  -- A hold goes on or ends; either way the held level is published.
  unfoldable pub keep_or_release : SpikeHold D → OffsetEstimate D → SpikeHold D × OffsetEstimate D
  keep_or_release h e =
      let settled = is_settled h e.at_sec in
      if settled || is_expired h e.at_sec
      then (release h e settled, record e { offset_sec = held_level h e })
      else (
        h,
        record e {
          rate_term_sec = add e.rate_term_sec (mul e.rate_uncertainty (sub e.at_sec h.calm_at));
          held_for_sec = sub e.at_sec h.hold_start;
          offset_sec = held_level h e;
        },
      )

  unfoldable pub publish :
      SpikeHold D → Limits D → OffsetEstimate D → D → SpikeHold D × OffsetEstimate D
  publish h l e published =
      if h.holding
      then keep_or_release (note_calm h l e.at_sec e.jitter_sec) e
      else (h, record e { offset_sec = published })

  -- The figures of the hold in the estimate.
  unfoldable pub note_hold : SpikeHold D → Limits D → OffsetEstimate D → OffsetEstimate D
  note_hold h l e = record e {
    held = h.holding;
    rejoin_gap_sec = if h.holding then lit 0 0 else h.gap;
    jitter_baseline_sec = if l.armed then l.baseline else e.jitter_baseline_sec;
    spike_threshold_sec = if l.armed then l.threshold else e.spike_threshold_sec;
    holds = h.holds;
    holds_timed_out = h.holds_timed_out;
  }

  -- The state before a hold is judged: its jitter recorded, its gap slewed.
  unfoldable pub prepare_hold : (D → D → D) → SpikeHold D → OffsetEstimate D → SpikeHold D
  prepare_hold copysign h e =
      let dt =
        if lt (lit 0 0) h.last_hold_at
        then dmax (lit 0 0) (sub e.at_sec h.last_hold_at)
        else lit 0 0 in
      slew_gap copysign (record_jitter (record h { last_hold_at = e.at_sec }) e.at_sec e.jitter_sec)
        dt

  unfoldable pub hold_through_spikes :
      (D → D → D) → SpikeHold D → OffsetEstimate D → SpikeHold D × OffsetEstimate D
  hold_through_spikes copysign h e =
      let ready = prepare_hold copysign h e in
      let l = limits_of ready in
      let published = add e.offset_sec ready.gap in
      let (h', e') =
        publish (watch_if_free ready l e.at_sec e.jitter_sec published) l e published in
      (h', note_hold h' l e')
