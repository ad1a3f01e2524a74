-- ===== src/Estimator.antt =====
-- src/OffsetEstimator.{h,cpp}: the filter of one source's offsets, with its state and what goes into it.
-- Its children are the fit of the rate (Line), the holding through a spike (Hold) and the estimate
-- (Level). std::nth_element is a sort; std::sqrt and std::copysign are parameters.
pub mod Line
pub mod Hold
pub mod Level
pub mod Counted
pub mod Timely
pub mod Attempts
mod Tests
use ubersdr_ntp.Prelude.{
  ℕ, ◌-◌, ◌/◌, ◌%◌, ◌==◌, Bool, true, false, not, List, [], ◌∷◌, ◌++◌, get_or, length,
  if◌then◌else◌,
}
use ubersdr_ntp.Prelude.Double.{Double, add, sub, mul, neg, lt, lit, dmax}
use ubersdr_ntp.Prelude.Sort.{sort_by}

pub record OffsetTuning (D : Type 0) : Type 0 where
  pub level_window_sec : D
  pub min_level_samples : ℕ
  pub rate_window_sec : D
  pub min_rate_span_sec : D
  pub min_rate_samples : ℕ
  pub block_sec : D
  pub min_block_samples : ℕ
  pub min_blocks : ℕ
  pub hold_jitter_spikes : Bool

pub record OffsetEstimate (D : Type 0) : Type 0 where
  pub valid : Bool
  pub samples : ℕ
  pub at_sec : D
  pub offset_sec : D
  pub jitter_sec : D
  pub rate_measured : Bool
  pub rate_from_prior : Bool
  pub rate : D
  pub rate_uncertainty : D
  pub rate_span_sec : D
  pub rate_samples : ℕ
  pub rate_term_sec : D
  pub level_shifts : ℕ
  pub live_offset_sec : D
  pub held : Bool
  pub held_for_sec : D
  pub rejoin_gap_sec : D
  pub jitter_baseline_sec : D
  pub spike_threshold_sec : D
  pub holds : ℕ
  pub holds_timed_out : ℕ

pub record Offset (D : Type 0) : Type 0 where
  pub at : D
  pub offset : D

pub record JitterRecord (D : Type 0) : Type 0 where
  pub at : D
  pub jitter : D

-- The state of the spike hold.
pub record SpikeHold (D : Type 0) : Type 0 where
  pub jitter_history : List (JitterRecord D)
  pub next_jitter_record_at : D
  pub have_calm : Bool
  pub calm_at : D
  pub calm_offset : D
  pub holding : Bool
  pub hold_start : D
  pub calm_since : D
  pub rearm_on_calm : Bool
  pub gap : D
  pub gap_slew : D
  pub last_hold_at : D
  pub holds : ℕ
  pub holds_timed_out : ℕ

-- The samples are in the order of their arrival, the oldest first.
pub record OffsetEstimator (D : Type 0) : Type 0 where
  pub tuning : OffsetTuning D
  pub samples : List (Offset D)
  pub newest_at : D
  pub dirty : Bool
  pub level_shifts : ℕ
  pub est : OffsetEstimate D
  pub hold : SpikeHold D
  pub prior_rate : D
  pub prior_uncertainty : D
  pub prior_known : Bool

module _ {A : Type 0} where
  -- The loops that pop a front that is too old.
  unfoldable pub drop_while : (A → Bool) → List A → List A
  drop_while test [] = []
  drop_while test (x ∷ xs) = let rest = drop_while test xs in if test x then rest else x ∷ xs

module _ {D : Type 0} ⦃f : Double D⦄ where
  abbrev pub zero_sec : D
  zero_sec = lit 0 0

  unfoldable pub default_tuning : OffsetTuning D
  default_tuning = record {
    level_window_sec = lit 120 0;
    min_level_samples = 5;
    rate_window_sec = lit 1800 0;
    min_rate_span_sec = lit 600 0;
    min_rate_samples = 120;
    block_sec = lit 60 0;
    min_block_samples = 5;
    min_blocks = 5;
    hold_jitter_spikes = false;
  }

  unfoldable pub for_poll_interval : D → OffsetTuning D
  for_poll_interval poll_sec = if not (lt (lit 0 0) poll_sec) then default_tuning else record {
    level_window_sec = dmax (lit 120 0) (mul (lit 8 0) poll_sec);
    min_level_samples = 4;
    rate_window_sec = dmax (lit 1800 0) (mul (lit 120 0) poll_sec);
    min_rate_span_sec = dmax (lit 600 0) (mul (lit 30 0) poll_sec);
    min_rate_samples = 20;
    block_sec = dmax (lit 60 0) (mul (lit 5 0) poll_sec);
    min_block_samples = 3;
    min_blocks = 5;
    hold_jitter_spikes = false;
  }

  abbrev pub no_estimate : OffsetEstimate D
  no_estimate = record {
    valid = false;
    samples = 0;
    at_sec = zero_sec;
    offset_sec = zero_sec;
    jitter_sec = zero_sec;
    rate_measured = false;
    rate_from_prior = false;
    rate = zero_sec;
    rate_uncertainty = zero_sec;
    rate_span_sec = zero_sec;
    rate_samples = 0;
    rate_term_sec = zero_sec;
    level_shifts = 0;
    live_offset_sec = zero_sec;
    held = false;
    held_for_sec = zero_sec;
    rejoin_gap_sec = zero_sec;
    jitter_baseline_sec = zero_sec;
    spike_threshold_sec = zero_sec;
    holds = 0;
    holds_timed_out = 0;
  }

  abbrev pub no_hold : SpikeHold D
  no_hold = record {
    jitter_history = [];
    next_jitter_record_at = zero_sec;
    have_calm = false;
    calm_at = zero_sec;
    calm_offset = zero_sec;
    holding = false;
    hold_start = zero_sec;
    calm_since = neg (lit 1 0);
    rearm_on_calm = false;
    gap = zero_sec;
    gap_slew = zero_sec;
    last_hold_at = zero_sec;
    holds = 0;
    holds_timed_out = 0;
  }

  unfoldable pub new_estimator : OffsetTuning D → OffsetEstimator D
  new_estimator tuning = record {
    tuning = tuning;
    samples = [];
    newest_at = zero_sec;
    dirty = true;
    level_shifts = 0;
    est = no_estimate;
    hold = no_hold;
    prior_rate = zero_sec;
    prior_uncertainty = zero_sec;
    prior_known = false;
  }

  -- `add`.
  unfoldable pub add_offset : OffsetEstimator D → D → D → OffsetEstimator D
  add_offset e at_sec offset_sec =
      let samples : List (Offset D) =
        e.samples ++ (record { at = at_sec; offset = offset_sec } ∷ []) in
      let newest = if length samples == 1 then at_sec else dmax e.newest_at at_sec in
      record e {
        samples = drop_while (λ s. lt s.at (sub newest e.tuning.rate_window_sec)) samples;
        newest_at = newest;
        dirty = true;
      }

  -- `clear`: what a hold started from, and how many there were, stay.
  unfoldable pub clear_offsets : OffsetEstimator D → OffsetEstimator D
  clear_offsets e =
      let hold : SpikeHold D = e.hold in
      record e {
        samples = [];
        newest_at = zero_sec;
        dirty = true;
        hold = record hold {
          jitter_history = [];
          next_jitter_record_at = zero_sec;
          have_calm = false;
          holding = false;
          calm_since = neg (lit 1 0);
          rearm_on_calm = false;
          gap = zero_sec;
          gap_slew = zero_sec;
          last_hold_at = zero_sec;
        };
      }

  unfoldable pub set_rate_prior : OffsetEstimator D → D → D → Bool → OffsetEstimator D
  set_rate_prior e rate uncertainty known = record e {
    prior_rate = rate;
    prior_uncertainty = uncertainty;
    prior_known = known;
  }

  -- `median`: the middle, or half the sum of the two middle ones. The source never takes it of nothing.
  unfoldable pub median : List D → D
  median v =
      let sorted = sort_by lt v in
      let mid = length v / 2 in
      let hi = get_or sorted mid (lit 0 0) in
      if length v % 2 == 1 then hi else mul (lit 5 1) (add (get_or sorted (mid - 1) (lit 0 0)) hi)
