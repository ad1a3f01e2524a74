-- ===== src/Estimator/Tests.antt =====
-- An estimator at work, in millionths.
use ubersdr_ntp.Prelude.{
  ℕ, zero, suc, ◌*◌, ◌≡◌, refl, true, false, List, [], ◌∷◌, replicate, if◌then◌else◌,
}
use ubersdr_ntp.Prelude.Int.{pos, ◌+ℤ◌, ◌-ℤ◌, ◌*ℤ◌, ◌/ℤ◌, ◌%ℤ◌}
use ubersdr_ntp.Prelude.Micros.{Micros, micros}
use ubersdr_ntp.Prelude.Sort.{insert_sorted, sort_by}
use ubersdr_ntp.Prelude.Double.{abs}
use ubersdr_ntp.Selector.Sample.{libm}
use ubersdr_ntp.Estimator.{SpikeHold, OffsetEstimate, OffsetEstimator, no_estimate}
use ubersdr_ntp.Estimator.Level.{EstimatorCall, an_offset, a_clear, a_prior, an_estimate}
use ubersdr_ntp.Estimator.Timely.{IsHeld, hold_log, hold_through_spikes-IsHeld}
use ubersdr_ntp.Estimator.Counted.{IsCounted, run_calls-IsCounted}
use ubersdr_ntp.Estimator.Attempts.{fit_level_twice}
use ubersdr_ntp.Estimator.{
  drop_while, default_tuning, for_poll_interval, new_estimator, add_offset, clear_offsets,
  set_rate_prior, median,
}
use ubersdr_ntp.Estimator.Line.{
  sum_of, lowest_x, highest_x, ols, keep_if, trim, block_of, block_means, blocks_of, judge_slope,
  refit, fit_line,
}
use ubersdr_ntp.Estimator.Hold.{
  record_jitter, limits_of, slew_gap, watch, watch_if_free, note_calm, release, keep_or_release,
  publish, note_hold, prepare_hold, hold_through_spikes,
}
use ubersdr_ntp.Estimator.Level.{
  any_older, in_window, points_of, is_on_line, drop_history, fit_level, rate_estimate, sum_carried,
  level_estimate, publish_level, recompute_level, forget_estimate, recompute, estimate, run_calls,
}

methods : Unit {0}
unfolding ◌+ℤ◌ ◌-ℤ◌ ◌*ℤ◌ ◌/ℤ◌ ◌%ℤ◌ insert_sorted sort_by add_offset any_older block_means block_of
    blocks_of clear_offsets default_tuning drop_history drop_while estimate fit_level fit_line
    for_poll_interval forget_estimate highest_x hold_log hold_through_spikes in_window is_on_line
    judge_slope keep_if keep_or_release level_estimate limits_of lowest_x median new_estimator
    note_calm note_hold ols points_of prepare_hold publish publish_level rate_estimate recompute
    recompute_level record_jitter refit release run_calls set_rate_prior slew_gap sum_carried sum_of
    trim watch watch_if_free
methods = tt

abbrev sec : ℕ → Micros
sec n = micros.decimal n 0

abbrev copysign : Micros → Micros → Micros
copysign a b = if micros.dlt b (pos 0) then micros.dneg (abs a) else abs a

median_even : median (sec 4 ∷ sec 1 ∷ sec 3 ∷ sec 2 ∷ []) ≡ pos 2_500_000
unfolding methods
median_even = refl

-- Ten minutes of calm, then a spike.
abbrev calm : SpikeHold Micros
calm = record {
  jitter_history = replicate 60 (record { at = sec 1000; jitter = pos 10 });
  next_jitter_record_at = sec 2000;
  have_calm = true;
  calm_at = sec 1600;
  calm_offset = pos 42;
  holding = false;
  hold_start = sec 0;
  calm_since = sec 0;
  rearm_on_calm = false;
  gap = sec 0;
  gap_slew = sec 0;
  last_hold_at = sec 1600;
  holds = 0;
  holds_timed_out = 0;
}

abbrev spike : OffsetEstimate Micros
spike =
    let none_yet : OffsetEstimate Micros = no_estimate in
    record none_yet { valid = true; at_sec = sec 1604; offset_sec = pos 500; jitter_sec = pos 300 }

spike_held : (hold_through_spikes copysign calm spike).1.held ≡ true
unfolding methods
spike_held = refl

spike_level : (hold_through_spikes copysign calm spike).1.offset_sec ≡ pos 42
unfolding methods
spike_level = refl

-- The same from the start: an estimate in ten seconds, the newest first.
abbrev calm_log : ℕ → List (OffsetEstimate Micros)
calm_log zero = []
calm_log (suc n) =
    let none_yet : OffsetEstimate Micros = no_estimate in
    record none_yet {
      valid = true;
      at_sec = sec (10 * suc n);
      offset_sec = pos 42;
      jitter_sec = pos 10;
    }
    ∷ calm_log n

abbrev late_spike : OffsetEstimate Micros
late_spike =
    let none_yet : OffsetEstimate Micros = no_estimate in
    record none_yet { valid = true; at_sec = sec 604; offset_sec = pos 500; jitter_sec = pos 300 }

late_spike_held :
    (hold_through_spikes copysign (hold_log copysign (calm_log 60)) late_spike).1.held ≡ true
unfolding methods
late_spike_held = refl

hold_through_spikes-IsHeld_example :
    let x = hold_through_spikes copysign (hold_log copysign (calm_log 60)) late_spike in
    IsHeld copysign (calm_log 60) late_spike x.1
hold_through_spikes-IsHeld_example =
    hold_through_spikes-IsHeld copysign (calm_log 60) late_spike late_spike_held

abbrev calls : List (EstimatorCall Micros)
calls =
    an_offset (sec 1) (pos 100)
    ∷ an_offset (sec 2) (pos 120)
    ∷ an_offset (sec 3) (pos 110)
    ∷ a_prior (pos 1) (pos 1) true
    ∷ an_estimate
    ∷ a_clear
    ∷ an_estimate
    ∷ []

abbrev three : OffsetEstimator Micros
three = run_calls libm copysign (new_estimator (for_poll_interval (sec 64))) calls

run_calls-IsCounted_example :
    IsCounted (run_calls libm copysign (new_estimator (for_poll_interval (sec 64))) calls).hold
run_calls-IsCounted_example = run_calls-IsCounted libm copysign (for_poll_interval (sec 64)) calls

fit_level_twice_example : fit_level libm 5 three ≡ fit_level libm 2 three
fit_level_twice_example = fit_level_twice libm 3 three
