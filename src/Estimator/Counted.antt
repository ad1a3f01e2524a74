-- ===== src/Estimator/Counted.antt =====
-- src/OffsetEstimator.cpp: the counts of the holds.
use ubersdr_ntp.Prelude.{
  ℕ, zero, suc, refl, sym, subst, ◌+◌, ◌≤◌, ◌≡◌, List, [], ◌∷◌, arith, if◌then◌else◌,
}
use ubersdr_ntp.Prelude.Double.{Double}
use ubersdr_ntp.Prelude.Libm.{Libm}
use ubersdr_ntp.Estimator.{
  OffsetEstimator, OffsetEstimate, OffsetTuning, SpikeHold, new_estimator, add_offset,
  clear_offsets, set_rate_prior,
}
use ubersdr_ntp.Estimator.Hold.{
  Limits, record_jitter, slew_gap, watch, watch_if_free, note_calm, release, keep_or_release,
  publish, prepare_hold, hold_through_spikes,
}
use ubersdr_ntp.Estimator.Level.{
  EstimatorCall, an_offset, a_clear, a_prior, an_estimate, fit_level, drop_history, forget_estimate,
  recompute_level, publish_level, recompute, estimate, call, run_calls,
}

-- Every hold that timed out was started, and so was the one that goes on.
pub record IsCounted {D : Type 0} (h : SpikeHold D) : Type 0 where
  pub counted : h.holds_timed_out + (if h.holding then 1 else 0) ≤ h.holds

module _ {D : Type 0} ⦃f : Double D⦄ where
  prepare_hold-IsCounted :
      (copysign : D → D → D) (h : SpikeHold D) (e : OffsetEstimate D)
      → IsCounted h
      → IsCounted (prepare_hold copysign h e)
  unfolding prepare_hold record_jitter slew_gap
  prepare_hold-IsCounted copysign h e c = ground arith

  publish-IsCounted :
      (h : SpikeHold D) (l : Limits D) (e : OffsetEstimate D) (published : D)
      → IsCounted h
      → IsCounted (publish (watch_if_free h l e.at_sec e.jitter_sec published) l e published).0
  unfolding publish watch_if_free watch keep_or_release note_calm release
  publish-IsCounted h l e published c = ground arith

  hold_through_spikes-IsCounted :
      (copysign : D → D → D) (h : SpikeHold D) (e : OffsetEstimate D)
      → IsCounted h
      → IsCounted (hold_through_spikes copysign h e).0
  unfolding hold_through_spikes
  hold_through_spikes-IsCounted copysign h e c =
      publish-IsCounted _ _ e _ (prepare_hold-IsCounted copysign h e c)

  fit_level_hold :
      (libm : Libm D) (n : ℕ) (e : OffsetEstimator D) → (fit_level libm n e).0.hold ≡ e.hold
  unfolding fit_level drop_history
  fit_level_hold libm zero e = refl
  fit_level_hold libm (suc n) e = ground (arith, fit_level_hold libm n (drop_history e))

  publish_level-IsCounted :
      (copysign : D → D → D) (e : OffsetEstimator D) (est : OffsetEstimate D)
      → IsCounted e.hold
      → IsCounted (publish_level copysign e est).hold
  unfolding publish_level
  publish_level-IsCounted copysign e est c =
      ground (arith, c, hold_through_spikes-IsCounted copysign e.hold est c)

module _ {D : Type 0} ⦃f : Double D⦄ (libm : Libm D) (copysign : D → D → D) where
  recompute_level-IsCounted :
      (e : OffsetEstimator D) → IsCounted e.hold → IsCounted (recompute_level libm copysign e).hold
  unfolding recompute_level
  recompute_level-IsCounted e c =
      publish_level-IsCounted copysign _ _ (subst IsCounted (sym (fit_level_hold libm 2 e)) c)

  recompute-IsCounted :
      (e : OffsetEstimator D) → IsCounted e.hold → IsCounted (recompute libm copysign e).hold
  unfolding recompute forget_estimate
  recompute-IsCounted e c = ground (arith, c, recompute_level-IsCounted e c)

  call-IsCounted :
      (e : OffsetEstimator D) (x : EstimatorCall D)
      → IsCounted e.hold
      → IsCounted (call libm copysign e x).hold
  unfolding add_offset clear_offsets set_rate_prior estimate
  call-IsCounted e (an_offset at offset) c = c
  call-IsCounted e a_clear c = ground arith
  call-IsCounted e (a_prior rate uncertainty known) c = c
  call-IsCounted e an_estimate c = ground (arith, recompute-IsCounted e c)

  calls-IsCounted :
      (xs : List (EstimatorCall D)) (e : OffsetEstimator D)
      → IsCounted e.hold
      → IsCounted (run_calls libm copysign e xs).hold
  unfolding run_calls
  calls-IsCounted [] e c = c
  calls-IsCounted (x ∷ xs) e c = calls-IsCounted xs (call libm copysign e x) (call-IsCounted e x c)

  -- Over any calls of an estimator from its start, at most as many holds have timed out as were started,
  -- less the one that goes on.
  pub run_calls-IsCounted :
      (tuning : OffsetTuning D) (xs : List (EstimatorCall D))
      → IsCounted (run_calls libm copysign (new_estimator tuning) xs).hold
  unfolding new_estimator
  run_calls-IsCounted tuning xs =
      calls-IsCounted xs (new_estimator tuning) (record { counted = omega arith })
