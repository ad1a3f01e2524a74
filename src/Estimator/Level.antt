-- ===== src/Estimator/Level.antt =====
-- src/OffsetEstimator.cpp: `recompute` and `estimate`.
use ubersdr_ntp.Prelude.{
  ℕ, zero, suc, ◌+◌, Bool, false, not, ◌&&◌, ◌||◌, List, [], ◌∷◌, length, map, leb, if◌then◌else◌,
}
use ubersdr_ntp.Prelude.Double.{Double, add, sub, mul, div, abs, neg, lt, le, lit, dmax}
use ubersdr_ntp.Prelude.Libm.{Libm}
use ubersdr_ntp.Estimator.{
  OffsetEstimator, OffsetEstimate, Offset, OffsetTuning, median, no_estimate, add_offset,
  clear_offsets, set_rate_prior,
}
use ubersdr_ntp.Estimator.Line.{Point, LineFit, no_fit, num, residual, keep_if, fit_line}
use ubersdr_ntp.Estimator.Hold.{hold_through_spikes}

module _ {D : Type 0} ⦃f : Double D⦄ where
  -- Whether a sample is before the level window.
  abbrev pub is_older : OffsetTuning D → D → Offset D → Bool
  is_older t newest s = lt s.at (sub newest t.level_window_sec)

  unfoldable pub any_older : OffsetTuning D → D → List (Offset D) → Bool
  any_older t newest [] = false
  any_older t newest (s ∷ rest) = is_older t newest s || any_older t newest rest

  unfoldable pub in_window : OffsetTuning D → D → List (Offset D) → List (Offset D)
  in_window t newest [] = []
  in_window t newest (s ∷ rest) =
      let others = in_window t newest rest in if is_older t newest s then others else s ∷ others

  unfoldable pub points_of : D → List (Offset D) → List (Point D)
  points_of newest samples = map (λ s. record { x = sub s.at newest; y = s.offset }) samples

  -- `kMaxRatePpm`.
  abbrev pub is_plausible : LineFit D → Bool
  is_plausible fit = le (abs fit.slope) (mul (lit 500 0) (lit 1 6))

  -- Whether the short window is on the long line: no step.
  unfoldable pub is_on_line : Libm D → OffsetTuning D → LineFit D → List (Point D) → Bool
  is_on_line libm t fit pts =
      let short = map (residual fit) (keep_if (λ p. le (neg t.level_window_sec) p.x) pts) in
      let limit =
        dmax (lit 10 3) (div (mul (lit 4 0) fit.sigma) (libm.sqrt (num (length short)))) in
      is_plausible fit && le (abs (median short)) limit

  -- After a step: what is behind the level window goes.
  unfoldable pub drop_history : OffsetEstimator D → OffsetEstimator D
  drop_history e = record e {
    samples = in_window e.tuning e.newest_at e.samples;
    level_shifts = e.level_shifts + 1;
  }

  -- The attempts at a fit that are left: one that finds a step drops the history behind it.
  unfoldable pub fit_level : Libm D → ℕ → OffsetEstimator D → OffsetEstimator D × LineFit D
  fit_level libm zero e = (e, no_fit)
  fit_level libm (suc left) e =
      let pts = points_of e.newest_at e.samples in
      let fit = fit_line libm e.tuning pts in
      let again = fit_level libm left (drop_history e) in
      if not fit.ok || not (any_older e.tuning e.newest_at e.samples)
      then (e, fit)
      else if is_on_line libm e.tuning fit pts
      then (e, fit)
      else again

  -- The rate: the fitted one, the system's, or none.
  unfoldable pub rate_estimate : OffsetEstimator D → LineFit D → OffsetEstimate D
  rate_estimate e fit =
      let measured = fit.ok && is_plausible fit && le fit.slope_se (mul (lit 25 0) (lit 1 6)) in
      let from_prior = not measured && e.prior_known in
      record no_estimate {
        rate_measured = measured;
        rate_from_prior = from_prior;
        rate = if measured then fit.slope else if from_prior then e.prior_rate else lit 0 0;
        rate_uncertainty =
            if measured
            then fit.slope_se
            else if from_prior
            then e.prior_uncertainty
            else mul (lit 50 0) (lit 1 6);
        rate_span_sec = if fit.ok then fit.span else lit 0 0;
        rate_samples = if fit.ok then fit.kept else 0;
        level_shifts = e.level_shifts;
      }

  unfoldable pub sum_carried : D → D → List (Offset D) → D
  sum_carried newest total [] = total
  sum_carried newest total (s ∷ rest) = sum_carried newest (add total (sub newest s.at)) rest

  -- The level, and its spread, about the rate line.
  unfoldable pub level_estimate : OffsetEstimator D → OffsetEstimate D → OffsetEstimate D
  level_estimate e est =
      let window = in_window e.tuning e.newest_at e.samples in
      let level = map (λ s. add s.offset (mul est.rate (sub e.newest_at s.at))) window in
      let med = median level in
      let dev = map (λ x. abs (sub x med)) level in
      let carried = sum_carried e.newest_at (lit 0 0) window in
      record est {
        at_sec = e.newest_at;
        offset_sec = med;
        jitter_sec = mul (lit 14826 4) (median dev);
        samples = length level;
        rate_term_sec = mul est.rate_uncertainty (div carried (num (length level)));
        valid = leb e.tuning.min_level_samples (length level);
        live_offset_sec = med;
        holds = e.hold.holds;
        holds_timed_out = e.hold.holds_timed_out;
      }

  -- The hold, where it is wanted and there is a level.
  unfoldable pub publish_level :
      (D → D → D) → OffsetEstimator D → OffsetEstimate D → OffsetEstimator D
  publish_level copysign e est =
      let (hold, published) = hold_through_spikes copysign e.hold est in
      if e.tuning.hold_jitter_spikes && est.valid
      then record e { hold = hold; est = published }
      else record e { est = est }

  -- What is made of samples, where there are some.
  unfoldable pub recompute_level : Libm D → (D → D → D) → OffsetEstimator D → OffsetEstimator D
  recompute_level libm copysign e =
      let (fitted, fit) = fit_level libm 2 e in
      publish_level copysign fitted (level_estimate fitted (rate_estimate fitted fit))

  -- What is left of the estimate where there are none.
  unfoldable pub forget_estimate : OffsetEstimator D → OffsetEstimator D
  forget_estimate e =
      let none_yet : OffsetEstimate D = no_estimate in
      record e { est = record none_yet { level_shifts = e.level_shifts } }

  unfoldable pub recompute : Libm D → (D → D → D) → OffsetEstimator D → OffsetEstimator D
  recompute libm copysign e = elim e.samples [
    | [] ↦ forget_estimate e
    | _ ∷ _ ↦ recompute_level libm copysign e
  ]

  -- `estimate`: the state after it, whose `est` it returns.
  unfoldable pub estimate : Libm D → (D → D → D) → OffsetEstimator D → OffsetEstimator D
  estimate libm copysign e =
      let after : OffsetEstimator D = if e.dirty then recompute libm copysign e else e in
      record after { dirty = false }

-- The calls that the estimator takes, in their order.
pub data EstimatorCall (D : Type 0) : Type 0 where
  an_offset : D → D → EstimatorCall D
  a_clear : EstimatorCall D
  a_prior : D → D → Bool → EstimatorCall D
  an_estimate : EstimatorCall D

module _ {D : Type 0} ⦃f : Double D⦄ (libm : Libm D) (copysign : D → D → D) where
  abbrev pub call : OffsetEstimator D → EstimatorCall D → OffsetEstimator D
  call e (an_offset at offset) = add_offset e at offset
  call e a_clear = clear_offsets e
  call e (a_prior rate uncertainty known) = set_rate_prior e rate uncertainty known
  call e an_estimate = estimate libm copysign e

  unfoldable pub run_calls : OffsetEstimator D → List (EstimatorCall D) → OffsetEstimator D
  run_calls e [] = e
  run_calls e (c ∷ cs) = run_calls (call e c) cs
