-- ===== src/Estimator/Attempts.antt =====
-- src/OffsetEstimator.cpp: the loop of `recompute` over its attempts at a fit.
use ubersdr_ntp.Prelude.{ℕ, suc, ◌≡◌, refl, false, List, [], ◌∷◌, arith}
use ubersdr_ntp.Prelude.Double.{Double}
use ubersdr_ntp.Prelude.Libm.{Libm}
use ubersdr_ntp.Estimator.{OffsetEstimator, Offset, OffsetTuning}
use ubersdr_ntp.Estimator.Line.{fit_line}
use ubersdr_ntp.Estimator.Level.{any_older, in_window, points_of, drop_history, fit_level}

module _ {D : Type 0} ⦃f : Double D⦄ where
  any_older-in_window :
      (t : OffsetTuning D) (newest : D) (xs : List (Offset D))
      → any_older t newest (in_window t newest xs) ≡ false
  unfolding any_older in_window
  any_older-in_window t newest [] = refl
  any_older-in_window t newest (s ∷ rest) = ground (arith, any_older-in_window t newest rest)

  dropped_older :
      (e : OffsetEstimator D)
      → let d = drop_history e in any_older d.tuning d.newest_at d.samples ≡ false
  unfolding drop_history
  dropped_older e = any_older-in_window e.tuning e.newest_at e.samples

  -- An attempt without a sample behind the level window is the last.
  fit_level_last :
      (libm : Libm D) (k : ℕ) (e : OffsetEstimator D)
      → any_older e.tuning e.newest_at e.samples ≡ false
      → fit_level libm (suc k) e ≡ (e, fit_line libm e.tuning (points_of e.newest_at e.samples))
  unfolding fit_level
  fit_level_last libm k e h = ground (arith, h)

  -- Two attempts are all that the loop ever makes: with any more allowed it ends in the same state, with
  -- the same fit.
  pub fit_level_twice :
      (libm : Libm D) (k : ℕ) (e : OffsetEstimator D)
      → fit_level libm (suc (suc k)) e ≡ fit_level libm 2 e
  unfolding fit_level
  fit_level_twice libm k e =
      let last = fit_level_last libm k (drop_history e) (dropped_older e) in
      let last' = fit_level_last libm 0 (drop_history e) (dropped_older e) in rw (last, last') refl
