-- ===== src/Clocks/Plausible.antt =====
-- src/SampleClock.cpp: the rate of the fit of the arrivals.
use ubersdr_ntp.Prelude.{
  length, ltb, not, if_lem, ◌∙◌, ap, ◌≡◌, ◌⊎◌, inl, inr, refl, true, false, List, [], ◌∷◌, arith,
}
use ubersdr_ntp.Prelude.Int.{ℤ, pos, ltb_ℤ}
use ubersdr_ntp.Prelude.Double.{Double, sub, lt}
use ubersdr_ntp.Prelude.Libm.{Libm}
use ubersdr_ntp.Clocks.Arrival.{
  SampleClock, ArrivalPoint, nominal_of, is_plausible_slope, new_sample_clock, set_rate,
  reset_arrivals, choose_slope, fit_arrivals, refit_clock, note_excess, start_bucket, keep_fastest,
  close_bucket, observe_arrival, ClockCall, rate_set, arrivals_reset, arrival_seen, clock_call,
  clock_calls,
}

module _ {D : Type 0} ⦃f : Double D⦄ where
  -- A fit that is in use has the nominal rate, or one that is within 200 ppm of it.
  pub record IsPlausible (c : SampleClock D) : Type 0 where
    pub rate_in : ltb_ℤ (pos 0) c.rate ≡ true
    pub slope_in :
        (c.fit.valid ≡ false)
        ⊎ ((c.fit.sec_per_sample ≡ nominal_of c.rate)
            ⊎ (is_plausible_slope (nominal_of c.rate) c.fit.sec_per_sample ≡ true))

  choose_slope_in :
      (nominal fitted : D)
      → (choose_slope nominal fitted ≡ nominal)
        ⊎ (is_plausible_slope nominal (choose_slope nominal fitted) ≡ true)
  unfolding choose_slope
  choose_slope_in nominal fitted = ground arith

  refit_clock-IsPlausible :
      (libm : Libm D) (c : SampleClock D)
      → ltb_ℤ (pos 0) c.rate ≡ true
      → (e : List (ArrivalPoint D)) → c.envelope ≡ e
      → IsPlausible (refit_clock libm c)
  unfolding refit_clock fit_arrivals
  refit_clock-IsPlausible libm c h [] e = rw e (record { rate_in = h; slope_in = inl refl })
  refit_clock-IsPlausible libm c h (p ∷ rest) e = rw e (
      if_lem IsPlausible (ltb (length (p ∷ rest)) 2) _ _
        (λ _. record { rate_in = h; slope_in = inl refl })
        (λ _. record { rate_in = h; slope_in = inr (choose_slope_in (nominal_of c.rate) _) }))

  close_bucket_rate : (c : SampleClock D) → (close_bucket c).rate ≡ c.rate
  unfolding close_bucket
  close_bucket_rate c = refl

  keep_fastest-IsPlausible :
      (c : SampleClock D) (p : ArrivalPoint D) → IsPlausible c → IsPlausible (keep_fastest c p)
  unfolding keep_fastest
  keep_fastest-IsPlausible c p h = ground arith

  start_bucket-IsPlausible :
      (c : SampleClock D) (p : ArrivalPoint D) → IsPlausible c → IsPlausible (start_bucket c p)
  unfolding start_bucket
  start_bucket-IsPlausible c p h = ground arith

  note_excess-IsPlausible :
      (c : SampleClock D) (n : ℤ) (t : D) → IsPlausible c → IsPlausible (note_excess c n t)
  unfolding note_excess
  note_excess-IsPlausible c n t h = ground arith

  observe_arrival-IsPlausible :
      (libm : Libm D) (c : SampleClock D) (n : ℤ) (t : D)
      → IsPlausible c
      → IsPlausible (observe_arrival libm c n t)
  unfolding observe_arrival
  observe_arrival-IsPlausible libm c n t h =
      let noted = note_excess-IsPlausible c n t h in
      let kept = keep_fastest-IsPlausible (note_excess c n t) _ noted in
      if_lem IsPlausible (not c.have_bucket) _ _ (λ _. start_bucket-IsPlausible _ _ noted)
        (λ _.
          if_lem IsPlausible (lt (sub t c.bucket_start_sec) c.bucket_sec) _ _ (λ _. kept)
            (λ _.
              refit_clock-IsPlausible libm (close_bucket _)
                (ap (λ r. ltb_ℤ (pos 0) r) (close_bucket_rate _) ∙ kept.rate_in) _ refl))

  set_rate-IsPlausible :
      (c : SampleClock D) (rate : ℤ) → IsPlausible c → IsPlausible (set_rate c rate)
  unfolding set_rate
  set_rate-IsPlausible c rate h = ground arith

  reset_arrivals-IsPlausible : (c : SampleClock D) → IsPlausible c → IsPlausible (reset_arrivals c)
  unfolding reset_arrivals
  reset_arrivals-IsPlausible c h = ground arith

module _ {D : Type 0} ⦃f : Double D⦄ (libm : Libm D) where
  call-IsPlausible :
      (c : SampleClock D) (x : ClockCall D) → IsPlausible c → IsPlausible (clock_call libm c x)
  call-IsPlausible c (rate_set rate) h = set_rate-IsPlausible c rate h
  call-IsPlausible c arrivals_reset h = reset_arrivals-IsPlausible c h
  call-IsPlausible c (arrival_seen n t) h = observe_arrival-IsPlausible libm c n t h

  calls-IsPlausible :
      (xs : List (ClockCall D)) (c : SampleClock D)
      → IsPlausible c
      → IsPlausible (clock_calls libm c xs)
  unfolding clock_calls
  calls-IsPlausible [] c h = h
  calls-IsPlausible (x ∷ xs) c h =
      calls-IsPlausible xs (clock_call libm c x) (call-IsPlausible c x h)

  new-IsPlausible :
      (rate : ℤ) (bucket_sec window_sec : D)
      → IsPlausible (new_sample_clock rate bucket_sec window_sec)
  unfolding new_sample_clock
  new-IsPlausible rate bucket_sec window_sec = ground arith

  -- Over any arrivals, changes of the rate and resets, a fit that is in use goes at the nominal rate of
  -- the stream as it is set now, which is positive, or at one that is within 200 ppm of it.
  pub clock_calls-IsPlausible :
      (rate : ℤ) (bucket_sec window_sec : D) (xs : List (ClockCall D))
      → IsPlausible (clock_calls libm (new_sample_clock rate bucket_sec window_sec) xs)
  clock_calls-IsPlausible rate bucket_sec window_sec xs =
      calls-IsPlausible xs _ (new-IsPlausible rate bucket_sec window_sec)
