-- ===== src/Clocks/Arrival.antt =====
-- src/SampleClock.{h,cpp}: `SampleClock`, the fit of the fastest arrivals. std::sqrt is a parameter.
use ubersdr_ntp.Prelude.{
  ℕ, ◌-◌, Bool, true, false, not, ◌&&◌, ◌||◌, List, [], ◌∷◌, ◌++◌, Option, none, some, length, ltb,
  if◌then◌else◌,
}
use ubersdr_ntp.Prelude.Int.{ℤ, pos, leb_ℤ, ltb_ℤ, eqb_ℤ}
use ubersdr_ntp.Prelude.Double.{Double, add, sub, mul, div, abs, lt, le, lit, from_int, dmax}
use ubersdr_ntp.Prelude.Libm.{Libm}

pub record ClockFit (D : Type 0) : Type 0 where
  pub valid : Bool
  pub anchor_sec : D
  pub sec_per_sample : D
  pub residual_rms : D
  pub span_sec : D
  pub points : ℕ
  pub slope_uncertainty_sec : D
  pub slope_held : Bool

pub record ArrivalPoint (D : Type 0) : Type 0 where
  pub sample : ℤ
  pub host_sec : D
  pub residual : D

-- The best arrival of the bucket is of account only where there is a bucket.
pub record SampleClock (D : Type 0) : Type 0 where
  pub rate : ℤ
  pub bucket_sec : D
  pub window_sec : D
  pub have_bucket : Bool
  pub bucket_best : ArrivalPoint D
  pub bucket_start_sec : D
  pub envelope : List (ArrivalPoint D)
  pub fit : ClockFit D
  pub last_excess : D

module _ {D : Type 0} ⦃f : Double D⦄ where
  abbrev pub no_clock_fit : ClockFit D
  no_clock_fit = record {
    valid = false;
    anchor_sec = lit 0 0;
    sec_per_sample = lit 0 0;
    residual_rms = lit 0 0;
    span_sec = lit 0 0;
    points = 0;
    slope_uncertainty_sec = lit 0 0;
    slope_held = false;
  }

  unfoldable pub new_sample_clock : ℤ → D → D → SampleClock D
  new_sample_clock sample_rate bucket_sec window_sec = record {
    rate = if ltb_ℤ (pos 0) sample_rate then sample_rate else pos 12000;
    bucket_sec = bucket_sec;
    window_sec = window_sec;
    have_bucket = false;
    bucket_best = record { sample = pos 0; host_sec = lit 0 0; residual = lit 0 0 };
    bucket_start_sec = lit 0 0;
    envelope = [];
    fit = no_clock_fit;
    last_excess = lit 0 0;
  }

  -- `setSampleRate` and `reset`.
  unfoldable pub set_rate : SampleClock D → ℤ → SampleClock D
  set_rate c rate =
      if leb_ℤ rate (pos 0) || eqb_ℤ rate c.rate
      then c
      else record c { rate = rate; envelope = []; have_bucket = false; fit = no_clock_fit }

  unfoldable pub reset_arrivals : SampleClock D → SampleClock D
  reset_arrivals c = record c {
    envelope = [];
    have_bucket = false;
    fit = no_clock_fit;
    last_excess = lit 0 0;
  }

  -- A sum over the envelope, in its order.
  unfoldable pub sum_points : (ArrivalPoint D → D) → D → List (ArrivalPoint D) → D
  sum_points g total [] = total
  sum_points g total (p ∷ ps) = sum_points g (add total (g p)) ps

  unfoldable pub last_point : ArrivalPoint D → List (ArrivalPoint D) → ArrivalPoint D
  last_point p [] = p
  last_point p (q ∷ ps) = last_point q ps

  abbrev pub sample_sec : ArrivalPoint D → D
  sample_sec p = from_int p.sample

  abbrev pub nominal_of : ℤ → D
  nominal_of rate = div (lit 1 0) (from_int rate)

  -- `kMaxPlausiblePpm`.
  abbrev pub ppm_bound : D
  ppm_bound = mul (lit 200 0) (lit 1 6)

  -- Whether a slope is within the bound of the nominal one.
  abbrev pub is_plausible_slope : D → D → Bool
  is_plausible_slope nominal fitted =
      lt (mul nominal (sub (lit 1 0) ppm_bound)) fitted
      && lt fitted (mul nominal (add (lit 1 0) ppm_bound))

  -- The slope that is used: the nominal one in place of one that is not plausible.
  unfoldable pub choose_slope : D → D → D
  choose_slope nominal fitted = if is_plausible_slope nominal fitted then fitted else nominal

  -- The fit through an envelope of at least two points, a first one and the rest.
  unfoldable pub fit_arrivals : Libm D → ℤ → ArrivalPoint D → List (ArrivalPoint D) → ClockFit D
  fit_arrivals libm rate p rest =
      let ps : List (ArrivalPoint D) = p ∷ rest in
      let n = from_int (pos (length ps)) in
      let mx = div (sum_points sample_sec (lit 0 0) ps) n in
      let my = div (sum_points (λ q. q.host_sec) (lit 0 0) ps) n in
      let sxx =
        sum_points (λ q. mul (sub (sample_sec q) mx) (sub (sample_sec q) mx)) (lit 0 0) ps in
      let sxy = sum_points (λ q. mul (sub (sample_sec q) mx) (sub q.host_sec my)) (lit 0 0) ps in
      let nominal = nominal_of rate in
      let fitted = if le sxx (lit 0 0) then nominal else div sxy sxx in
      let held = not (is_plausible_slope nominal fitted) in
      let slope = choose_slope nominal fitted in
      let anchor = sub my (mul slope mx) in
      let off : ArrivalPoint D → D = λ q. sub q.host_sec (add anchor (mul slope (sample_sec q))) in
      let ss = sum_points (λ q. mul (off q) (off q)) (lit 0 0) ps in
      let rms = libm.sqrt (div ss n) in
      let work = abs (sub (sample_sec (last_point p rest)) mx) in
      let doubt =
        if ltb 2 (length ps) && lt (lit 0 0) sxx
        then mul (libm.sqrt (div (div ss (from_int (pos (length ps - 2)))) sxx)) work
        else rms in
      record {
        valid = true;
        anchor_sec = anchor;
        sec_per_sample = slope;
        residual_rms = rms;
        span_sec = sub (last_point p rest).host_sec p.host_sec;
        points = length ps;
        slope_uncertainty_sec =
            if held then dmax doubt (mul (abs (sub fitted nominal)) work) else doubt;
        slope_held = held;
      }

  -- `refit`.
  unfoldable pub refit_clock : Libm D → SampleClock D → SampleClock D
  refit_clock libm c = elim c.envelope [
    | [] ↦ record c { fit = no_clock_fit }
    | p ∷ rest ↦
        (if ltb (length (p ∷ rest)) 2
          then record c { fit = no_clock_fit }
          else record c { fit = fit_arrivals libm c.rate p rest })
  ]

  -- The ageing of the window by time.
  unfoldable pub age_window : D → List (ArrivalPoint D) → List (ArrivalPoint D)
  age_window window [] = []
  age_window window (p ∷ ps) =
      let aged = age_window window ps in
      if ltb 2 (length (p ∷ ps)) && lt window (sub (last_point p ps).host_sec p.host_sec)
      then aged
      else p ∷ ps

  -- How far an arrival is above the line.
  unfoldable pub note_excess : SampleClock D → ℤ → D → SampleClock D
  note_excess c end_sample host_sec =
      if c.fit.valid
      then record c {
        last_excess =
            sub host_sec (add c.fit.anchor_sec (mul c.fit.sec_per_sample (from_int end_sample)));
      }
      else c

  unfoldable pub start_bucket : SampleClock D → ArrivalPoint D → SampleClock D
  start_bucket c p = record c { have_bucket = true; bucket_best = p; bucket_start_sec = p.host_sec }

  unfoldable pub keep_fastest : SampleClock D → ArrivalPoint D → SampleClock D
  keep_fastest c p =
      if lt p.residual c.bucket_best.residual then record c { bucket_best = p } else c

  -- A full bucket gives its fastest arrival to the envelope.
  unfoldable pub close_bucket : SampleClock D → SampleClock D
  close_bucket c = record c {
    envelope = age_window c.window_sec (c.envelope ++ (c.bucket_best ∷ []));
    have_bucket = false;
  }

  unfoldable pub observe_arrival : Libm D → SampleClock D → ℤ → D → SampleClock D
  observe_arrival libm c end_sample host_sec =
      let p : ArrivalPoint D = record {
        sample = end_sample;
        host_sec = host_sec;
        residual = sub host_sec (div (from_int end_sample) (from_int c.rate));
      } in
      let noted = note_excess c end_sample host_sec in
      let kept = keep_fastest noted p in
      if not c.have_bucket
      then start_bucket noted p
      else if lt (sub host_sec c.bucket_start_sec) c.bucket_sec
      then kept
      else refit_clock libm (close_bucket kept)

  -- `hostTimeAt`.
  unfoldable pub arrival_time_at : SampleClock D → D → Option D
  arrival_time_at c sample =
      if c.fit.valid then some (add c.fit.anchor_sec (mul c.fit.sec_per_sample sample)) else none

-- The calls that change a sample clock.
pub data ClockCall (D : Type 0) : Type 0 where
  rate_set : ℤ → ClockCall D
  arrivals_reset : ClockCall D
  arrival_seen : ℤ → D → ClockCall D

module _ {D : Type 0} ⦃f : Double D⦄ (libm : Libm D) where
  abbrev pub clock_call : SampleClock D → ClockCall D → SampleClock D
  clock_call c (rate_set rate) = set_rate c rate
  clock_call c arrivals_reset = reset_arrivals c
  clock_call c (arrival_seen end_sample host_sec) = observe_arrival libm c end_sample host_sec

  unfoldable pub clock_calls : SampleClock D → List (ClockCall D) → SampleClock D
  clock_calls c [] = c
  clock_calls c (x ∷ xs) = clock_calls (clock_call c x) xs
