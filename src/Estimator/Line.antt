-- ===== src/Estimator/Line.antt =====
-- src/OffsetEstimator.cpp: `fitLine`, the fit of the rate.
use ubersdr_ntp.Prelude.{
  ℕ, zero, suc, ◌-◌, ◌^◌, Bool, false, not, ◌&&◌, List, [], ◌∷◌, Option, none, some, length, map,
  ltb, leb, if◌then◌else◌,
}
use ubersdr_ntp.Prelude.Int.{ℤ, pos, pos_part, ◌+ℤ◌, ◌-ℤ◌, ltb_ℤ, eqb_ℤ}
use ubersdr_ntp.Prelude.Double.{
  Double, add, sub, mul, div, abs, neg, lt, le, lit, from_int, dmin, dmax,
}
use ubersdr_ntp.Prelude.Libm.{Libm}
use ubersdr_ntp.Server.{truncate}
use ubersdr_ntp.Estimator.{OffsetTuning, median, zero_sec}

pub record Point (D : Type 0) : Type 0 where
  pub x : D
  pub y : D

pub record LineFit (D : Type 0) : Type 0 where
  pub ok : Bool
  pub slope : D
  pub intercept : D
  pub slope_se : D
  pub sigma : D
  pub span : D
  pub xmin : D
  pub kept : ℕ

module _ {D : Type 0} ⦃f : Double D⦄ where
  abbrev pub no_fit : LineFit D
  no_fit = record {
    ok = false;
    slope = zero_sec;
    intercept = zero_sec;
    slope_se = zero_sec;
    sigma = zero_sec;
    span = zero_sec;
    xmin = zero_sec;
    kept = 0;
  }

  abbrev pub num : ℕ → D
  num n = from_int (pos n)

  -- A sum in the order of the points, from an initial value.
  unfoldable pub sum_of : (Point D → D) → D → List (Point D) → D
  sum_of g total [] = total
  sum_of g total (p ∷ ps) = sum_of g (add total (g p)) ps

  unfoldable pub lowest_x : D → List (Point D) → D
  lowest_x low [] = low
  lowest_x low (p ∷ ps) = lowest_x (dmin low p.x) ps

  unfoldable pub highest_x : D → List (Point D) → D
  highest_x high [] = high
  highest_x high (p ∷ ps) = highest_x (dmax high p.x) ps

  abbrev pub residual : LineFit D → Point D → D
  residual fit p = sub p.y (add fit.intercept (mul fit.slope p.x))

  abbrev pub square : D → D
  square a = mul a a

  abbrev pub sum_xx : D → List (Point D) → D
  sum_xx mx ps = sum_of (λ p. square (sub p.x mx)) (lit 0 0) ps

  -- The lambda `ols`, of the points that are kept.
  unfoldable pub ols : Libm D → List (Point D) → Option (LineFit D)
  ols libm ps =
      let n = num (length ps) in
      let mx = div (sum_of (λ p. p.x) (lit 0 0) ps) n in
      let my = div (sum_of (λ p. p.y) (lit 0 0) ps) n in
      let sxx = sum_xx mx ps in
      let sxy = sum_of (λ p. mul (sub p.x mx) (sub p.y my)) (lit 0 0) ps in
      let slope = div sxy sxx in
      let intercept = sub my (mul slope mx) in
      let ss = sum_of (λ p. square (sub p.y (add intercept (mul slope p.x)))) (lit 0 0) ps in
      let variance = div ss (sub n (lit 2 0)) in
      let low = lowest_x (lit (10 ^ 300) 0) ps in
      if ltb (length ps) 3
      then none
      else if not (lt (lit 0 0) sxx)
      then none
      else some (record {
        ok = false;
        slope = slope;
        intercept = intercept;
        slope_se = libm.sqrt (div variance sxx);
        sigma = libm.sqrt variance;
        span = sub (highest_x (neg (lit (10 ^ 300) 0)) ps) low;
        xmin = low;
        kept = length ps;
      })

  unfoldable pub keep_if : (Point D → Bool) → List (Point D) → List (Point D)
  keep_if test [] = []
  keep_if test (p ∷ ps) = let rest = keep_if test ps in if test p then p ∷ rest else rest

  -- The points within five sigma of the first line.
  unfoldable pub trim : LineFit D → List (Point D) → List (Point D)
  trim first ps =
      let med = median (map (residual first) ps) in
      let dev = map (λ p. abs (sub (residual first p) med)) ps in
      let sigma = dmax (mul (lit 14826 4) (median dev)) (lit 1 4) in
      keep_if (λ p. le (abs (sub (residual first p) med)) (mul (lit 5 0) sigma)) ps

  -- Which of so many blocks a point is in.
  unfoldable pub block_of : OffsetTuning D → LineFit D → ℤ → Point D → ℤ
  block_of t fit blocks p =
      let b = truncate (div (sub p.x fit.xmin) t.block_sec) in
      if ltb_ℤ b (blocks -ℤ pos 1) then b else blocks -ℤ pos 1

  -- The means of the blocks from one on, of those that have enough points.
  unfoldable pub block_means :
      ℕ → ℤ → OffsetTuning D → LineFit D → ℤ → List (Point D) → List (Point D)
  block_means zero b t fit blocks ps = []
  block_means (suc left) b t fit blocks ps =
      let mine = keep_if (λ p. eqb_ℤ (block_of t fit blocks p) b) ps in
      let n = num (length mine) in
      let rest = block_means left (b +ℤ pos 1) t fit blocks ps in
      if leb t.min_block_samples (length mine)
      then record {
        x = div (sum_of (λ p. p.x) (lit 0 0) mine) n;
        y = div (sum_of (residual fit) (lit 0 0) mine) n;
      }
        ∷ rest
      else rest

  unfoldable pub blocks_of : OffsetTuning D → LineFit D → List (Point D) → List (Point D)
  blocks_of t fit ps =
      let blocks = truncate (div fit.span t.block_sec) +ℤ pos 1 in
      block_means (pos_part blocks) (pos 0) t fit blocks ps

  -- What the wander of the blocks could have done to the slope.
  unfoldable pub judge_slope : Libm D → OffsetTuning D → LineFit D → List (Point D) → LineFit D
  judge_slope libm t fit blocks =
      let ss = sum_of (λ p. square p.y) (lit 0 0) blocks in
      let scatter = libm.sqrt (div ss (num (length blocks - 2))) in
      let enough = leb t.min_blocks (length blocks) in
      record fit {
        slope_se =
            if enough && lt (lit 0 0) fit.span
            then dmax fit.slope_se (div (mul (libm.sqrt (lit 12 0)) scatter) fit.span)
            else fit.slope_se;
        ok = leb t.min_rate_samples fit.kept && le t.min_rate_span_sec fit.span && enough;
      }

  -- The second fit, of the points that were kept.
  unfoldable pub refit : Libm D → OffsetTuning D → List (Point D) → LineFit D
  refit libm t kept = elim (ols libm kept) [
    | none ↦ no_fit
    | some fit ↦ judge_slope libm t fit (blocks_of t fit kept)
  ]

  unfoldable pub fit_line : Libm D → OffsetTuning D → List (Point D) → LineFit D
  fit_line libm t ps =
      if ltb (length ps) t.min_rate_samples
      then no_fit
      else elim (ols libm ps) [ none ↦ no_fit | some first ↦ refit libm t (trim first ps) ]
