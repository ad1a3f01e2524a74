-- ===== src/Clocks/Calm.antt =====
-- src/SampleClock.cpp: when the host clock is said to be steady.
use ubersdr_ntp.Prelude.{◌≡◌, ◌⊎◌, true, false, List, [], ◌∷◌, ◌++◌, some}
use ubersdr_ntp.Prelude.Double.{Double, sub, mul, neg, lt, lit}
use ubersdr_ntp.Clocks.Slew.{
  HostSlewGuard, SlewReading, short_sec, slope_between, oldest_short, deviation_of, is_too_soon,
  sample_slew, sample_all,
}

module _ {D : Type 0} ⦃f : Double D⦄ where
  -- A reading that is taken into a history: it leaves the deviation of the rate since the oldest reading
  -- of the last short span, which is at least half of one back, and that is not past 20 ppm.
  pub record IsCalm (nan : D) (g : HostSlewGuard D) (now : SlewReading D) : Type 0 where
    pub taken : is_too_soon g.hist now.daemon_sec ≡ false
    pub from : SlewReading D
    pub oldest_is : oldest_short now.daemon_sec (sample_slew nan g now).hist ≡ some from
    pub span_is : lt (sub now.daemon_sec from.daemon_sec) (mul (lit 5 1) short_sec) ≡ false
    pub calm_is :
        lt (lit 20 0) (deviation_of (slope_between from now) (sample_slew nan g now).hist) ≡ false

  -- Every reading of a list, taken one after another, is passed over as too soon or is calm.
  abbrev pub AllCalm : D → HostSlewGuard D → List (SlewReading D) → Type 0
  AllCalm nan g [] = Unit
  AllCalm nan g (r ∷ rs) =
      ((is_too_soon g.hist r.daemon_sec ≡ true) ⊎ IsCalm nan g r)
      × AllCalm nan (sample_slew nan g r) rs

  -- Among the readings from a state on there is one at some time that is calm, and so are all after it.
  pub record CalmSince (nan since : D) (g : HostSlewGuard D) (rs : List (SlewReading D))
      : Type 0 where
    pub before : List (SlewReading D)
    pub first : SlewReading D
    pub after : List (SlewReading D)
    pub split_is : rs ≡ before ++ (first ∷ after)
    pub since_is : since ≡ first.daemon_sec
    pub first_calm : IsCalm nan (sample_all nan g before) first
    pub after_calm : AllCalm nan (sample_slew nan (sample_all nan g before) first) after

  -- After some readings: no calm, or calm since before the first with all of them, or since one of them.
  abbrev Outcome : D → HostSlewGuard D → List (SlewReading D) → D → Type 0
  Outcome nan g rs since =
      (since ≡ neg (lit 1 0))
      ⊎ (((since ≡ g.calm_since) × AllCalm nan g rs) ⊎ CalmSince nan since g rs)
