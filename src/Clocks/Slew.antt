-- ===== src/Clocks/Slew.antt =====
-- src/SampleClock.{h,cpp}: `HostSlewGuard`, which says when the host clock is not being slewed. Not a
-- number and std::isnan are parameters; the loop over the history is fuelled by its length.
use ubersdr_ntp.Prelude.{
  ℕ, zero, suc, ◌/◌, Bool, false, ◌&&◌, List, [], ◌∷◌, ◌++◌, Option, none, some, get_or, length,
  ltb, leb, if◌then◌else◌,
}
use ubersdr_ntp.Prelude.Double.{Double, sub, mul, div, abs, neg, lt, le, lit, dmax}
use ubersdr_ntp.Prelude.Sort.{sort_by}
use ubersdr_ntp.Estimator.{drop_while}

pub record SlewReading (D : Type 0) : Type 0 where
  pub daemon_sec : D
  pub dmr : D

pub record HostSlewGuard (D : Type 0) : Type 0 where
  pub hist : List (SlewReading D)
  pub deviation_ppm : D
  pub calm_since : D

-- What `steady` answers, with its reason.
pub data Steadiness : Type 0 where
  steady measuring slewed only_just : Steadiness

module _ {D : Type 0} ⦃f : Double D⦄ where
  -- `kShortSec`.
  abbrev pub short_sec : D
  short_sec = lit 16 0

  -- `reset`, and a new guard.
  unfoldable pub reset_guard : D → HostSlewGuard D
  reset_guard nan = record { hist = []; deviation_ppm = nan; calm_since = neg (lit 1 0) }

  abbrev pub slope_between : SlewReading D → SlewReading D → D
  slope_between a b = div (sub b.dmr a.dmr) (sub b.daemon_sec a.daemon_sec)

  unfoldable pub last_reading : SlewReading D → List (SlewReading D) → SlewReading D
  last_reading r [] = r
  last_reading r (s ∷ rest) = last_reading s rest

  -- Whether a reading comes within a second of the newest.
  unfoldable pub is_too_soon : List (SlewReading D) → D → Bool
  is_too_soon [] daemon_sec = false
  is_too_soon (r ∷ rest) daemon_sec = lt (sub daemon_sec (last_reading r rest).daemon_sec) (lit 1 0)

  -- The loop that drops readings older than `kHistorySec`, but for two.
  unfoldable pub drop_readings : D → List (SlewReading D) → List (SlewReading D)
  drop_readings daemon_sec [] = []
  drop_readings daemon_sec (r ∷ rest) =
      let dropped = drop_readings daemon_sec rest in
      if ltb 2 (length (r ∷ rest)) && lt (lit 900 0) (sub daemon_sec r.daemon_sec)
      then dropped
      else r ∷ rest

  -- The oldest reading of the last short span.
  unfoldable pub oldest_short : D → List (SlewReading D) → Option (SlewReading D)
  oldest_short daemon_sec [] = none
  oldest_short daemon_sec (r ∷ rest) =
      let later = oldest_short daemon_sec rest in
      if le (sub daemon_sec r.daemon_sec) short_sec then some r else later

  -- The slopes over consecutive short spans.
  unfoldable pub short_slopes : ℕ → List (SlewReading D) → List D
  short_slopes zero hist = []
  short_slopes (suc left) [] = []
  short_slopes (suc left) (r ∷ rest) =
      elim (drop_while (λ s. lt (sub s.daemon_sec r.daemon_sec) short_sec) rest) [
        | [] ↦ []
        | s ∷ later ↦ slope_between r s ∷ short_slopes left (s ∷ later)
      ]

  unfoldable pub deviation_of : D → List (SlewReading D) → D
  deviation_of short_rate hist =
      let slopes = short_slopes (length hist) hist in
      let usual = get_or (sort_by lt slopes) (length slopes / 2) (lit 0 0) in
      if leb 5 (length slopes)
      then mul (abs (sub short_rate usual)) (lit 1_000_000 0)
      else dmax (lit 0 0) (sub (mul (abs short_rate) (lit 1_000_000 0)) (lit 50 0))

  -- `kMaxDeviationPpm`.
  abbrev pub max_deviation_ppm : D
  max_deviation_ppm = lit 20 0

  -- A deviation that was measured, and since when it is calm.
  unfoldable pub note_deviation : HostSlewGuard D → D → D → HostSlewGuard D
  note_deviation g deviation daemon_sec = record g {
    deviation_ppm = deviation;
    calm_since =
        if lt max_deviation_ppm deviation
        then neg (lit 1 0)
        else if lt g.calm_since (lit 0 0)
        then daemon_sec
        else g.calm_since;
  }

  -- Too little of the last span: nothing is measured.
  unfoldable pub note_nothing : D → HostSlewGuard D → HostSlewGuard D
  note_nothing nan g = record g { deviation_ppm = nan; calm_since = neg (lit 1 0) }

  unfoldable pub push_reading : HostSlewGuard D → SlewReading D → HostSlewGuard D
  push_reading g r = record g { hist = drop_readings r.daemon_sec (g.hist ++ (r ∷ [])) }

  unfoldable pub measure : D → HostSlewGuard D → SlewReading D → HostSlewGuard D
  measure nan g now = elim (oldest_short now.daemon_sec g.hist) [
    | none ↦ note_nothing nan g
    | some from ↦
        (if lt (sub now.daemon_sec from.daemon_sec) (mul (lit 5 1) short_sec)
          then note_nothing nan g
          else note_deviation g (deviation_of (slope_between from now) g.hist) now.daemon_sec)
  ]

  -- `sample`.
  unfoldable pub sample_slew : D → HostSlewGuard D → SlewReading D → HostSlewGuard D
  sample_slew nan g now =
      if is_too_soon g.hist now.daemon_sec then g else measure nan (push_reading g now) now

  -- `steady`.
  unfoldable pub steadiness : (D → Bool) → HostSlewGuard D → D → Steadiness
  steadiness is_nan g daemon_sec =
      if is_nan g.deviation_ppm
      then measuring
      else if lt g.calm_since (lit 0 0)
      then slewed
      else if lt (sub daemon_sec g.calm_since) (lit 13 0)
      then only_just
      else steady

  unfoldable pub sample_all : D → HostSlewGuard D → List (SlewReading D) → HostSlewGuard D
  sample_all nan g [] = g
  sample_all nan g (r ∷ rs) = sample_all nan (sample_slew nan g r) rs
