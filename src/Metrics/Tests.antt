-- ===== src/Metrics/Tests.antt =====
-- The history at a few samples and changes, in millionths.
use ubersdr_ntp.Prelude.{ℕ, ◌≡◌, refl, true, List, [], ◌∷◌, arith, map, length}
use ubersdr_ntp.Prelude.Int.{◌*ℤ◌, ◌/ℤ◌}
use ubersdr_ntp.Prelude.Micros.{Micros, micros}
use ubersdr_ntp.Prelude.Dict.{eq_key, lookup, insert, Key}
use ubersdr_ntp.Metrics.{
  MetricSeriesInfo, Series, Span, new_history, add_to_tier, add_at, add_sample, drop_unreached,
  set_state, since, max_changes, max_series, after, points,
}
use ubersdr_ntp.Metrics.Bounds.{Sample, WellFormed, add_all, add_all-WellFormed}
use ubersdr_ntp.Metrics.Timeline.{IsTimeline}

methods : Unit {0}
unfolding ◌*ℤ◌ ◌/ℤ◌ eq_key lookup insert add_to_tier add_at add_sample drop_unreached set_state
    since max_changes max_series after points
methods = tt

abbrev sec : ℕ → Micros
sec n = micros.decimal n 0

abbrev info : ℕ → MetricSeriesInfo
info n = record { id = n ∷ []; label = []; unit = []; group = []; source = [] }

abbrev samples : List (Sample Micros)
samples = (info 1, (sec 30, sec 5)) ∷ (info 2, (sec 40, sec 6)) ∷ (info 1, (sec 70, sec 7)) ∷ []

two_points :
    map
      (λ (e : Series Micros). length (points e.hour (sec 80)))
      (add_all (λ a. true) new_history samples).series
    ≡ 2 ∷ 1 ∷ []
unfolding methods
two_points = refl

add_all-WellFormed_example : WellFormed (add_all (λ a. true) new_history samples)
add_all-WellFormed_example = add_all-WellFormed (λ a. true) samples

abbrev primary : Key
primary = 80 ∷ []

abbrev secondary : Key
secondary = 83 ∷ []

abbrev timeline : List (Span Micros)
timeline =
    record { start = sec 10; state = primary } ∷ record { start = sec 20; state = secondary } ∷ []

timeline-IsTimeline : IsTimeline timeline
unfolding max_changes eq_key
timeline-IsTimeline = record { bounded = omega arith; alternates = (refl, tt) }

-- A change that the clock puts before the last is stamped at the last.
stamped_at_last :
    map (λ (s : Span Micros). s.start) (since (sec 15) (set_state timeline (sec 15) primary))
    ≡ sec 10 ∷ sec 20 ∷ sec 20 ∷ []
unfolding methods
stamped_at_last = refl
