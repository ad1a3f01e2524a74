-- ===== src/Clocks/Tests.antt =====
-- The clocks at work, in millionths.
use ubersdr_ntp.Prelude.{ℕ, zero, suc, ◌≡◌, refl, true, none, some, List, [], ◌∷◌, ◌++◌, length}
use ubersdr_ntp.Prelude.Int.{pos, ◌+ℤ◌, ◌-ℤ◌, ◌*ℤ◌, ◌/ℤ◌, ◌%ℤ◌}
use ubersdr_ntp.Prelude.Micros.{Micros, micros}
use ubersdr_ntp.Prelude.Sort.{insert_sorted, sort_by}
use ubersdr_ntp.Selector.Sample.{libm}
use ubersdr_ntp.Estimator.{drop_while}
use ubersdr_ntp.Clocks.Arrival.{ClockCall, arrival_seen, SampleClock}
use ubersdr_ntp.Clocks.Capture.{CaptureCall, mark_seen, CaptureClock}
use ubersdr_ntp.Clocks.Slew.{SlewReading, HostSlewGuard}
use ubersdr_ntp.Clocks.Plausible.{IsPlausible, clock_calls-IsPlausible}
use ubersdr_ntp.Clocks.Ordered.{IsAscending, capture_calls-IsAscending}
use ubersdr_ntp.Clocks.Arrival.{
  new_sample_clock, set_rate, reset_arrivals, sum_points, last_point, choose_slope, fit_arrivals,
  refit_clock, age_window, note_excess, start_bucket, keep_fastest, close_bucket, observe_arrival,
  arrival_time_at, clock_calls,
}
use ubersdr_ntp.Clocks.Capture.{
  new_capture_clock, set_capture_rate, reset_marks, last_mark, marks_before, drop_marks,
  observe_mark, nearer, nearest_from, nearest_mark, time_from, capture_time_at, marks_span,
  capture_calls,
}
use ubersdr_ntp.Clocks.Slew.{
  reset_guard, last_reading, is_too_soon, drop_readings, oldest_short, short_slopes, deviation_of,
  note_deviation, note_nothing, push_reading, measure, sample_slew, steadiness, sample_all,
}

methods : Unit {0}
unfolding ◌+ℤ◌ ◌-ℤ◌ ◌*ℤ◌ ◌/ℤ◌ ◌%ℤ◌ insert_sorted sort_by drop_while age_window arrival_time_at
    capture_calls capture_time_at choose_slope clock_calls close_bucket deviation_of drop_marks
    drop_readings fit_arrivals is_too_soon keep_fastest last_mark last_point last_reading
    marks_before marks_span measure nearer nearest_from nearest_mark new_capture_clock
    new_sample_clock note_deviation note_excess note_nothing observe_arrival observe_mark
    oldest_short push_reading refit_clock reset_arrivals reset_guard reset_marks sample_all
    sample_slew set_capture_rate set_rate short_slopes start_bucket steadiness sum_points time_from
methods = tt

abbrev sec : ℕ → Micros
sec n = micros.decimal n 0

-- Arrivals of a stream of 1000 samples a second, one a second.
abbrev arrivals : List (ClockCall Micros)
arrivals =
    arrival_seen (pos 1000) (sec 1)
    ∷ arrival_seen (pos 2000) (sec 2)
    ∷ arrival_seen (pos 3000) (sec 3)
    ∷ arrival_seen (pos 4000) (sec 4)
    ∷ []

abbrev clock : SampleClock Micros
clock = clock_calls libm (new_sample_clock (pos 1000) (sec 1) (sec 300)) arrivals

clock_fits : (clock.fit.valid ≡ true) × (clock.fit.sec_per_sample ≡ pos 1000)
unfolding methods
clock_fits = (refl, refl)

clock_calls-IsPlausible_example :
    IsPlausible (clock_calls libm (new_sample_clock (pos 1000) (sec 1) (sec 300)) arrivals)
clock_calls-IsPlausible_example = clock_calls-IsPlausible libm (pos 1000) (sec 1) (sec 300) arrivals

abbrev stamps : List (CaptureCall Micros)
stamps =
    mark_seen (pos 1000) (sec 1)
    ∷ mark_seen (pos 1500) (pos 1_500_000)
    ∷ mark_seen (pos 2000) (sec 2)
    ∷ []

abbrev capture : CaptureClock Micros
capture = capture_calls (new_capture_clock (pos 1000)) stamps

capture_near : capture_time_at capture (sec 1600) ≡ some (pos 1_600_000)
unfolding methods
capture_near = refl

capture_far : capture_time_at capture (sec 5000) ≡ none
unfolding methods
capture_far = refl

capture_restarts : length (capture_calls capture (mark_seen (pos 1500) (sec 9) ∷ [])).marks ≡ 1
unfolding methods
capture_restarts = refl

capture_calls-IsAscending_example :
    IsAscending (capture_calls (new_capture_clock (pos 1000)) stamps).marks
capture_calls-IsAscending_example = capture_calls-IsAscending (pos 1000) stamps

-- A reading a second of a host clock that is not slewed.
abbrev readings_to : ℕ → List (SlewReading Micros)
readings_to zero = []
readings_to (suc n) = readings_to n ++ (record { daemon_sec = sec (suc n); dmr = pos 5 } ∷ [])

abbrev guard : HostSlewGuard Micros
guard = sample_all (pos 0) (reset_guard (pos 0)) (readings_to 25)
