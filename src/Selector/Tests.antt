-- ===== src/Selector/Tests.antt =====
-- Passes of the selector over two radio sources that agree and one that does not, in millionths.
use ubersdr_ntp.Prelude.{Bool, ◌≡◌, ◌⊎◌, ◌<◌, refl, true, false, List, [], ◌∷◌, length, All}
use ubersdr_ntp.Prelude.Int.{pos, ◌+ℤ◌, ◌-ℤ◌, ◌*ℤ◌, ◌/ℤ◌, ◌%ℤ◌}
use ubersdr_ntp.Prelude.Micros.{Micros, micros}
use ubersdr_ntp.Prelude.Double.{le}
use ubersdr_ntp.Prelude.Sort.{insert_sorted, sort_by}
use ubersdr_ntp.Prelude.Dict.{eq_key, lookup, insert, erase_if}
use ubersdr_ntp.Selector.{Candidate}
use ubersdr_ntp.Selector.Sample.{libm, source, clock, sel, now, snaps}
use ubersdr_ntp.Selector.{
  eligibility, candidate_of, gather_one, gather, is_secondary_configured, median_offset,
}
use ubersdr_ntp.Selector.Residuals.{
  has_name, find_residual, find_reacquire, drop_refused, average, settle, residual_of,
  reacquire_wait, note_refused, note_residual, judge_one, judge_all, judge_class, judge_classes,
  class_delta_state, compare_classes,
}
use ubersdr_ntp.Selector.Standby.{
  since, is_usable, note_primary, leave_primary, leave_secondary, wants_secondary, decide,
  serving_candidates, standby_reasons,
}
use ubersdr_ntp.Selector.Answer.{
  less_key, refid_for, any_radio, lowest_from, stratum_of, any_primary, any_secondary, serving_of,
  all_leap_pending, path_half, weigh, sum_weights, spread_from, mean_of, average_of, newest_from,
  rate_sums, rate_bound_from, rate_spread_from, rate_of, tightest_from, radios, by_station,
  heaviest_from, station_of, radio_reference, upstream_reference, reference_of,
}
use ubersdr_ntp.Selector.Pass.{
  current, min_to_serve, serve, coast, never_served, fall_back, answer_from, prepare, combine,
}
use ubersdr_ntp.Selector.Agree.{
  best_from, regions_from, pick_from, pick_region, edges_of, edge_less, sorted_edges, best_of,
  regions_of, in_region, away, score_from, pick_of, in_any_region, keep_agreeing, agree,
}
use ubersdr_ntp.Selector.Combined.{new_selector, utc_at}
use ubersdr_ntp.Selector.Refusals.{NotUsed}
use ubersdr_ntp.Selector.Regions.{pick_of-lt-length}
use ubersdr_ntp.Selector.Takeover.{
  Look, Since, look, looks, start, decide-fails_over, decide-fails_back,
}
use ubersdr_ntp.Selector.Strata.{Pass, run_passes}
use ubersdr_ntp.Selector.Serves.{Fresh, Coasts, combine-NotUsed, combine-synchronised}

methods : Unit {0}
unfolding ◌+ℤ◌ ◌-ℤ◌ ◌*ℤ◌ ◌/ℤ◌ ◌%ℤ◌ eq_key lookup insert erase_if insert_sorted sort_by eligibility
    candidate_of gather_one gather is_secondary_configured median_offset has_name find_residual
    find_reacquire drop_refused average settle residual_of reacquire_wait note_refused note_residual
    judge_one judge_all judge_class judge_classes class_delta_state compare_classes is_usable
    note_primary leave_primary leave_secondary wants_secondary decide serving_candidates
    standby_reasons less_key refid_for any_radio lowest_from stratum_of any_primary any_secondary
    serving_of all_leap_pending path_half weigh sum_weights spread_from mean_of average_of
    newest_from rate_sums rate_bound_from rate_spread_from rate_of tightest_from radios by_station
    heaviest_from station_of radio_reference upstream_reference reference_of min_to_serve serve
    coast never_served fall_back answer_from prepare combine best_from regions_from pick_from
    pick_region edges_of edge_less sorted_edges best_of regions_of in_region away score_from pick_of
    in_any_region keep_agreeing agree new_selector utc_at
methods = tt

pass : (combine libm (pos 0) now sel snaps).1.used_names ≡ (1 ∷ []) ∷ (2 ∷ []) ∷ []
unfolding methods
pass = refl

-- With the sources gone a minute later, the time is carried on; four hours later it is not vouched for.
coasts_on :
    (combine libm
      (pos 0)
      (pos 1_061_000_000)
      (combine libm (pos 0) now sel snaps).0
      []).1.synchronised
    ≡ true
unfolding methods
coasts_on = refl

past_limit :
    (combine libm
      (pos 0)
      (pos 15_401_000_000)
      (combine libm (pos 0) now sel snaps).0
      []).1.synchronised
    ≡ false
unfolding methods
past_limit = refl

combine-NotUsed_example :
    All
      (NotUsed (combine libm (pos 0) now sel snaps).1.used_names)
      (combine libm (pos 0) now sel snaps).1.residuals
combine-NotUsed_example = combine-NotUsed libm (pos 0) now sel snaps

synchronised : (combine libm (pos 0) now sel snaps).1.synchronised ≡ true
unfolding methods
synchronised = refl

combine-synchronised_example :
    ((combine libm (pos 0) now sel snaps).1.valid ≡ true)
    × (Fresh libm
          (pos 0)
          now
          sel
          (prepare libm now sel snaps)
          (combine libm (pos 0) now sel snaps).1
        ⊎ Coasts libm (pos 0) now sel (combine libm (pos 0) now sel snaps).1)
combine-synchronised_example = combine-synchronised libm (pos 0) now sel snaps synchronised

abbrev candidate : Candidate Micros
candidate = candidate_of (pos 1_000_000) now (source 1 (pos 500))

abbrev other_candidate : Candidate Micros
other_candidate = candidate_of (pos 1_000_000) now (source 3 (pos 50_000))

pick_of-lt-length_example :
    pick_of sel.last_good (candidate ∷ other_candidate ∷ []) now
    < length (regions_of (candidate ∷ other_candidate ∷ []))
pick_of-lt-length_example = pick_of-lt-length sel.last_good candidate (other_candidate ∷ []) now

abbrev seen : Bool → Micros → Look Micros
seen usable at = record {
  primary_usable = usable;
  secondary_usable = true;
  secondary_configured = true;
  now = at;
}

abbrev losing : List (Look Micros)
losing = seen true (pos 1_000_000) ∷ seen false (pos 2_000_000) ∷ []

abbrev lost : List (Look Micros)
lost = seen false (pos 2_000_000) ∷ seen false (pos 302_000_000) ∷ seen true (pos 310_000_000) ∷ []

not_yet : (looks clock (start clock true) losing).0.on_secondary ≡ false
unfolding methods
not_yet = refl

fails_over :
    (look clock
      (looks clock (start clock true) losing).0
      (seen false (pos 302_000_000))).on_secondary
    ≡ true
unfolding methods
fails_over = refl

decide-fails_over_example :
    let s = looks clock (start clock true) losing in
    let p = seen false (pos 302_000_000) in
    (serving_candidates clock s.0 (candidate ∷ []) (other_candidate ∷ []) ≡ candidate ∷ [])
    × (serving_candidates clock (look clock s.0 p) (candidate ∷ []) (other_candidate ∷ [])
        ≡ other_candidate ∷ [])
    × (true ≡ true)
    × ((first : Micros) × Since false first
          (seen false (pos 302_000_000) ∷ (looks clock (start clock true) losing).1)
        × (le clock.failover_after_sec (since first (pos 302_000_000)) ≡ true))
decide-fails_over_example =
    decide-fails_over clock refl true losing (seen false (pos 302_000_000)) (candidate ∷ [])
      (other_candidate ∷ []) refl not_yet fails_over

on_secondary : (looks clock (start clock true) lost).0.on_secondary ≡ true
unfolding methods
on_secondary = refl

fails_back :
    (look clock (looks clock (start clock true) lost).0 (seen true (pos 910_000_000))).on_secondary
    ≡ false
unfolding methods
fails_back = refl

decide-fails_back_example :
    (first : Micros) × Since true first
      (seen true (pos 910_000_000) ∷ (looks clock (start clock true) lost).1)
    × (le clock.failback_after_sec (since first (pos 910_000_000)) ≡ true)
decide-fails_back_example =
    decide-fails_back clock refl true lost (seen true (pos 910_000_000)) refl on_secondary
      fails_back

abbrev passes : List (Pass Micros)
passes =
    record { host = pos 0; now = now; snaps = snaps }
    ∷ record { host = pos 0; now = pos 1_061_000_000; snaps = [] }
    ∷ []

still_synchronised :
    (current (
      run_passes libm
        (new_selector (pos 3_600_000_000) (pos 1_000_000) (pos 1) clock)
        passes)).synchronised
    ≡ true
unfolding methods
still_synchronised = refl
