-- ===== src/Selector/Pass.antt =====
-- src/Selector.cpp: a pass of the selector, from the snapshots to the time served. The lock is left out,
-- and `host` is what `daemonMinusRealtime` reads in the pass.
use ubersdr_ntp.Prelude.{Bool, true, false, not, ◌&&◌, List, [], ◌∷◌, map, length, if◌then◌else◌}
use ubersdr_ntp.Prelude.Int.{ℤ, pos, leb_ℤ}
use ubersdr_ntp.Prelude.Double.{Double, add, sub, mul, neg, le, lit}
use ubersdr_ntp.Prelude.Libm.{Libm}
use ubersdr_ntp.Selector.{
  SourceSnapshot, Candidate, too_few, gather, is_empty, is_secondary_configured,
}
use ubersdr_ntp.Selector.Combined.{
  ServingClass, nothing, secondary, coasting, failed_over, coasting_no_lock, coasting_no_agreement,
  past_coast_limit, no_timestamp_yet, no_agreement, Combined, new_combined, LastGood, Selector,
  is_always,
}
use ubersdr_ntp.Selector.Residuals.{judge_classes, drop_refused, compare_classes}
use ubersdr_ntp.Selector.Standby.{
  is_usable, decide, serving_candidates, standby_reasons, give_reason,
}
use ubersdr_ntp.Selector.Agree.{agree}
use ubersdr_ntp.Selector.Answer.{
  average_of, rate_of, reference_of, newest_from, stratum_of, serving_of, all_leap_pending,
  any_primary, other_kind,
}

-- What a pass hands to its last part: the candidates that serve, those that agree, and the result and
-- the state so far.
pub record Prepared (D : Type 0) : Type 0 where
  pub selector : Selector D
  pub combined : Combined D
  pub cand : List (Candidate D)
  pub survivors : List (Candidate D)

abbrev pub is_secondary : ServingClass → Bool
is_secondary nothing = false
is_secondary ServingClass.primary = false
is_secondary secondary = true
is_secondary ServingClass.both = false
is_secondary coasting = false

module _ {D : Type 0} ⦃f : Double D⦄ where
  -- `minToServe`.
  unfoldable pub min_to_serve : Selector D → List (Candidate D) → ℤ
  min_to_serve sel cand =
      if any_primary cand then sel.min_sources else sel.clock.min_secondary_sources

  unfoldable pub serve :
      Libm D → D → D → Selector D → Combined D → Candidate D → List (Candidate D) → Combined D
  serve libm host now sel c k ks =
      let survivors = k ∷ ks in
      let a = average_of k ks in
      let r = rate_of libm survivors in
      let ref = reference_of a k ks in
      let serving = serving_of survivors in
      record c {
        valid = true;
        synchronised = true;
        offset_sec = a.offset;
        at_sec = now;
        rate_measured = r.measured;
        rate = r.rate;
        rate_uncertainty = r.uncertainty;
        host_offset_sec = add a.offset host;
        dispersion_sec = a.dispersion;
        age_sec = newest_from (lit 1_000_000_000 0) survivors;
        used = length survivors;
        used_names = map (λ (j : Candidate D). j.s.name) survivors;
        stratum = stratum_of survivors;
        refid = ref.refid;
        refid_is_address = ref.is_address;
        refid_address = ref.address;
        root_delay_sec = ref.root_delay_sec;
        root_dispersion_sec = ref.root_dispersion_sec;
        serving = serving;
        serving_note =
            if is_secondary serving && not (is_always sel.clock.secondary)
            then failed_over (other_kind sel.clock.primary)
            else c.serving_note;
        leap_pending = all_leap_pending survivors;
      }

  abbrev pub remember : D → Combined D → LastGood D
  remember now c = record {
    have_last = true;
    offset = c.offset_sec;
    rate = c.rate;
    rate_uncertainty = c.rate_uncertainty;
    rate_measured = c.rate_measured;
    dispersion = c.dispersion_sec;
    root_dispersion = c.root_dispersion_sec;
    at = now;
    measured_at = sub now c.age_sec;
  }

  -- The last good time, carried on along its rate, for as long as the coast limit allows.
  unfoldable pub coast : D → D → Selector D → Combined D → Bool → Combined D
  coast host now sel c no_candidates =
      let good = sel.last_good in
      let age = sub now good.at in
      let growth = mul age (add (mul sel.coast_drift_ppm (lit 1 6)) good.rate_uncertainty) in
      let offset = add good.offset (mul good.rate age) in
      let fresh = le age sel.coast_seconds in
      record c {
        valid = true;
        offset_sec = offset;
        at_sec = now;
        rate = good.rate;
        rate_uncertainty = good.rate_uncertainty;
        rate_measured = good.rate_measured;
        host_offset_sec = add offset host;
        dispersion_sec = add good.dispersion growth;
        root_dispersion_sec = add good.root_dispersion growth;
        age_sec = sub now good.measured_at;
        refid = sel.last.refid;
        refid_is_address = sel.last.refid_is_address;
        refid_address = sel.last.refid_address;
        stratum = sel.last.stratum;
        root_delay_sec = sel.last.root_delay_sec;
        serving = coasting;
        synchronised = fresh;
        note =
            if fresh
            then if no_candidates
              then coasting_no_lock c.failover_in_sec
              else coasting_no_agreement c.failover_in_sec
            else past_coast_limit;
      }

  unfoldable pub never_served : D → D → Combined D → Bool → Combined D
  never_served host now c no_candidates = record c {
    valid = false;
    synchronised = false;
    offset_sec = neg host;
    at_sec = now;
    note = if no_candidates then no_timestamp_yet else no_agreement;
    serving = nothing;
    stratum = pos 16;
  }

  abbrev pub settle_result : Selector D → LastGood D → Combined D → Selector D × Combined D
  settle_result sel good c = (record sel { last_good = good; last = c }, c)

  -- The end of a pass with too few survivors.
  unfoldable pub fall_back : D → D → Prepared D → Selector D × Combined D
  fall_back host now p =
      let c = record p.combined {
        not_used_reasons =
            give_reason (too_few (length p.survivors) (min_to_serve p.selector p.cand)) p.survivors
              p.combined.not_used_reasons;
      } in
      settle_result p.selector p.selector.last_good (
        if p.selector.last_good.have_last
        then coast host now p.selector c (is_empty p.cand)
        else never_served host now c (is_empty p.cand))

  unfoldable pub answer_from :
      Libm D → D → D → Prepared D → List (Candidate D) → Selector D × Combined D
  answer_from libm host now p [] = fall_back host now p
  answer_from libm host now p (k ∷ ks) =
      let c = serve libm host now p.selector p.combined k ks in
      if leb_ℤ (min_to_serve p.selector p.cand) (pos (length (k ∷ ks)))
      then settle_result p.selector (remember now c) c
      else fall_back host now p

  -- The part of a pass that chooses: the state and the result as the agreement leaves them.
  unfoldable pub prepare : Libm D → D → Selector D → List (SourceSnapshot D) → Prepared D
  prepare libm now sel snaps =
      let g =
        gather sel.coast_drift_ppm now
          (record {
            primary_cand = [];
            secondary_cand = [];
            rejected_names = [];
            not_used_reasons = [];
          })
          snaps in
      let j =
        judge_classes libm now sel.residual_avg sel.reacquire g.primary_cand g.secondary_cand in
      let kept1 =
        drop_refused j.refused j.why
          (record {
            cand = [];
            rejected_names = g.rejected_names;
            not_used_reasons = g.not_used_reasons;
          })
          g.primary_cand in
      let kept2 = drop_refused j.refused j.why (record kept1 { cand = [] }) g.secondary_cand in
      let deltas = compare_classes libm sel.class_delta now kept1.cand kept2.cand in
      let st =
        decide sel.clock sel.failover (is_usable sel.min_sources kept1.cand)
          (is_usable sel.clock.min_secondary_sources kept2.cand) (is_secondary_configured snaps)
          now in
      let cand = serving_candidates sel.clock st.failover kept1.cand kept2.cand in
      let a =
        agree sel.last_good now
          (record {
            survivors = [];
            rejected_names = kept2.rejected_names;
            not_used_reasons =
                standby_reasons sel.clock st kept1.cand kept2.cand kept2.not_used_reasons;
          })
          cand in
      record {
        selector = record sel {
          reacquire = j.reacquire;
          residual_avg = j.avg;
          class_delta = deltas.0;
          failover = st.failover;
        };
        combined = record new_combined {
          class_delta = deltas.1;
          candidates = length cand;
          primary_candidates = length kept1.cand;
          secondary_candidates = length kept2.cand;
          failover_in_sec = st.failover_in_sec;
          failback_in_sec = st.failback_in_sec;
          serving_note = st.serving_note;
          rejected_names = a.rejected_names;
          not_used_reasons = a.not_used_reasons;
          reacquire_names = j.reacquire_names;
          residuals = j.residuals;
        };
        cand = cand;
        survivors = a.survivors;
      }

  unfoldable pub combine :
      Libm D → D → D → Selector D → List (SourceSnapshot D) → Selector D × Combined D
  combine libm host now sel snaps =
      let p = prepare libm now sel snaps in answer_from libm host now p p.survivors

  -- `current`.
  abbrev pub current : Selector D → Combined D
  current sel = sel.last
