-- ===== src/Selector/Standby.antt =====
-- src/Selector.cpp: which class serves, and whether the standby sources run.
use ubersdr_ntp.Prelude.{
  Bool, true, false, not, ◌&&◌, ◌||◌, List, [], ◌∷◌, ◌++◌, length, if◌then◌else◌,
}
use ubersdr_ntp.Prelude.Int.{ℤ, pos, leb_ℤ}
use ubersdr_ntp.Prelude.Double.{Double, sub, lt, le, lit, dmax}
use ubersdr_ntp.Prelude.Dict.{Key, insert}
use ubersdr_ntp.Selector.{
  ClockConfig, Candidate, Reason, standing_by, taking_back_in, recovering, is_empty,
}
use ubersdr_ntp.Selector.Combined.{Note, no_note, secondary_not_ready, Failover, is_cold, is_always}

-- A pass's decision: the state after it, and what it says of the wait.
pub record Standing (D : Type 0) : Type 0 where
  pub failover : Failover D
  pub failover_in_sec : D
  pub failback_in_sec : D
  pub serving_note : Note D

-- `primaryUsable` and `secondaryUsable`.
unfoldable pub is_usable : {D : Type 0} → ℤ → List (Candidate D) → Bool
is_usable min_sources cand = leb_ℤ min_sources (pos (length cand)) && not (is_empty cand)

module _ {D : Type 0} ⦃f : Double D⦄ where
  unfoldable pub note_primary : Failover D → Bool → D → Failover D
  note_primary fo usable now =
      if usable
      then record fo {
        primary_healthy_since =
            if le fo.primary_healthy_since (lit 0 0) then now else fo.primary_healthy_since;
        primary_lost_since = lit 0 0;
      }
      else record fo {
        primary_lost_since =
            if le fo.primary_lost_since (lit 0 0) then now else fo.primary_lost_since;
        primary_healthy_since = lit 0 0;
      }

  -- `lostFor` and `healthyFor`: 0 where the instant is not set.
  abbrev pub since : D → D → D
  since at now = if lt (lit 0 0) at then sub now at else lit 0 0

  abbrev pub stay : Failover D → Standing D
  stay fo = record {
    failover = fo;
    failover_in_sec = lit 0 0;
    failback_in_sec = lit 0 0;
    serving_note = no_note;
  }

  -- While the primary sources serve.
  unfoldable pub leave_primary : ClockConfig D → Failover D → Bool → Bool → Bool → D → Standing D
  leave_primary clock fo primary_usable secondary_usable secondary_configured now =
      let lost_for = since fo.primary_lost_since now in
      if not primary_usable && (secondary_usable && le clock.failover_after_sec lost_for)
      then stay (record fo { on_secondary = true })
      else if not primary_usable && (secondary_configured && le clock.failover_after_sec lost_for)
      then record (stay fo) { serving_note = secondary_not_ready }
      else if not primary_usable && secondary_configured
      then record (stay fo) {
        failover_in_sec = dmax (lit 0 0) (sub clock.failover_after_sec lost_for);
      }
      else stay fo

  -- While the secondary sources serve.
  unfoldable pub leave_secondary : ClockConfig D → Failover D → Bool → D → Standing D
  leave_secondary clock fo primary_usable now =
      let healthy_for = since fo.primary_healthy_since now in
      if primary_usable && le clock.failback_after_sec healthy_for
      then stay (record fo { on_secondary = false })
      else if primary_usable
      then record (stay fo) {
        failback_in_sec = dmax (lit 0 0) (sub clock.failback_after_sec healthy_for);
      }
      else stay fo

  -- Whether the standby is to run, in `cold` mode; it always does in the others.
  unfoldable pub wants_secondary : ClockConfig D → Failover D → Bool → D → Bool
  wants_secondary clock fo primary_usable now =
      not (is_cold clock.secondary)
      || (fo.on_secondary
          || (not primary_usable
              || fo.secondary_active
                && (lt (lit 0 0) fo.primary_healthy_since
                    && lt (since fo.primary_healthy_since now) clock.failback_after_sec)))

  abbrev pub activate : ClockConfig D → Bool → D → Standing D → Standing D
  activate clock primary_usable now st = record st {
    failover = record st.failover {
      secondary_active = wants_secondary clock st.failover primary_usable now;
    };
  }

  unfoldable pub decide : ClockConfig D → Failover D → Bool → Bool → Bool → D → Standing D
  decide clock fo0 primary_usable secondary_usable secondary_configured now =
      let fo = note_primary fo0 primary_usable now in
      if is_always clock.secondary
      then stay (record fo { on_secondary = false; secondary_active = true })
      else activate clock primary_usable now (
          if fo.on_secondary
          then leave_secondary clock fo primary_usable now
          else leave_primary clock fo primary_usable secondary_usable secondary_configured now)

  -- `cand`, of which the class that serves is the whole but in `always` mode.
  unfoldable pub serving_candidates :
      ClockConfig D → Failover D → List (Candidate D) → List (Candidate D) → List (Candidate D)
  serving_candidates clock fo primary_cand secondary_cand =
      if is_always clock.secondary
      then primary_cand ++ secondary_cand
      else if fo.on_secondary
      then secondary_cand
      else primary_cand

  abbrev pub give_reason :
      Reason D → List (Candidate D) → List (Key × Reason D) → List (Key × Reason D)
  give_reason why [] reasons = reasons
  give_reason why (k ∷ ks) reasons = give_reason why ks (insert k.s.name why reasons)

  -- The reasons of the class that stands by.
  unfoldable pub standby_reasons :
      ClockConfig D
      → Standing D
      → List (Candidate D)
      → List (Candidate D)
      → List (Key × Reason D)
      → List (Key × Reason D)
  standby_reasons clock st primary_cand secondary_cand reasons =
      if is_always clock.secondary
      then reasons
      else if st.failover.on_secondary
      then give_reason
          (if lt (lit 0 0) st.failback_in_sec
            then taking_back_in st.failback_in_sec
            else recovering)
          primary_cand reasons
      else give_reason (standing_by clock.primary) secondary_cand reasons
