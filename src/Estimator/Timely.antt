-- ===== src/Estimator/Timely.antt =====
-- src/OffsetEstimator.cpp: what a held level is, and how long one is held.
use ubersdr_ntp.Prelude.{
  ◌≤◌, ◌<◌, ◌≡◌, [], ◌∷◌, map, ◌⊎◌, inl, inr, sym, subst, ◌∙◌, true, false, List, length, arith,
}
use ubersdr_ntp.Prelude.Double.{Double, add, sub, mul, lt, le, lit, dmax}
use ubersdr_ntp.Estimator.{median, no_hold, OffsetEstimate, JitterRecord, SpikeHold}
use ubersdr_ntp.Estimator.Hold.{
  Limits, max_calm_age_sec, record_jitter, limits_of, slew_gap, is_spike_at, watch, watch_if_free,
  note_calm, is_expired, held_level, release, keep_or_release, publish, note_hold, prepare_hold,
  hold_through_spikes,
}

module _ {D : Type 0} ⦃f : Double D⦄ where
  -- The parts of the state that a level is held from are those of before.
  pub record SameCalm (h h' : SpikeHold D) : Type 0 where
    pub holding_is : h'.holding ≡ h.holding
    pub start_is : h'.hold_start ≡ h.hold_start
    pub have_is : h'.have_calm ≡ h.have_calm
    pub calm_at_is : h'.calm_at ≡ h.calm_at
    pub calm_offset_is : h'.calm_offset ≡ h.calm_offset

  prepare_hold-SameCalm :
      (copysign : D → D → D) (h : SpikeHold D) (e : OffsetEstimate D)
      → SameCalm h (prepare_hold copysign h e)
  unfolding prepare_hold record_jitter slew_gap
  prepare_hold-SameCalm copysign h e = ground arith

  -- The limit that a list of records gives: five times their median, and 100 us at least.
  abbrev pub jitter_limit : List (JitterRecord D) → D
  jitter_limit js =
      dmax (lit 100 6) (mul (lit 5 0) (median (map (λ (j : JitterRecord D). j.jitter) js)))

  limits_of-armed :
      (h : SpikeHold D)
      → (limits_of h).armed ≡ true
      → (60 ≤ length h.jitter_history) × ((limits_of h).threshold ≡ jitter_limit h.jitter_history)
  unfolding limits_of
  limits_of-armed h armed = ground arith

  limits_of-calm :
      (h : SpikeHold D) (jitter : D)
      → ((limits_of h).armed ≡ false) ⊎ (le jitter (limits_of h).calm ≡ true)
      → (length h.jitter_history < 60)
        ⊎ (le jitter (mul (lit 5 1) (jitter_limit h.jitter_history)) ≡ true)
  unfolding limits_of
  limits_of-calm h jitter calm = ground (arith, calm)

  publish-IsHeld :
      (h : SpikeHold D) (l : Limits D) (e : OffsetEstimate D) (published : D)
      → let x = publish (watch_if_free h l e.at_sec e.jitter_sec published) l e published in
        x.0.holding ≡ true
        → (x.1.offset_sec ≡ held_level x.0 e)
          × (is_expired x.0 e.at_sec ≡ false)
          × (x.0.calm_at ≡ h.calm_at)
          × (x.0.calm_offset ≡ h.calm_offset)
          × (x.0.have_calm ≡ h.have_calm)
          × (((h.holding ≡ true) × (x.0.hold_start ≡ h.hold_start))
              ⊎ ((h.holding ≡ false)
                  × (is_spike_at h l e.at_sec e.jitter_sec ≡ true)
                  × (x.0.hold_start ≡ e.at_sec)))
  unfolding publish watch_if_free watch keep_or_release note_calm release
  publish-IsHeld h l e published held = ground arith

  -- What a calm level is noted from, and that it is what was published then.
  publish-calm :
      (h : SpikeHold D) (l : Limits D) (e : OffsetEstimate D) (published : D)
      → let x = publish (watch_if_free h l e.at_sec e.jitter_sec published) l e published in
        x.0.have_calm ≡ true
        → ((h.have_calm ≡ true) × (x.0.calm_at ≡ h.calm_at) × (x.0.calm_offset ≡ h.calm_offset))
          ⊎ ((h.holding ≡ false)
              × ((l.armed ≡ false) ⊎ (le e.jitter_sec l.calm ≡ true))
              × (x.0.calm_at ≡ e.at_sec)
              × (x.0.calm_offset ≡ x.1.offset_sec))
  unfolding publish watch_if_free watch keep_or_release note_calm release
  publish-calm h l e published have = ground arith

  is_spike_at_parts :
      (h : SpikeHold D) (l : Limits D) (at jitter : D)
      → is_spike_at h l at jitter ≡ true
      → (l.armed ≡ true)
        × (h.have_calm ≡ true)
        × (lt l.threshold jitter ≡ true)
        × (le (sub at h.calm_at) max_calm_age_sec ≡ true)
  is_spike_at_parts h l at jitter spike = ground arith

module _ {D : Type 0} ⦃f : Double D⦄ (copysign : D → D → D) where
  -- The state after a log of estimates, the newest first, from no hold on.
  unfoldable pub hold_log : List (OffsetEstimate D) → SpikeHold D
  hold_log [] = no_hold
  hold_log (e ∷ log) = (hold_through_spikes copysign (hold_log log) e).0

  abbrev pub records_at : List (OffsetEstimate D) → OffsetEstimate D → List (JitterRecord D)
  records_at log e = (prepare_hold copysign (hold_log log) e).jitter_history

  -- An estimate outside a hold that is calm: of a jitter that is at most half of the limit that the
  -- records of the jitter give, or too early for one, with fewer than 60 records.
  abbrev pub IsCalmAt : List (OffsetEstimate D) → OffsetEstimate D → Type 0
  IsCalmAt log c =
      ((hold_log log).holding ≡ false)
      × ((length (records_at log c) < 60)
          ⊎ (le c.jitter_sec (mul (lit 5 1) (jitter_limit (records_at log c))) ≡ true))

  -- Some estimate of a log is calm, at a time and with a level that was published for it.
  abbrev pub CalmSeen : List (OffsetEstimate D) → D → D → Type 0
  CalmSeen [] at level = ⊥
  CalmSeen (c ∷ log) at level =
      (IsCalmAt log c
        × (at ≡ c.at_sec)
        × (level ≡ (hold_through_spikes copysign (hold_log log) c).1.offset_sec))
      ⊎ CalmSeen log at level

  -- An estimate outside a hold that is a spike: there are 60 records of the jitter, and its own is past
  -- the limit that they give, at most 300 s after a calm one.
  abbrev pub IsSpikeAt : List (OffsetEstimate D) → D → OffsetEstimate D → Type 0
  IsSpikeAt log calm_at s =
      ((hold_log log).holding ≡ false)
      × (60 ≤ length (records_at log s))
      × (lt (jitter_limit (records_at log s)) s.jitter_sec ≡ true)
      × (le (sub s.at_sec calm_at) (lit 300 0) ≡ true)

  abbrev pub SpikeSeen : List (OffsetEstimate D) → D → D → Type 0
  SpikeSeen [] calm_at start = ⊥
  SpikeSeen (s ∷ log) calm_at start =
      (IsSpikeAt log calm_at s × (start ≡ s.at_sec)) ⊎ SpikeSeen log calm_at start

  -- A level held at an estimate after a log.
  pub record IsHeld (log : List (OffsetEstimate D)) (e e' : OffsetEstimate D) : Type 0 where
    pub calm_at : D
    pub calm_level : D
    pub start : D
    pub calm_seen : CalmSeen log calm_at calm_level
    pub level_is : e'.offset_sec ≡ add calm_level (mul e.rate (sub e.at_sec calm_at))
    pub spike_seen : SpikeSeen (e ∷ log) calm_at start
    pub in_time : le (lit 600 0) (sub e.at_sec start) ≡ false

  record Traced (log : List (OffsetEstimate D)) (h : SpikeHold D) : Type 0 where
    calm_traced : h.have_calm ≡ true → CalmSeen log h.calm_at h.calm_offset
    hold_traced : h.holding ≡ true → (h.have_calm ≡ true) × SpikeSeen log h.calm_at h.hold_start

  CalmSeen-eq :
      (log : List (OffsetEstimate D)) (at at' level level' : D)
      → at' ≡ at
      → level' ≡ level
      → CalmSeen log at level
      → CalmSeen log at' level'
  CalmSeen-eq log at at' level level' e k seen =
      subst (λ t. CalmSeen log t level') (sym e) (subst (CalmSeen log at) (sym k) seen)

  SpikeSeen-eq :
      (log : List (OffsetEstimate D)) (at at' start start' : D)
      → at' ≡ at
      → start' ≡ start
      → SpikeSeen log at start
      → SpikeSeen log at' start'
  SpikeSeen-eq log at at' start start' e k seen =
      subst (λ t. SpikeSeen log t start') (sym e) (subst (SpikeSeen log at) (sym k) seen)

  -- What is held after one more estimate, from what was after those before.
  held_seen :
      (log : List (OffsetEstimate D)) (e : OffsetEstimate D)
      → Traced log (hold_log log)
      → let x = hold_through_spikes copysign (hold_log log) e in
        x.0.holding ≡ true
        → (x.0.have_calm ≡ true)
          × SpikeSeen (e ∷ log) x.0.calm_at x.0.hold_start
          × CalmSeen log x.0.calm_at x.0.calm_offset
  unfolding hold_through_spikes
  held_seen log e t held =
      let ready = prepare_hold copysign (hold_log log) e in
      let l = limits_of ready in
      let published = add e.offset_sec ready.gap in
      let x = publish (watch_if_free ready l e.at_sec e.jitter_sec published) l e published in
      let same = prepare_hold-SameCalm copysign (hold_log log) e in
      let p = publish-IsHeld ready l e published held in
      let at = p.2 ∙ same.calm_at_is in
      let level = p.3 ∙ same.calm_offset_is in
      elim p.5 [
        | inl (going, start) ↦
            let old = t.hold_traced (sym same.holding_is ∙ going) in
            (
              p.4 ∙ same.have_is ∙ old.0,
              inr (
                  SpikeSeen-eq log _ x.0.calm_at _ x.0.hold_start at (start ∙ same.start_is) old.1),
              CalmSeen-eq log _ x.0.calm_at _ x.0.calm_offset at level (t.calm_traced old.0),
            )
        | inr (free, spike, start) ↦
            let parts = is_spike_at_parts ready l e.at_sec e.jitter_sec spike in
            let armed = limits_of-armed ready parts.0 in
            (
              p.4 ∙ parts.1,
              inl (
                (
                  sym same.holding_is ∙ free,
                  armed.0,
                  subst (λ limit. lt limit e.jitter_sec ≡ true) armed.1 parts.2,
                  subst (λ s. le (sub e.at_sec s) max_calm_age_sec ≡ true) (sym p.2) parts.3,
                ),
                start,
              ),
              CalmSeen-eq log _ x.0.calm_at _ x.0.calm_offset at level
                  (t.calm_traced (sym same.have_is ∙ parts.1)),
            )
      ]

  step-Traced :
      (log : List (OffsetEstimate D)) (e : OffsetEstimate D)
      → Traced log (hold_log log)
      → Traced (e ∷ log) (hold_through_spikes copysign (hold_log log) e).0
  unfolding hold_through_spikes note_hold
  step-Traced log e t =
      let ready = prepare_hold copysign (hold_log log) e in
      let l = limits_of ready in
      let published = add e.offset_sec ready.gap in
      let x = publish (watch_if_free ready l e.at_sec e.jitter_sec published) l e published in
      let same = prepare_hold-SameCalm copysign (hold_log log) e in
      record {
        calm_traced = λ have. elim (publish-calm ready l e published have) [
          | inl (had, at, level) ↦ inr (
              CalmSeen-eq log _ x.0.calm_at _ x.0.calm_offset (at ∙ same.calm_at_is)
                (level ∙ same.calm_offset_is) (t.calm_traced (sym same.have_is ∙ had)))
          | inr (free, calm, at, level) ↦
              inl ((sym same.holding_is ∙ free, limits_of-calm ready e.jitter_sec calm), at, level)
        ];
        hold_traced = λ held. let seen = held_seen log e t held in (seen.0, seen.1);
      }

  hold_log-Traced : (log : List (OffsetEstimate D)) → Traced log (hold_log log)
  unfolding hold_log
  hold_log-Traced [] = record { calm_traced = λ h. cc; hold_traced = λ h. cc }
  hold_log-Traced (e ∷ log) = step-Traced log e (hold_log-Traced log)

  held_level_lem :
      (log : List (OffsetEstimate D)) (e : OffsetEstimate D)
      → let x = hold_through_spikes copysign (hold_log log) e in
        x.1.held ≡ true
        → (x.0.holding ≡ true)
          × (x.1.offset_sec ≡ add x.0.calm_offset (mul e.rate (sub e.at_sec x.0.calm_at)))
          × (le (lit 600 0) (sub e.at_sec x.0.hold_start) ≡ false)
  unfolding hold_through_spikes note_hold
  held_level_lem log e held =
      let ready = prepare_hold copysign (hold_log log) e in
      let l = limits_of ready in
      let p = publish-IsHeld ready l e (add e.offset_sec ready.gap) held in (held, p.0, p.1)

  -- Where `holdThroughSpikes` leaves a level held, after any estimates since there was no hold: the
  -- level is one that was published for a calm estimate before, carried at the rate to the newest
  -- sample; calm is a jitter of at most half the limit, or any while there are fewer than 60 records of
  -- it. And the hold began less than 600 s ago, this estimate included, at a spike: outside a hold, at
  -- most 300 s after that calm one, a jitter past the limit, which is five times the median of at least
  -- 60 records and at least 100 us.
  pub hold_through_spikes-IsHeld :
      (log : List (OffsetEstimate D)) (e : OffsetEstimate D)
      → let x = hold_through_spikes copysign (hold_log log) e in x.1.held ≡ true → IsHeld log e x.1
  hold_through_spikes-IsHeld log e held =
      let x = hold_through_spikes copysign (hold_log log) e in
      let now = held_level_lem log e held in
      let seen = held_seen log e (hold_log-Traced log) now.0 in
      record {
        calm_at = x.0.calm_at;
        calm_level = x.0.calm_offset;
        start = x.0.hold_start;
        calm_seen = seen.2;
        level_is = now.1;
        spike_seen = seen.1;
        in_time = now.2;
      }
