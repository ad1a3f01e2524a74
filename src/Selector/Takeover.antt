-- ===== src/Selector/Takeover.antt =====
-- src/Selector.cpp: the secondary sources take over, and hand back, only after the configured wait.
use ubersdr_ntp.Prelude.{
  ◌≡◌, ◌⊎◌, refl, sym, subst, ◌∙◌, inl, inr, Bool, true, false, List, [], ◌∷◌, if_lem, false-true,
  arith, if◌then◌else◌,
}
use ubersdr_ntp.Prelude.Double.{Double, le, lit}
use ubersdr_ntp.Selector.{ClockConfig, Candidate}
use ubersdr_ntp.Selector.Combined.{Failover, new_failover, is_always}
use ubersdr_ntp.Selector.Standby.{
  since, note_primary, leave_primary, leave_secondary, decide, serving_candidates,
}

-- What a pass finds of the classes, and when.
pub record Look (D : Type 0) : Type 0 where
  pub primary_usable : Bool
  pub secondary_usable : Bool
  pub secondary_configured : Bool
  pub now : D

-- Since `first`, the time of a pass, every pass has found the primary sources usable, or none has; the
-- newest pass stands first.
abbrev pub Since : {D : Type 0} → Bool → D → List (Look D) → Type 0
Since usable first [] = ⊥
Since usable first (p ∷ past) =
    (p.primary_usable ≡ usable) × ((first ≡ p.now) ⊎ Since usable first past)

module _ {D : Type 0} ⦃f : Double D⦄ (clock : ClockConfig D) where
  abbrev pub look : Failover D → Look D → Failover D
  look fo p =
      (decide clock fo p.primary_usable p.secondary_usable p.secondary_configured p.now).failover

  -- Passes from a new selector: its state, and the passes with the newest first.
  abbrev pub looks : Failover D × List (Look D) → List (Look D) → Failover D × List (Look D)
  looks s [] = s
  looks s (p ∷ ps) = looks (look s.0 p, p ∷ s.1) ps

  abbrev Instants : Failover D → List (Look D) → Type 0
  Instants fo past =
      ((fo.primary_lost_since ≡ lit 0 0) ⊎ Since false fo.primary_lost_since past)
      × ((fo.primary_healthy_since ≡ lit 0 0) ⊎ Since true fo.primary_healthy_since past)

  decide-instants :
      (fo : Failover D) (p : Look D)
      → ((look fo p).primary_lost_since
          ≡ (note_primary fo p.primary_usable p.now).primary_lost_since)
        × ((look fo p).primary_healthy_since
            ≡ (note_primary fo p.primary_usable p.now).primary_healthy_since)
  unfolding decide leave_primary leave_secondary
  decide-instants fo p = ground arith

  module _ (zero_le : le {D = D} (lit 0 0) (lit 0 0) ≡ true) where
    kept :
        (usable : Bool) (at now : D) (past : List (Look D)) (p : Look D)
        → p.primary_usable ≡ usable
        → p.now ≡ now
        → (at ≡ lit 0 0) ⊎ Since usable at past
        → Since usable (if le at (lit 0 0) then now else at) (p ∷ past)
    kept usable at now past p u n h =
        if_lem (λ first. Since usable first (p ∷ past)) (le at (lit 0 0)) now at
          (λ unset. (u, inl (sym n)))
          (λ set. (
            u,
            elim h [
              | inl z ↦ false-true (sym (subst (λ a. le a (lit 0 0) ≡ false) z set) ∙ zero_le)
              | inr run ↦ inr run
            ],
          ))

    note_primary-Instants :
        (fo : Failover D) (p : Look D) (past : List (Look D))
        → Instants fo past
        → Instants (note_primary fo p.primary_usable p.now) (p ∷ past)
    unfolding note_primary
    note_primary-Instants fo p past h =
        if_lem (λ (fo' : Failover D). Instants fo' (p ∷ past)) p.primary_usable _ _
          (λ e. (inl refl, inr (kept true fo.primary_healthy_since p.now past p e refl h.1)))
          (λ e. (inr (kept false fo.primary_lost_since p.now past p e refl h.0), inl refl))

    look-Instants :
        (fo : Failover D) (p : Look D) (past : List (Look D))
        → Instants fo past
        → Instants (look fo p) (p ∷ past)
    look-Instants fo p past h =
        let n = note_primary-Instants fo p past h in
        let d = decide-instants fo p in
        (
          subst (λ a. (a ≡ lit 0 0) ⊎ Since false a (p ∷ past)) (sym d.0) n.0,
          subst (λ a. (a ≡ lit 0 0) ⊎ Since true a (p ∷ past)) (sym d.1) n.1,
        )

    looks-Instants :
        (ps : List (Look D)) (fo : Failover D) (past : List (Look D))
        → Instants fo past
        → Instants (looks (fo, past) ps).0 (looks (fo, past) ps).1
    looks-Instants [] fo past h = h
    looks-Instants (p ∷ ps) fo past h =
        looks-Instants ps (look fo p) (p ∷ past) (look-Instants fo p past h)

  decide-on :
      (fo : Failover D) (p : Look D)
      → fo.on_secondary ≡ false
      → (look fo p).on_secondary ≡ true
      → (p.primary_usable ≡ false)
        × (p.secondary_usable ≡ true)
        × (le clock.failover_after_sec (since (look fo p).primary_lost_since p.now) ≡ true)
  unfolding decide leave_primary leave_secondary note_primary
  decide-on fo p h k = ground arith

  decide-off :
      (fo : Failover D) (p : Look D)
      → is_always clock.secondary ≡ false
      → fo.on_secondary ≡ true
      → (look fo p).on_secondary ≡ false
      → (p.primary_usable ≡ true)
        × (le clock.failback_after_sec (since (look fo p).primary_healthy_since p.now) ≡ true)
  unfolding decide leave_primary leave_secondary note_primary
  decide-off fo p a h k = ground arith

  note_primary-lost :
      (fo : Failover D) (p : Look D)
      → p.primary_usable ≡ false
      → (note_primary fo p.primary_usable p.now).primary_lost_since
        ≡ (if le fo.primary_lost_since (lit 0 0) then p.now else fo.primary_lost_since)
  unfolding note_primary
  note_primary-lost fo p e = simp e

  note_primary-healthy :
      (fo : Failover D) (p : Look D)
      → p.primary_usable ≡ true
      → (note_primary fo p.primary_usable p.now).primary_healthy_since
        ≡ (if le fo.primary_healthy_since (lit 0 0) then p.now else fo.primary_healthy_since)
  unfolding note_primary
  note_primary-healthy fo p e = simp e

  abbrev pub start : Bool → Failover D × List (Look D)
  start active = (new_failover active, [])

  module _ (zero_le : le {D = D} (lit 0 0) (lit 0 0) ≡ true) where
    start-Instants :
        (active : Bool) (ps : List (Look D))
        → Instants (looks (start active) ps).0 (looks (start active) ps).1
    start-Instants active ps =
        looks-Instants zero_le ps (new_failover active) [] (inl refl, inl refl)

    -- Where 0 compares as at most 0, and unless both classes always serve: after any passes of a new
    -- selector, if the secondary sources do not serve and the next pass lets them, then it is the primary
    -- candidates that serve before and the secondary ones after; the pass finds the secondary sources
    -- usable and the primary ones not, as every pass has since a time that is at least the configured
    -- wait ago.
    pub decide-fails_over :
        (active : Bool) (ps : List (Look D)) (p : Look D)
        (primary_cand secondary_cand : List (Candidate D))
        → is_always clock.secondary ≡ false
        → (looks (start active) ps).0.on_secondary ≡ false
        → (look (looks (start active) ps).0 p).on_secondary ≡ true
        → let s = looks (start active) ps in
          (serving_candidates clock s.0 primary_cand secondary_cand ≡ primary_cand)
          × (serving_candidates clock (look s.0 p) primary_cand secondary_cand ≡ secondary_cand)
          × (p.secondary_usable ≡ true)
          × ((first : D) × Since false first (p ∷ s.1)
              × (le clock.failover_after_sec (since first p.now) ≡ true))
    unfolding serving_candidates
    decide-fails_over active ps p primary_cand secondary_cand a h k =
        let s = looks (start active) ps in
        let on = decide-on s.0 p h k in
        (
          rw (a, h) refl,
          rw (a, k) refl,
          on.1,
          (
            (look s.0 p).primary_lost_since,
            subst (λ first. Since false first (p ∷ s.1))
                (sym ((decide-instants s.0 p).0 ∙ note_primary-lost s.0 p on.0))
                (kept zero_le false s.0.primary_lost_since p.now s.1 p on.0 refl
                  (start-Instants active ps).0),
            on.2,
          ),
        )

    -- Where 0 compares as at most 0, and unless both classes always serve: the primary sources take back only in a pass that finds them
    -- usable, as every pass has since a time that is at least the configured wait ago.
    pub decide-fails_back :
        (active : Bool) (ps : List (Look D)) (p : Look D)
        → is_always clock.secondary ≡ false
        → (looks (start active) ps).0.on_secondary ≡ true
        → (look (looks (start active) ps).0 p).on_secondary ≡ false
        → let s = looks (start active) ps in
          (first : D) × Since true first (p ∷ s.1)
          × (le clock.failback_after_sec (since first p.now) ≡ true)
    decide-fails_back active ps p a h k =
        let s = looks (start active) ps in
        let off = decide-off s.0 p a h k in
        (
          (look s.0 p).primary_healthy_since,
          subst (λ first. Since true first (p ∷ s.1))
              (sym ((decide-instants s.0 p).1 ∙ note_primary-healthy s.0 p off.0))
              (kept zero_le true s.0.primary_healthy_since p.now s.1 p off.0 refl
                (start-Instants active ps).1),
          off.1,
        )
