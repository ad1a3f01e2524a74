-- ===== src/Voter/Gates.antt =====
-- src/clock/TimeFrameVoter.cpp: what a lock promises.
use ubersdr_ntp.Prelude.{
  ℕ, ◌+◌, subst, inl, inr, Bool-cases, true, false, List, [], ◌∷◌, length, some, ◌≡◌, ◌⊎◌, arith,
}
use ubersdr_ntp.Prelude.Int.{ℤ, pos, negsuc, ◌+ℤ◌, ◌-ℤ◌, ◌%ℤ◌, ◌≤ℤ◌, eqb_ℤ, eqb_ℤ-eq}
use ubersdr_ntp.Prelude.Double.{Double, lt, lit}
use ubersdr_ntp.Fields.{TimeFields, in_range, minutes_since_2000}
use ubersdr_ntp.Voter.{
  field_minutes, decode_field, Numerics, Config, NormalizedFrame, Frame, build_normalized_frames,
}
use ubersdr_ntp.Voter.Resolve.{Resolution, compute_resolution}
use ubersdr_ntp.Voter.Verdict.{
  count_increments, increments, is_implausible, has_fresh, is_fresh, refuse_increments,
  is_below_floor, judge_resolution, judge_frames, lock_verdict,
}

module _ {F D : Type 0} where
  -- A valid frame that is no older than the configured age.
  abbrev pub FreshFrame : Config F → List (NormalizedFrame F D) → Type 0
  FreshFrame cfg [] = ⊥
  FreshFrame cfg (nf ∷ frames) =
      ((nf.valid ≡ true) × (pos nf.age ≤ℤ cfg.max_newest_valid_age)) ⊎ FreshFrame cfg frames

  has_fresh-FreshFrame :
      (cfg : Config F) (frames : List (NormalizedFrame F D))
      → has_fresh cfg frames ≡ true
      → FreshFrame cfg frames
  unfolding has_fresh
  has_fresh-FreshFrame cfg [] h = absurd cc
  has_fresh-FreshFrame cfg (nf ∷ frames) h = ground (arith, has_fresh-FreshFrame cfg frames)

  -- Freshness is turned off, by a negative age, or there is a fresh frame.
  abbrev pub IsFresh : Config F → List (NormalizedFrame F D) → Type 0
  IsFresh cfg frames = (cfg.max_newest_valid_age ≤ℤ negsuc 0) ⊎ FreshFrame cfg frames

  is_fresh-IsFresh :
      (cfg : Config F) (frames : List (NormalizedFrame F D))
      → is_fresh cfg frames ≡ true
      → IsFresh cfg frames
  unfolding is_fresh
  is_fresh-IsFresh cfg frames h = ground (arith, has_fresh-FreshFrame cfg frames)

-- How many of a window's frames name the minute after that of the frame before them, of 60.
module _ {F : Type 0} (cfg : Config F) where
  abbrev pub IsNextMinute : Frame F → Frame F → Type 0
  IsNextMinute f g =
      (decode_field cfg f field_minutes +ℤ pos 1) %ℤ pos 60 ≡ decode_field cfg g field_minutes

  pub data CountsUp : ℕ → List (Frame F) → Type 0 where
    no_frame : CountsUp 0 []
    one_frame : (f : Frame F) → CountsUp 0 (f ∷ [])
    next_minute :
        (n : ℕ) (f g : Frame F) (fs : List (Frame F))
        → IsNextMinute f g
        → CountsUp n (g ∷ fs)
        → CountsUp (1 + n) (f ∷ (g ∷ fs))
    other_minute :
        (n : ℕ) (f g : Frame F) (fs : List (Frame F))
        → (IsNextMinute f g → ⊥)
        → CountsUp n (g ∷ fs)
        → CountsUp n (f ∷ (g ∷ fs))

  count_increments-CountsUp :
      (f : Frame F) (fs : List (Frame F)) → CountsUp (count_increments cfg f fs) (f ∷ fs)
  unfolding count_increments
  count_increments-CountsUp f [] = one_frame f
  count_increments-CountsUp f (g ∷ fs) =
      let rest = count_increments-CountsUp g fs in
      let n = count_increments cfg g fs in
      let next = decode_field cfg f field_minutes +ℤ pos 1 in
      let none_more : n ≡ 0 + n = omega arith in
      elim (Bool-cases (eqb_ℤ (next %ℤ pos 60) (decode_field cfg g field_minutes))) [
        | inl same ↦ rw same (next_minute _ f g fs (eqb_ℤ-eq _ _ same) rest)
        | inr other ↦ rw other (
            subst (λ m. CountsUp m (f ∷ (g ∷ fs))) none_more
              (other_minute n f g fs (λ e. ground (arith, other, e)) rest))
      ]

  increments-CountsUp : (frames : List (Frame F)) → CountsUp (increments cfg frames) frames
  unfolding increments
  increments-CountsUp [] = no_frame
  increments-CountsUp (f ∷ fs) = count_increments-CountsUp f fs

abbrev pub Within : ℤ → ℤ → Type 0
Within bound diff = (diff ≤ℤ bound) × (pos 0 -ℤ bound ≤ℤ diff)

is_implausible-Within :
    {F : Type 0} (cfg : Config F) (value ref : TimeFields)
    → cfg.reference_now ≡ some ref
    → pos 1 ≤ℤ cfg.plausibility_bound_minutes
    → in_range ref ≡ true
    → is_implausible cfg value ≡ false
    → Within cfg.plausibility_bound_minutes (minutes_since_2000 value -ℤ minutes_since_2000 ref)
unfolding is_implausible
is_implausible-Within cfg value ref e b v h = ground (arith, rw (e, v) at h)

module _ {F D : Type 0} ⦃float : Double F⦄ ⦃double : Double D⦄ (num : Numerics F D) where
  judge_frames-locked :
      (cfg : Config F) (frames : List (NormalizedFrame F D)) (r : Resolution D)
      → (judge_frames num cfg frames r).locked ≡ true
      → (is_fresh cfg frames ≡ true)
        × (is_below_floor num cfg r.quality ≡ false)
        × (is_implausible cfg r.value ≡ false)
  unfolding judge_frames judge_resolution
  judge_frames-locked cfg frames r h = ground arith

  lock_verdict_lem :
      (cfg : Config F) (frames : List (Frame F))
      → (lock_verdict num cfg frames).locked ≡ true
      → (cfg.min_frames_for_lock ≤ℤ pos (length frames))
        × (cfg.min_frames_for_lock -ℤ pos 1 ≤ℤ pos (increments cfg frames))
        × ((judge_frames num cfg
              (build_normalized_frames num cfg frames)
              (compute_resolution num cfg frames)).locked
            ≡ true)
  unfolding lock_verdict refuse_increments
  lock_verdict_lem cfg frames h = ground arith

  lock_verdict-judged :
      (cfg : Config F) (frames : List (Frame F))
      → (lock_verdict num cfg frames).locked ≡ true
      → let r = compute_resolution num cfg frames in
        (is_fresh cfg (build_normalized_frames num cfg frames) ≡ true)
        × (is_below_floor num cfg r.quality ≡ false)
        × (is_implausible cfg r.value ≡ false)
  lock_verdict-judged cfg frames h = judge_frames-locked cfg _ _ (lock_verdict_lem cfg frames h).2

  is_below_floor-false :
      (cfg : Config F) (quality : D)
      → is_below_floor num cfg quality ≡ false
      → (lt (lit 0 0) cfg.min_lock_quality ≡ false)
        ⊎ (lt quality (num.widen cfg.min_lock_quality) ≡ false)
  unfolding is_below_floor
  is_below_floor-false cfg quality h = ground arith

  -- A locked window holds enough frames, and all but one of that number, or more, name the minute that
  -- follows the frame before them; unless freshness is turned off, a valid frame is no older than the
  -- configured age; and where a floor is configured, the quality of what is voted is not below it.
  pub lock_verdict-locked :
      (cfg : Config F) (frames : List (Frame F))
      → (lock_verdict num cfg frames).locked ≡ true
      → (cfg.min_frames_for_lock ≤ℤ pos (length frames))
        × ((n : ℕ) × CountsUp cfg n frames × (cfg.min_frames_for_lock -ℤ pos 1 ≤ℤ pos n))
        × IsFresh cfg (build_normalized_frames num cfg frames)
        × ((lt (lit 0 0) cfg.min_lock_quality ≡ false)
            ⊎ (lt (compute_resolution num cfg frames).quality (num.widen cfg.min_lock_quality)
                ≡ false))
  lock_verdict-locked cfg frames h =
      let l = lock_verdict_lem cfg frames h in
      let j = lock_verdict-judged cfg frames h in
      (
        l.0,
        (increments cfg frames, increments-CountsUp cfg frames, l.1),
        is_fresh-IsFresh cfg _ j.0,
        is_below_floor-false cfg _ j.1,
      )

  -- A locked window votes a time within the plausibility bound of the reference, where there is a
  -- reference in range and the bound is positive.
  pub lock_verdict-Within :
      (cfg : Config F) (frames : List (Frame F)) (ref : TimeFields)
      → cfg.reference_now ≡ some ref
      → pos 1 ≤ℤ cfg.plausibility_bound_minutes
      → in_range ref ≡ true
      → (lock_verdict num cfg frames).locked ≡ true
      → Within cfg.plausibility_bound_minutes
          (minutes_since_2000 (compute_resolution num cfg frames).value -ℤ minutes_since_2000 ref)
  lock_verdict-Within cfg frames ref e b v h =
      is_implausible-Within cfg _ ref e b v (lock_verdict-judged cfg frames h).2
