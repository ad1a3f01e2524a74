-- ===== src/Voter/Verdict.antt =====
-- src/clock/TimeFrameVoter.cpp: whether the window is locked, and why not.
use ubersdr_ntp.Prelude.{
  ℕ, ◌+◌, Bool, true, false, not, ◌&&◌, ◌||◌, List, [], ◌∷◌, length, none, some, if◌then◌else◌,
  ◌==◌,
}
use ubersdr_ntp.Prelude.Int.{ℤ, pos, negsuc, ◌+ℤ◌, ◌-ℤ◌, ◌%ℤ◌, ltb_ℤ, leb_ℤ, eqb_ℤ}
use ubersdr_ntp.Prelude.Double.{Double, add, sub, mul, div, lt, lit, from_int, dmin, dmax}
use ubersdr_ntp.Fields.{TimeFields, in_range, minutes_since_2000}
use ubersdr_ntp.Voter.{
  FieldIndex, field_minutes, field_hours, field_doy, field_year, is_one, ClockBitWeight, Numerics,
  Config, NormalizedFrame, Frame, build_normalized_frames, decode_field,
}
use ubersdr_ntp.Voter.Resolve.{Resolution, is_zero_bit, bit_at, aged_weight, compute_resolution}

-- `None` is `no_refusal`.
pub data ClockLockRefusal : Type 0 where
  no_refusal quality_floor plausibility staleness contested : ClockLockRefusal

pub record LockVerdict : Type 0 where
  pub locked : Bool
  pub reason : ClockLockRefusal

abbrev pub refuse : ClockLockRefusal → LockVerdict
refuse r = record { locked = false; reason = r }

module _ {F : Type 0} where
  -- The loop over the decoded minutes, from the frame after `prev` on.
  unfoldable pub count_increments : Config F → Frame F → List (Frame F) → ℕ
  count_increments cfg prev [] = 0
  count_increments cfg prev (f ∷ fs) =
      (if eqb_ℤ ((decode_field cfg prev field_minutes +ℤ pos 1) %ℤ pos 60)
          (decode_field cfg f field_minutes)
        then 1
        else 0)
      + count_increments cfg f fs

  unfoldable pub increments : Config F → List (Frame F) → ℕ
  increments cfg [] = 0
  increments cfg (f ∷ fs) = count_increments cfg f fs

  unfoldable pub last_frame_minute : Config F → List (Frame F) → ℤ
  last_frame_minute cfg [] = negsuc 0
  last_frame_minute cfg (f ∷ []) = decode_field cfg f field_minutes
  last_frame_minute cfg (f ∷ (g ∷ fs)) = last_frame_minute cfg (g ∷ fs)

  -- The plausibility test, where it is configured and the reference is in range.
  unfoldable pub is_implausible : Config F → TimeFields → Bool
  is_implausible cfg value = elim cfg.reference_now [
    | none ↦ false
    | some ref ↦
        let diff = minutes_since_2000 value -ℤ minutes_since_2000 ref in
        let bound = cfg.plausibility_bound_minutes in
        ltb_ℤ (pos 0) bound && (in_range ref && (ltb_ℤ bound diff || ltb_ℤ diff (pos 0 -ℤ bound)))
  ]

module _ {F D : Type 0} where
  unfoldable pub has_fresh : Config F → List (NormalizedFrame F D) → Bool
  has_fresh cfg [] = false
  has_fresh cfg (nf ∷ frames) =
      nf.valid && leb_ℤ (pos nf.age) cfg.max_newest_valid_age || has_fresh cfg frames

  unfoldable pub is_fresh : Config F → List (NormalizedFrame F D) → Bool
  is_fresh cfg frames = ltb_ℤ cfg.max_newest_valid_age (pos 0) || has_fresh cfg frames

  -- A valid frame of another time than the first valid one.
  unfoldable pub differs_from : TimeFields → List (NormalizedFrame F D) → Bool
  differs_from first [] = false
  differs_from first (nf ∷ frames) =
      nf.valid && not (eqb_ℤ (minutes_since_2000 nf.ext) (minutes_since_2000 first))
      || differs_from first frames

  unfoldable pub is_contested : List (NormalizedFrame F D) → Bool
  is_contested [] = false
  is_contested (nf ∷ frames) =
      let rest = is_contested frames in if nf.valid then differs_from nf.ext frames else rest

  -- The minutes did not count up often enough.
  unfoldable pub refuse_increments : Bool → List (NormalizedFrame F D) → LockVerdict
  refuse_increments fresh frames =
      if not fresh
      then refuse staleness
      else if is_contested frames
      then refuse contested
      else refuse no_refusal

module _ {F D : Type 0} ⦃float : Double F⦄ ⦃double : Double D⦄ (num : Numerics F D) where
  -- `w0` and `w1` of a bit, in `float`.
  unfoldable pub bit_votes : Config F → FieldIndex → ℕ → F × F → List (NormalizedFrame F D) → F × F
  bit_votes cfg fld k w [] = w
  bit_votes cfg fld k w (nf ∷ frames) =
      let b = bit_at num nf fld k in
      let aged = aged_weight num cfg b.confidence nf.age in
      bit_votes cfg fld k
        (
          if is_zero_bit b.symbol then add w.0 aged else w.0,
          if is_one b.symbol then add w.1 aged else w.1,
        )
        frames

  -- The margins of a field's bits from bit k, added to those so far.
  unfoldable pub margins :
      Config F → FieldIndex → List (NormalizedFrame F D) → ℕ → D → List ClockBitWeight → D
  margins cfg fld frames k margin [] = margin
  margins cfg fld frames k margin (bw ∷ bws) =
      let w = bit_votes cfg fld k (lit 0 0, lit 0 0) frames in
      margins cfg fld frames (k + 1) (add margin (num.widen (sub (dmax w.0 w.1) (dmin w.0 w.1))))
        bws

  unfoldable pub is_decided : Config F → List (NormalizedFrame F D) → FieldIndex → Bool
  is_decided cfg frames fld = lt (lit 0 0) (margins cfg fld frames 0 (lit 0 0) (cfg.fields fld))

  unfoldable pub is_below_floor : Config F → D → Bool
  is_below_floor cfg quality =
      lt (lit 0 0) cfg.min_lock_quality && lt quality (num.widen cfg.min_lock_quality)

  -- The last gates. The source skips them together where neither is configured.
  unfoldable pub judge_resolution : Config F → Resolution D → LockVerdict
  judge_resolution cfg r =
      if is_below_floor cfg r.quality
      then refuse quality_floor
      else if is_implausible cfg r.value
      then refuse plausibility
      else record { locked = true; reason = no_refusal }

  abbrev pub is_empty : List (NormalizedFrame F D) → Bool
  is_empty frames = length frames == 0

  unfoldable pub judge_frames : Config F → List (NormalizedFrame F D) → Resolution D → LockVerdict
  judge_frames cfg frames r =
      if is_empty frames || not (is_fresh cfg frames)
      then refuse staleness
      else if is_decided cfg frames field_hours
          && (is_decided cfg frames field_doy && is_decided cfg frames field_year)
      then judge_resolution cfg r
      else refuse contested

  unfoldable pub lock_verdict : Config F → List (Frame F) → LockVerdict
  lock_verdict cfg frames =
      let normalized = build_normalized_frames num cfg frames in
      if ltb_ℤ (pos (length frames)) cfg.min_frames_for_lock
      then refuse no_refusal
      else if ltb_ℤ (pos (increments cfg frames)) (cfg.min_frames_for_lock -ℤ pos 1)
      then refuse_increments (is_fresh cfg normalized) normalized
      else judge_frames cfg normalized (compute_resolution num cfg frames)

  -- `lockConfidence`, with std::clamp written out.
  unfoldable pub lock_confidence : Config F → List (Frame F) → F
  lock_confidence cfg frames =
      let saturation =
        dmin (lit 1 0) (
          div (from_int (pos (length frames)))
            (mul (lit 2 0) (from_int cfg.min_frames_for_lock))) in
      let quality = mul (compute_resolution num cfg frames).quality saturation in
      if ltb_ℤ (pos (length frames)) cfg.min_frames_for_lock
      then lit 0 0
      else if is_empty (build_normalized_frames num cfg frames)
      then lit 0 0
      else num.narrow (
          if lt quality (lit 0 0)
          then lit 0 0
          else if lt (lit 1 0) quality
          then lit 1 0
          else quality)
