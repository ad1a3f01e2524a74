-- ===== src/Voter/Ranges.antt =====
-- src/clock/TimeFrameVoter.cpp: what is voted is a time of day, or nothing.
use ubersdr_ntp.Prelude.{
  ℕ, true, false, List, [], ◌∷◌, length, ◌≡◌, refl, sym, subst, ◌⊎◌, inl, inr, Bool-cases,
}
use ubersdr_ntp.Prelude.Int.{pos}
use ubersdr_ntp.Prelude.Double.{Double}
use ubersdr_ntp.Fields.{TimeFields, unset, in_range, is_range_valid, advance_minutes}
use ubersdr_ntp.Fields.Range.{Ranged, is_range_valid-Ranged, gate_first}
use ubersdr_ntp.Fields.Advance.{minutes_since_2000-advance_minutes}
use ubersdr_ntp.Voter.{
  Numerics, Config, NormalizedFrame, Frame, normalize, refused, build_normalized_frames,
  decode_fields,
}
use ubersdr_ntp.Voter.Resolve.{vote, resolve, compute_resolution}
use ubersdr_ntp.Voter.Held.{Valid, Valid-map, best_frame_lem}

false-true : false ≡ true → ⊥
false-true h = cc

advance_minutes-in_range :
    (t : TimeFields) (k : ℕ) → is_range_valid t ≡ true → in_range (advance_minutes t (pos k)) ≡ true
advance_minutes-in_range t k h =
    subst (λ u. in_range (advance_minutes u (pos k)) ≡ true) (sym r.time_is)
      (gate_first _ (minutes_since_2000-advance_minutes k r.minute r.hour r.day r.year r.time_in).1)
  where
    r : Ranged t
    r = is_range_valid-Ranged t h

module _ {F D : Type 0} ⦃float : Double F⦄ ⦃double : Double D⦄ (num : Numerics F D) where
  abbrev InRange : TimeFields → Type 0
  InRange t = in_range t ≡ true

  normalize-InRange :
      (cfg : Config F) (f : Frame F) (age : ℕ)
      → (normalize num cfg f age).valid ≡ true
      → InRange (normalize num cfg f age).ext
  unfolding normalize refused
  normalize-InRange cfg f age h = elim (Bool-cases (is_range_valid (decode_fields cfg f))) [
    | inl e ↦ rw e (advance_minutes-in_range (decode_fields cfg f) age e)
    | inr e ↦ absurd (false-true (rw e at h))
  ]

  build_normalized_frames-Valid :
      (cfg : Config F) (frames : List (Frame F))
      → Valid InRange (build_normalized_frames num cfg frames)
  unfolding build_normalized_frames
  build_normalized_frames-Valid cfg [] = tt
  build_normalized_frames-Valid cfg (f ∷ fs) =
      (normalize-InRange cfg f (length fs), build_normalized_frames-Valid cfg fs)

  resolve-InRange :
      (cfg : Config F) (frames : List (NormalizedFrame F D))
      → Valid InRange frames
      → ((resolve num cfg frames).value ≡ unset) ⊎ InRange (resolve num cfg frames).value
  unfolding resolve
  resolve-InRange cfg [] h = inl refl
  resolve-InRange cfg (nf ∷ nfs) h = elim (Bool-cases (in_range (vote num cfg (nf ∷ nfs)))) [
    | inl e ↦ rw e (inr e)
    | inr e ↦ rw e (
        best_frame_lem num (λ t. (t ≡ unset) ⊎ InRange t) cfg (nf ∷ nfs) unset _ (inl refl)
          (Valid-map _ _ (nf ∷ nfs) (λ t p. inr p) h))
  ]

  -- Whatever was received, what the window resolves to is unset, or has its minute in 0 to 59, its
  -- hour in 0 to 23, its day in 1 to 366 and its year in 0 to 99.
  pub compute_resolution-in_range :
      (cfg : Config F) (frames : List (Frame F))
      → let r = compute_resolution num cfg frames in (r.value ≡ unset) ⊎ (in_range r.value ≡ true)
  unfolding compute_resolution
  compute_resolution-in_range cfg frames =
      resolve-InRange cfg _ (build_normalized_frames-Valid cfg frames)
