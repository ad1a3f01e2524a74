-- ===== src/Voter/Held.antt =====
-- src/clock/TimeFrameVoter.cpp: a voted value is one that a valid frame of the window holds.
use ubersdr_ntp.Prelude.{
  if_lem, true, false, ◌&&◌, List, [], ◌∷◌, ◌≡◌, refl, sym, ◌∙◌, subst, ◌⊎◌, inl, inr, All,
  Bool-cases, arith, and_left, and_right,
}
use ubersdr_ntp.Prelude.Int.{ℤ, pos, eqb_ℤ, eqb_ℤ-eq}
use ubersdr_ntp.Prelude.Double.{Double, lt, lit}
use ubersdr_ntp.Fields.{TimeFields, unset, in_range}
use ubersdr_ntp.Voter.{
  FieldIndex, field_minutes, field_hours, field_doy, field_year, by_field, Numerics, Config,
  NormalizedFrame, Frame, build_normalized_frames,
}
use ubersdr_ntp.Voter.Resolve.{
  Composed, Top, add_held, next_top, top_from, top_of, is_held, resolve_field, hold, vote_field,
  vote, best_frame, resolve, compute_resolution,
}

-- The values held all meet a predicate.
abbrev pub Values : {D : Type 0} → (ℤ → Type 0) → List (ℤ × D) → Type 0
Values P held = All (λ hv. P hv.0) held

-- No value held has a weight above another.
abbrev pub NoneAbove : {D : Type 0} ⦃double : Double D⦄ → D → List (ℤ × D) → Type 0
NoneAbove w held = All (λ hv. lt w hv.1 ≡ false) held

module _ {D : Type 0} ⦃double : Double D⦄ (P : ℤ → Type 0) where
  pub Values-add_held :
      (held : List (ℤ × D)) (v : ℤ) (w : D) → Values P held → P v → Values P (add_held held v w)
  unfolding add_held
  Values-add_held [] v w h p = (p, tt)
  Values-add_held (hv ∷ held) v w h p = elim (Bool-cases (eqb_ℤ hv.0 v)) [
    | inl e ↦ rw e h
    | inr e ↦ rw e (h.0, Values-add_held held v w h.1 p)
  ]

  next_top_lem :
      (t : Top D) (hv : ℤ × D)
      → ((next_top t hv).value ≡ hv.0)
        ⊎ ((lt t.top_w hv.1 ≡ false)
            × ((next_top t hv).value ≡ t.value)
            × ((next_top t hv).top_w ≡ t.top_w))
  unfolding next_top
  next_top_lem t hv = ground arith

  top_from_lem :
      (held : List (ℤ × D)) (t : Top D)
      → Values P held
      → P (top_from t held).value ⊎ (((top_from t held).value ≡ t.value) × NoneAbove t.top_w held)
  unfolding top_from
  top_from_lem [] t h = inr (refl, tt)
  top_from_lem (hv ∷ held) t h = elim (top_from_lem held (next_top t hv) h.1) [
    | inl p ↦ inl p
    | inr (q, none_above) ↦ elim (next_top_lem t hv) [
      | inl e ↦ inl (subst P (sym (q ∙ e)) h.0)
      | inr (below, same_value, same_w) ↦
          inr (q ∙ same_value, (below, subst (λ w. NoneAbove w held) same_w none_above))
    ]
  ]

  top_of_lem :
      (held : List (ℤ × D))
      → Values P held
      → P (top_of held).value ⊎ (((top_of held).value ≡ pos 0) × NoneAbove (lit 0 0) held)
  unfolding top_of
  top_of_lem held h = top_from_lem held _ h

  is_held_lem : (v : ℤ) (held : List (ℤ × D)) → Values P held → is_held v held ≡ true → P v
  unfolding is_held
  is_held_lem v [] h e = absurd cc
  is_held_lem v (hv ∷ held) h e = elim (Bool-cases (eqb_ℤ hv.0 v)) [
    | inl here ↦ subst P (eqb_ℤ-eq hv.0 v here) h.0
    | inr there ↦ is_held_lem v held h.1 (rw there at e)
  ]

  resolve_field_lem :
      (c : Composed D) (held : List (ℤ × D))
      → Values P held
      → P (resolve_field c held).0 ⊎ (((resolve_field c held).0 ≡ pos 0) × NoneAbove (lit 0 0) held)
  unfolding resolve_field
  resolve_field_lem c held h = elim (Bool-cases (c.all_coherent && is_held c.value held)) [
    | inl e ↦ rw e (inl (is_held_lem c.value held h (and_right c.all_coherent _ e)))
    | inr e ↦ rw e (top_of_lem held h)
  ]

module _ {F D : Type 0} where
  -- A valid frame whose time, brought forward, has this value of the field.
  abbrev pub HeldBy : List (NormalizedFrame F D) → FieldIndex → ℤ → Type 0
  HeldBy [] fld v = ⊥
  HeldBy (nf ∷ frames) fld v = ((nf.valid ≡ true) × (by_field nf.ext fld ≡ v)) ⊎ HeldBy frames fld v

  abbrev pub Valid : (TimeFields → Type 0) → List (NormalizedFrame F D) → Type 0
  Valid P frames = All (λ (nf : NormalizedFrame F D). nf.valid ≡ true → P nf.ext) frames

  pub Valid-map :
      (P Q : TimeFields → Type 0) (frames : List (NormalizedFrame F D))
      → ((t : TimeFields) → P t → Q t)
      → Valid P frames
      → Valid Q frames
  Valid-map P Q [] k h = tt
  Valid-map P Q (nf ∷ frames) k h = (λ e. k nf.ext (h.0 e), Valid-map P Q frames k h.1)

  Valid-HeldBy :
      (frames : List (NormalizedFrame F D)) (fld : FieldIndex)
      → Valid (λ t. HeldBy frames fld (by_field t fld)) frames
  Valid-HeldBy [] fld = tt
  Valid-HeldBy (nf ∷ frames) fld =
      (λ e. inl (e, refl), Valid-map _ _ frames (λ t p. inr p) (Valid-HeldBy frames fld))

module _ {F D : Type 0} ⦃float : Double F⦄ ⦃double : Double D⦄ (num : Numerics F D) where
  Values-hold :
      (P : ℤ → Type 0) (cfg : Config F) (fld : FieldIndex) (frames : List (NormalizedFrame F D))
      (held : List (ℤ × D))
      → Values P held
      → Valid (λ t. P (by_field t fld)) frames
      → Values P (hold num cfg fld held frames)
  unfolding hold
  Values-hold P cfg fld [] held h v = h
  Values-hold P cfg fld (nf ∷ frames) held h v =
      Values-hold P cfg fld frames _
        (if_lem (Values P) nf.valid _ held (λ e. Values-add_held P held _ _ h (v.0 e)) (λ _. h)) v.1

  pub best_frame_lem :
      (P : TimeFields → Type 0) (cfg : Config F) (frames : List (NormalizedFrame F D))
      (best : TimeFields) (w : D)
      → P best
      → Valid P frames
      → P (best_frame num cfg best w frames)
  unfolding best_frame
  best_frame_lem P cfg [] best w p v = p
  best_frame_lem P cfg (nf ∷ frames) best w p v =
      best_frame_lem P cfg frames _ _ (if_lem P _ nf.ext best (λ e. v.0 (and_left _ _ e)) (λ _. p))
        v.1

  vote_field_lem :
      (cfg : Config F) (frames : List (NormalizedFrame F D)) (fld : FieldIndex)
      → HeldBy frames fld (vote_field num cfg frames fld).0
        ⊎ (((vote_field num cfg frames fld).0 ≡ pos 0)
            × NoneAbove (lit 0 0) (hold num cfg fld [] frames))
  unfolding vote_field
  vote_field_lem cfg frames fld =
      resolve_field_lem (HeldBy frames fld) _ _
        (Values-hold (HeldBy frames fld) cfg fld frames [] tt (Valid-HeldBy frames fld))

  by_field-vote :
      (cfg : Config F) (frames : List (NormalizedFrame F D)) (fld : FieldIndex)
      → by_field (vote num cfg frames) fld ≡ (vote_field num cfg frames fld).0
  unfolding vote
  by_field-vote cfg frames field_minutes = refl
  by_field-vote cfg frames field_hours = refl
  by_field-vote cfg frames field_doy = refl
  by_field-vote cfg frames field_year = refl

  -- A value of a field that a frame holds, or the 0 that is left where no weight is positive.
  abbrev pub Voted : Config F → List (NormalizedFrame F D) → FieldIndex → ℤ → Type 0
  Voted cfg frames fld v =
      HeldBy frames fld v ⊎ ((v ≡ pos 0) × NoneAbove (lit 0 0) (hold num cfg fld [] frames))

  resolve-Voted :
      (cfg : Config F) (frames : List (NormalizedFrame F D)) (fld : FieldIndex)
      → ((resolve num cfg frames).value ≡ unset)
        ⊎ Voted cfg frames fld (by_field (resolve num cfg frames).value fld)
  unfolding resolve
  resolve-Voted cfg [] fld = inl refl
  resolve-Voted cfg (nf ∷ nfs) fld =
      let frames = nf ∷ nfs in
      elim (Bool-cases (in_range (vote num cfg frames))) [
        | inl e ↦ rw e (
            inr (
              subst (Voted cfg frames fld) (sym (by_field-vote cfg frames fld))
                (vote_field_lem cfg frames fld)))
        | inr e ↦ rw e (
            best_frame_lem (λ t. (t ≡ unset) ⊎ Voted cfg frames fld (by_field t fld)) cfg frames
              unset _ (inl refl)
              (Valid-map _ _ frames (λ t p. inr (inl p)) (Valid-HeldBy frames fld)))
      ]

  -- No field is voted a phantom value: the resolution is unset, or each of its fields is that of some
  -- valid frame brought forward to the newest, or is 0 because no value of it has a positive weight.
  pub compute_resolution-Voted :
      (cfg : Config F) (frames : List (Frame F)) (fld : FieldIndex)
      → let r = compute_resolution num cfg frames in
        (r.value ≡ unset)
        ⊎ Voted cfg (build_normalized_frames num cfg frames) fld (by_field r.value fld)
  unfolding compute_resolution
  compute_resolution-Voted cfg frames fld =
      resolve-Voted cfg (build_normalized_frames num cfg frames) fld
