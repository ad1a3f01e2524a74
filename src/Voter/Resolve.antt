-- ===== src/Voter/Resolve.antt =====
-- src/clock/TimeFrameVoter.cpp: the value that the frames of the window vote, and its quality.
use ubersdr_ntp.Prelude.{
  ℕ, ◌+◌, Bool, true, false, not, ◌&&◌, ◌||◌, List, [], ◌∷◌, get_or, if◌then◌else◌, differ,
}
use ubersdr_ntp.Prelude.Int.{ℤ, pos, negsuc, ◌+ℤ◌, eqb_ℤ}
use ubersdr_ntp.Prelude.Double.{Double, add, sub, mul, div, neg, lt, le, lit, from_int, dmin, dmax}
use ubersdr_ntp.Fields.{TimeFields, unset, in_range}
use ubersdr_ntp.Voter.{
  ClockSymbol, unknown, bit_zero, bit_one, marker, is_one, ClockBitWeight, FieldIndex,
  field_minutes, field_hours, field_doy, field_year, by_field, Numerics, Config, Bit,
  NormalizedFrame, Frame, build_normalized_frames,
}

pub record BitStat (F D : Type 0) : Type 0 where
  pub w0 : D
  pub w1 : D
  pub c0 : D
  pub c1 : D
  pub p_act : D
  pub p_pot : D
  pub best_conf0 : F
  pub best_conf1 : F

-- What the bits of a field come to: `allCoherent`, `minCoherentTrust` and `composeValue`.
pub record Composed (D : Type 0) : Type 0 where
  pub all_coherent : Bool
  pub min_trust : D
  pub value : ℤ

-- `topValue`, `topW` and `runnerW`.
pub record Top (D : Type 0) : Type 0 where
  pub value : ℤ
  pub top_w : D
  pub runner_w : D

pub record Resolution (D : Type 0) : Type 0 where
  pub value : TimeFields
  pub quality : D

abbrev pub is_zero_bit : ClockSymbol → Bool
is_zero_bit unknown = false
is_zero_bit bit_zero = true
is_zero_bit bit_one = false
is_zero_bit marker = false

module _ {D : Type 0} ⦃double : Double D⦄ where
  -- `addHeld`.
  unfoldable pub add_held : List (ℤ × D) → ℤ → D → List (ℤ × D)
  add_held [] value weight = (value, weight) ∷ []
  add_held (hv ∷ held) value weight =
      let rest = add_held held value weight in
      if eqb_ℤ hv.0 value then (hv.0, add hv.1 weight) ∷ held else hv ∷ rest

  unfoldable pub next_top : Top D → ℤ × D → Top D
  next_top t hv =
      if lt t.top_w hv.1
      then record { value = hv.0; top_w = hv.1; runner_w = t.top_w }
      else record t { runner_w = if lt t.runner_w hv.1 then hv.1 else t.runner_w }

  unfoldable pub top_from : Top D → List (ℤ × D) → Top D
  top_from t [] = t
  top_from t (hv ∷ held) = top_from (next_top t hv) held

  unfoldable pub top_of : List (ℤ × D) → Top D
  top_of held = top_from (record { value = pos 0; top_w = lit 0 0; runner_w = lit 0 0 }) held

  unfoldable pub total_held : D → List (ℤ × D) → D
  total_held total [] = total
  total_held total (hv ∷ held) = total_held (add total hv.1) held

  unfoldable pub value_margin : List (ℤ × D) → D
  value_margin held =
      div (sub (top_of held).top_w (top_of held).runner_w)
        (add (total_held (lit 0 0) held) (lit 1 6))

  unfoldable pub is_held : ℤ → List (ℤ × D) → Bool
  is_held value [] = false
  is_held value (hv ∷ held) = eqb_ℤ hv.0 value || is_held value held

  -- The value of a field, and its quality.
  unfoldable pub resolve_field : Composed D → List (ℤ × D) → ℤ × D
  resolve_field c held =
      if c.all_coherent && is_held c.value held
      then (c.value, c.min_trust)
      else ((top_of held).value, dmin (value_margin held) c.min_trust)

module _ {F D : Type 0} ⦃float : Double F⦄ ⦃double : Double D⦄ (num : Numerics F D) where
  unfoldable pub aged_weight : Config F → F → ℕ → F
  aged_weight cfg confidence age =
      mul (dmax confidence (lit 1 2)) (num.float_pow cfg.aging_factor (from_int (pos age)))

  -- The loop of `fmin`: -1 until a bit is met.
  unfoldable pub min_bit_conf : F → List (Bit F) → F
  min_bit_conf fmin [] = fmin
  min_bit_conf fmin (b ∷ bs) =
      min_bit_conf (if lt fmin (lit 0 0) then b.confidence else dmin fmin b.confidence) bs

  unfoldable pub held_weight : Config F → NormalizedFrame F D → FieldIndex → D
  held_weight cfg nf fld =
      let fmin = min_bit_conf (neg (lit 1 0)) (nf.bits fld) in
      num.widen (aged_weight cfg (if lt fmin (lit 0 0) then lit 0 0 else fmin) nf.age)

  unfoldable pub hold :
      Config F → FieldIndex → List (ℤ × D) → List (NormalizedFrame F D) → List (ℤ × D)
  hold cfg fld held [] = held
  hold cfg fld held (nf ∷ frames) =
      hold cfg fld
        (if nf.valid then add_held held (by_field nf.ext fld) (held_weight cfg nf fld) else held)
        frames

  -- `nf.bits[fld][k]`.
  abbrev pub bit_at : NormalizedFrame F D → FieldIndex → ℕ → Bit F
  bit_at nf fld k = get_or (nf.bits fld) k (record { symbol = unknown; confidence = lit 0 0 })

  abbrev pub start_stat : BitStat F D
  start_stat = record {
    w0 = lit 0 0;
    w1 = lit 0 0;
    c0 = lit 0 0;
    c1 = lit 0 0;
    p_act = lit 0 0;
    p_pot = lit 0 0;
    best_conf0 = lit 0 0;
    best_conf1 = lit 0 0;
  }

  unfoldable pub add_bit : Config F → BitStat F D → Bit F → ℕ → BitStat F D
  add_bit cfg s b age =
      let aged = num.double_pow (num.widen cfg.aging_factor) (from_int (pos age)) in
      let conf_w = mul (num.widen (dmax b.confidence (lit 1 2))) aged in
      let one = is_one b.symbol in
      let null = is_zero_bit b.symbol in
      record {
        w0 = if null then add s.w0 conf_w else s.w0;
        w1 = if one then add s.w1 conf_w else s.w1;
        c0 = if null then add s.c0 aged else s.c0;
        c1 = if one then add s.c1 aged else s.c1;
        p_act = if one || null then add s.p_act conf_w else s.p_act;
        p_pot = add s.p_pot conf_w;
        best_conf0 = if null then dmax s.best_conf0 b.confidence else s.best_conf0;
        best_conf1 = if one then dmax s.best_conf1 b.confidence else s.best_conf1;
      }

  unfoldable pub bit_stat :
      Config F → FieldIndex → ℕ → BitStat F D → List (NormalizedFrame F D) → BitStat F D
  bit_stat cfg fld k s [] = s
  bit_stat cfg fld k s (nf ∷ frames) =
      bit_stat cfg fld k (add_bit cfg s (bit_at nf fld k) nf.age) frames

  -- `cTied || (wOne == cOne)`.
  unfoldable pub bit_coherent : BitStat F D → Bool
  bit_coherent s = le s.c0 s.c1 && le s.c1 s.c0 || not (differ (lt s.w0 s.w1) (lt s.c0 s.c1))

  unfoldable pub bit_margin : BitStat F D → D
  bit_margin s =
      let total = add s.w0 s.w1 in
      if lt (lit 0 0) total
      then div (sub (dmax s.w0 s.w1) (dmin s.w0 s.w1)) (add total (lit 1 6))
      else lit 0 0

  unfoldable pub trust : Config F → BitStat F D → D
  trust cfg s =
      let participation = if lt (lit 0 0) s.p_pot then div s.p_act s.p_pot else lit 0 0 in
      let winner = if lt s.w0 s.w1 then s.best_conf1 else s.best_conf0 in
      if le cfg.min_bit_confidence (lit 0 0) || le cfg.min_bit_confidence winner
      then mul (bit_margin s) participation
      else lit 0 0

  unfoldable pub compose_bit : Config F → Composed D → BitStat F D → ℤ → Composed D
  compose_bit cfg c s weight = record {
    all_coherent = c.all_coherent && bit_coherent s;
    min_trust = if bit_coherent s then dmin c.min_trust (trust cfg s) else c.min_trust;
    value = if lt s.w0 s.w1 then c.value +ℤ weight else c.value;
  }

  -- The loop over the bits of a field from bit k.
  unfoldable pub compose :
      Config F
      → FieldIndex
      → List (NormalizedFrame F D)
      → ℕ
      → Composed D
      → List ClockBitWeight
      → Composed D
  compose cfg fld frames k c [] = c
  compose cfg fld frames k c (bw ∷ bws) =
      compose cfg fld frames (k + 1)
        (compose_bit cfg c (bit_stat cfg fld k start_stat frames) bw.weight) bws

  -- One round of the loop over the fields: the value and the quality.
  unfoldable pub vote_field : Config F → List (NormalizedFrame F D) → FieldIndex → ℤ × D
  vote_field cfg frames fld =
      resolve_field
        (compose cfg fld frames 0
          (record { all_coherent = true; min_trust = lit 1 0; value = pos 0 }) (cfg.fields fld))
        (hold cfg fld [] frames)

  unfoldable pub vote : Config F → List (NormalizedFrame F D) → TimeFields
  vote cfg frames = record {
    minute = (vote_field cfg frames field_minutes).0;
    hour = (vote_field cfg frames field_hours).0;
    doy = (vote_field cfg frames field_doy).0;
    year2 = (vote_field cfg frames field_year).0;
  }

  -- The fallback: the time of the valid frame of most weight, the first of equals.
  unfoldable pub best_frame : Config F → TimeFields → D → List (NormalizedFrame F D) → TimeFields
  best_frame cfg best best_w [] = best
  best_frame cfg best best_w (nf ∷ frames) =
      let w = num.widen (aged_weight cfg (num.narrow nf.mean_confidence) nf.age) in
      let better = nf.valid && lt best_w w in
      best_frame cfg (if better then nf.ext else best) (if better then w else best_w) frames

  unfoldable pub vote_quality : Config F → List (NormalizedFrame F D) → D
  vote_quality cfg frames =
      dmin
        (dmin (dmin (vote_field cfg frames field_minutes).1 (vote_field cfg frames field_hours).1)
          (vote_field cfg frames field_doy).1)
        (vote_field cfg frames field_year).1

  unfoldable pub resolve : Config F → List (NormalizedFrame F D) → Resolution D
  resolve cfg [] = record { value = unset; quality = lit 0 0 }
  resolve cfg (nf ∷ nfs) =
      let frames = nf ∷ nfs in
      if in_range (vote cfg frames)
      then record { value = vote cfg frames; quality = vote_quality cfg frames }
      else record { value = best_frame cfg unset (neg (lit 1 0)) frames; quality = lit 0 0 }

  unfoldable pub compute_resolution : Config F → List (Frame F) → Resolution D
  compute_resolution cfg frames = resolve cfg (build_normalized_frames num cfg frames)

  unfoldable pub voted_field : Config F → List (Frame F) → FieldIndex → ℤ
  voted_field cfg [] fld = negsuc 0
  voted_field cfg (f ∷ fs) fld = by_field (compute_resolution cfg (f ∷ fs)).value fld
