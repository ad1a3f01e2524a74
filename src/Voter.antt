-- ===== src/Voter.antt =====
-- src/clock/TimeFrameVoter.{h,cpp}: the sliding window of received minutes, and each of its frames
-- brought forward to the newest. F stands for `float`, D for `double`; their conversions, std::pow,
-- and the order that std::sort leaves the bits of a field in are parameters.
pub mod Resolve
pub mod Held
pub mod Ranges
pub mod Window
pub mod Verdict
pub mod Gates
mod Tests
use ubersdr_ntp.Prelude.{
  ℕ, zero, suc, ◌+◌, ◌-◌, ◌==◌, Bool, true, false, ◌&&◌, List, [], ◌∷◌, ◌++◌, map, Option, length,
  get_or, set, drop, replicate, if◌then◌else◌,
}
use ubersdr_ntp.Prelude.Int.{ℤ, pos, pos_part, ◌+ℤ◌, ◌-ℤ◌, ltb_ℤ, leb_ℤ, eqb_ℤ}
use ubersdr_ntp.Prelude.Double.{Double, add, mul, div, neg, lt, lit, from_int, dmin, dmax}
use ubersdr_ntp.Fields.{TimeFields, unset, advance_minutes, is_range_valid}

pub data ClockSymbol : Type 0 where
  unknown bit_zero bit_one marker : ClockSymbol

abbrev pub is_one : ClockSymbol → Bool
is_one unknown = false
is_one bit_zero = false
is_one bit_one = true
is_one marker = false

pub record ClockBitWeight : Type 0 where
  pub second : ℤ
  pub weight : ℤ

pub data FieldIndex : Type 0 where
  field_minutes field_hours field_doy field_year : FieldIndex

-- The field of a time, as `extByField` and `rawByField` list them.
abbrev pub by_field : TimeFields → FieldIndex → ℤ
by_field t field_minutes = t.minute
by_field t field_hours = t.hour
by_field t field_doy = t.doy
by_field t field_year = t.year2

-- What the source takes from the language: the conversions, `std::pow`, and `std::sort`.
pub record Numerics (F D : Type 0) : Type 0 where
  pub widen : F → D
  pub narrow : D → F
  pub float_pow : F → F → F
  pub double_pow : D → D → D
  pub order : List ClockBitWeight → List ℕ

-- `Config`; `reference_now` is what the function gives where there is one.
pub record Config (F : Type 0) : Type 0 where
  pub fields : FieldIndex → List ClockBitWeight
  pub window : ℕ
  pub min_frames_for_lock : ℤ
  pub aging_factor : F
  pub min_bit_confidence : F
  pub min_lock_quality : F
  pub plausibility_bound_minutes : ℤ
  pub reference_now : Option TimeFields
  pub max_newest_valid_age : ℤ

pub record Frame (F : Type 0) : Type 0 where
  pub symbols : List ClockSymbol
  pub confidence : List F

pub record TimeFrameVoter (F : Type 0) : Type 0 where
  pub cfg : Config F
  pub frames : List (Frame F)

pub record Bit (F : Type 0) : Type 0 where
  pub symbol : ClockSymbol
  pub confidence : F

pub record NormalizedFrame (F D : Type 0) : Type 0 where
  pub age : ℕ
  pub valid : Bool
  pub mean_confidence : D
  pub ext : TimeFields
  pub bits : FieldIndex → List (Bit F)

abbrev pub in_frame : ℤ → Bool
in_frame sec = leb_ℤ (pos 0) sec && ltb_ℤ sec (pos 60)

module _ {F : Type 0} where
  unfoldable pub add_frame : TimeFrameVoter F → Frame F → TimeFrameVoter F
  add_frame v f =
      let grown = v.frames ++ (f ∷ []) in
      record v { frames = drop (length grown - v.cfg.window) grown }

  unfoldable pub reset : TimeFrameVoter F → TimeFrameVoter F
  reset v = record v { frames = [] }

  unfoldable pub set_plausibility : TimeFrameVoter F → Option TimeFields → ℤ → TimeFrameVoter F
  set_plausibility v reference_now bound_minutes = record v {
    cfg = record v.cfg {
      plausibility_bound_minutes = bound_minutes;
      reference_now = reference_now;
    };
  }

  abbrev pub symbol_at : Frame F → ℤ → ClockSymbol
  symbol_at f sec = if in_frame sec then get_or f.symbols (pos_part sec) unknown else unknown

  -- The loop of `decodeField`.
  unfoldable pub decode_bits : Frame F → List ClockBitWeight → ℤ
  decode_bits f [] = pos 0
  decode_bits f (bw ∷ bws) =
      (if in_frame bw.second && is_one (symbol_at f bw.second) then bw.weight else pos 0)
      +ℤ decode_bits f bws

  unfoldable pub decode_field : Config F → Frame F → FieldIndex → ℤ
  decode_field cfg f field = decode_bits f (cfg.fields field)

  unfoldable pub decode_fields : Config F → Frame F → TimeFields
  decode_fields cfg f = record {
    minute = decode_field cfg f field_minutes;
    hour = decode_field cfg f field_hours;
    doy = decode_field cfg f field_doy;
    year2 = decode_field cfg f field_year;
  }

abbrev pub weight_at : List ClockBitWeight → ℕ → ℤ
weight_at bws k = (get_or bws k (record { second = pos 0; weight = pos 0 })).weight

-- The loop of `encodeField` over the bits in the sorted order.
unfoldable pub encode_bits : List ClockBitWeight → List ℕ → ℤ → List ClockSymbol → List ClockSymbol
encode_bits bws [] rem bits = bits
encode_bits bws (k ∷ ks) rem bits =
    let w = weight_at bws k in
    let fits = ltb_ℤ (pos 0) w && leb_ℤ w rem in
    encode_bits bws ks (if fits then rem -ℤ w else rem) (if fits then set bits k bit_one else bits)

module _ {F D : Type 0} ⦃float : Double F⦄ ⦃double : Double D⦄ (num : Numerics F D) where
  unfoldable pub encode_field : List ClockBitWeight → ℤ → List ClockSymbol
  encode_field bws value = encode_bits bws (num.order bws) value (replicate (length bws) bit_zero)

  abbrev pub confidence_at : Frame F → ℤ → F
  confidence_at f sec =
      if in_frame sec then get_or f.confidence (pos_part sec) (lit 0 0) else lit 0 0

  -- The loop of `fieldMinConf`: -1 until a bit is met.
  unfoldable pub min_conf : Frame F → List ClockBitWeight → F → F
  min_conf f [] lo = lo
  min_conf f (bw ∷ bws) lo =
      let c = confidence_at f bw.second in
      min_conf f bws (if in_frame bw.second then (if lt lo (lit 0 0) then c else dmin lo c) else lo)

  unfoldable pub field_min_conf : Frame F → List ClockBitWeight → F
  field_min_conf f bws =
      let lo = min_conf f bws (neg (lit 1 0)) in
      dmax (if lt lo (lit 0 0) then lit 0 0 else lo) (lit 1 2)

  -- The sum and the count of the confidences of one field's bits, added to those so far.
  unfoldable pub sum_conf : Frame F → List ClockBitWeight → D × ℕ → D × ℕ
  sum_conf f [] s = s
  sum_conf f (bw ∷ bws) s =
      sum_conf f bws (
        if in_frame bw.second
        then (add s.0 (num.widen (confidence_at f bw.second)), s.1 + 1)
        else s)

  unfoldable pub mean_conf : Config F → Frame F → D
  mean_conf cfg f =
      let minutes = sum_conf f (cfg.fields field_minutes) (lit 0 0, 0) in
      let hours = sum_conf f (cfg.fields field_hours) minutes in
      let doys = sum_conf f (cfg.fields field_doy) hours in
      let all = sum_conf f (cfg.fields field_year) doys in
      if all.1 == 0 then lit 0 0 else div all.0 (from_int (pos all.1))

  -- A frame out of the ranges votes nothing, at the confidence that it was received with.
  unfoldable pub refused : Config F → Frame F → ℕ → NormalizedFrame F D
  refused cfg f age = record {
    age = age;
    valid = false;
    mean_confidence = lit 0 0;
    ext = unset;
    bits = λ fld.
        map (λ bw. record { symbol = unknown; confidence = confidence_at f bw.second })
          (cfg.fields fld);
  }

  -- A field that the epoch does not change keeps its bits; one that it does is encoded anew.
  unfoldable pub bits_of : Config F → Frame F → TimeFields → TimeFields → FieldIndex → List (Bit F)
  bits_of cfg f raw ext fld =
      if eqb_ℤ (by_field ext fld) (by_field raw fld)
      then map
          (λ bw. record { symbol = symbol_at f bw.second; confidence = confidence_at f bw.second })
          (cfg.fields fld)
      else map (λ s. record { symbol = s; confidence = field_min_conf f (cfg.fields fld) })
          (encode_field (cfg.fields fld) (by_field ext fld))

  unfoldable pub normalize : Config F → Frame F → ℕ → NormalizedFrame F D
  normalize cfg f age =
      let raw = decode_fields cfg f in
      let ext = advance_minutes raw (pos age) in
      if is_range_valid raw
      then record {
        age = age;
        valid = true;
        mean_confidence = mean_conf cfg f;
        ext = ext;
        bits = bits_of cfg f raw ext;
      }
      else refused cfg f age

  -- `buildNormalizedFrames`: the newest frame stands last, and its age is 0.
  unfoldable pub build_normalized_frames : Config F → List (Frame F) → List (NormalizedFrame F D)
  build_normalized_frames cfg [] = []
  build_normalized_frames cfg (f ∷ fs) =
      normalize cfg f (length fs) ∷ build_normalized_frames cfg fs
