-- ===== src/Voter/Tests.antt =====
-- The voter at two received minutes, 01:01 and 01:02 of January 1st 2001, with a short field map.
use ubersdr_ntp.Prelude.{
  ℕ, zero, suc, ◌≡◌, ◌⊎◌, refl, true, false, some, List, [], ◌∷◌, length, replicate, arith,
}
use ubersdr_ntp.Prelude.Int.{pos, pos_part, ◌+ℤ◌, ◌-ℤ◌, ◌*ℤ◌, ◌/ℤ◌, ◌%ℤ◌, ◌≤ℤ◌}
use ubersdr_ntp.Prelude.Micros.{Micros, micros}
use ubersdr_ntp.Prelude.Double.{lt, lit}
use ubersdr_ntp.Fields.{
  TimeFields, unset, is_leap_year2, year_days, sum_years, minutes_since_2000, wrap_years,
  advance_minutes, in_range, is_range_valid,
}
use ubersdr_ntp.Voter.{
  ClockSymbol, bit_zero, bit_one, ClockBitWeight, FieldIndex, field_minutes, field_hours, field_doy,
  field_year, by_field, Numerics, Config, Frame, add_frame, decode_bits, decode_field,
  decode_fields, encode_bits, encode_field, min_conf, field_min_conf, sum_conf, mean_conf, refused,
  bits_of, normalize, build_normalized_frames,
}
use ubersdr_ntp.Voter.Resolve.{
  add_held, next_top, top_from, top_of, total_held, value_margin, is_held, resolve_field,
  aged_weight, min_bit_conf, held_weight, hold, add_bit, bit_stat, bit_coherent, bit_margin, trust,
  compose_bit, compose, vote_field, vote, best_frame, vote_quality, resolve, compute_resolution,
}
use ubersdr_ntp.Voter.Verdict.{
  count_increments, increments, is_implausible, has_fresh, is_fresh, differs_from, is_contested,
  refuse_increments, bit_votes, margins, is_decided, is_below_floor, judge_resolution, judge_frames,
  lock_verdict,
}
use ubersdr_ntp.Voter.Held.{Voted, compute_resolution-Voted}
use ubersdr_ntp.Voter.Gates.{CountsUp, IsFresh, Within, lock_verdict-locked, lock_verdict-Within}

methods : Unit {0}
unfolding is_leap_year2 year_days sum_years minutes_since_2000 wrap_years advance_minutes in_range
    is_range_valid add_frame decode_bits decode_field decode_fields encode_bits encode_field
    min_conf field_min_conf sum_conf mean_conf refused bits_of normalize build_normalized_frames
    add_held next_top top_from top_of total_held value_margin is_held resolve_field aged_weight
    min_bit_conf held_weight hold add_bit bit_stat bit_coherent bit_margin trust compose_bit compose
    vote_field vote best_frame vote_quality resolve compute_resolution count_increments increments
    is_implausible has_fresh is_fresh differs_from is_contested refuse_increments bit_votes margins
    is_decided is_below_floor judge_resolution judge_frames lock_verdict ◌+ℤ◌ ◌-ℤ◌ ◌*ℤ◌ ◌/ℤ◌ ◌%ℤ◌
methods = tt

abbrev power : ℕ → Micros → Micros
power zero a = micros.decimal 1 0
power (suc n) a = (a *ℤ power n a) /ℤ pos 1_000_000

abbrev pow : Micros → Micros → Micros
pow a b = power (pos_part (b /ℤ pos 1_000_000)) a

abbrev from_last : {A : Type 0} → List A → List ℕ
from_last [] = []
from_last (x ∷ xs) = length xs ∷ from_last xs

abbrev num : Numerics Micros Micros
num = record {
  widen = λ a. a;
  narrow = λ a. a;
  float_pow = pow;
  double_pow = pow;
  order = from_last;
}

abbrev bw : ℕ → ℕ → ClockBitWeight
bw s w = record { second = pos s; weight = pos w }

abbrev short_map : FieldIndex → List ClockBitWeight
short_map field_minutes = bw 1 1 ∷ bw 2 2 ∷ []
short_map field_hours = bw 3 1 ∷ []
short_map field_doy = bw 4 1 ∷ []
short_map field_year = bw 5 1 ∷ []

abbrev at_minute : ℕ → TimeFields
at_minute m = record { minute = pos m; hour = pos 1; doy = pos 1; year2 = pos 1 }

abbrev cfg : Config Micros
cfg = record {
  fields = short_map;
  window = 8;
  min_frames_for_lock = pos 2;
  aging_factor = micros.decimal 9 1;
  min_bit_confidence = micros.decimal 5 2;
  min_lock_quality = micros.decimal 5 2;
  plausibility_bound_minutes = pos 10;
  reference_now = some (at_minute 5);
  max_newest_valid_age = pos 3;
}

abbrev received : ClockSymbol → ClockSymbol → Frame Micros
received a b = record {
  symbols = bit_zero ∷ a ∷ b ∷ bit_one ∷ bit_one ∷ bit_one ∷ replicate 54 bit_zero;
  confidence = replicate 60 (micros.decimal 8 1);
}

abbrev frames : List (Frame Micros)
frames = received bit_one bit_zero ∷ received bit_zero bit_one ∷ []

resolved : (compute_resolution num cfg frames).value ≡ at_minute 2
unfolding methods
resolved = refl

locked : (lock_verdict num cfg frames).locked ≡ true
unfolding methods
locked = refl

compute_resolution-Voted_example :
    ((compute_resolution num cfg frames).value ≡ unset)
    ⊎ Voted num cfg
        (build_normalized_frames num cfg frames)
        field_minutes
        (by_field (compute_resolution num cfg frames).value field_minutes)
compute_resolution-Voted_example = compute_resolution-Voted num cfg frames field_minutes

lock_verdict-locked_example :
    (pos 2 ≤ℤ pos 2)
    × ((n : ℕ) × CountsUp cfg n frames × (pos 2 -ℤ pos 1 ≤ℤ pos n))
    × IsFresh cfg (build_normalized_frames num cfg frames)
    × ((lt (lit 0 0) cfg.min_lock_quality ≡ false)
        ⊎ (lt (compute_resolution num cfg frames).quality (num.widen cfg.min_lock_quality) ≡ false))
lock_verdict-locked_example = lock_verdict-locked num cfg frames locked

in_range_at_five : in_range (at_minute 5) ≡ true
unfolding methods
in_range_at_five = refl

lock_verdict-Within_example : Within (pos 10) (
    minutes_since_2000 (compute_resolution num cfg frames).value
    -ℤ minutes_since_2000 (at_minute 5))
lock_verdict-Within_example =
    lock_verdict-Within num cfg frames (at_minute 5) refl (omega arith) in_range_at_five locked
