-- ===== src/Selector/Answer.antt =====
-- src/Selector.cpp: the time that the survivors give, and the coast where there are too few.
use ubersdr_ntp.Prelude.{
  ℕ, Bool, true, false, not, ◌&&◌, ◌||◌, List, [], ◌∷◌, none, some, ltb, ◌==◌, if◌then◌else◌,
}
use ubersdr_ntp.Prelude.Int.{ℤ, pos, ◌+ℤ◌, ltb_ℤ}
use ubersdr_ntp.Prelude.Double.{Double, add, sub, mul, div, abs, lt, lit, dmin, dmax}
use ubersdr_ntp.Prelude.Dict.{Key, eq_key, lookup, insert}
use ubersdr_ntp.Prelude.Libm.{Libm}
use ubersdr_ntp.Prelude.Sort.{sort_by}
use ubersdr_ntp.Selector.{SourceKind, radio, ntp, Candidate, is_empty}
use ubersdr_ntp.Selector.Combined.{ServingClass, primary, secondary, both, wwv}
use ubersdr_ntp.Selector.Agree.{weight_of}

-- The survivors' offset, dispersion and the part of it that is not path.
pub record Average (D : Type 0) : Type 0 where
  pub offset : D
  pub dispersion : D
  pub off_path : D

pub record RateEstimate (D : Type 0) : Type 0 where
  pub rate : D
  pub uncertainty : D
  pub measured : Bool

-- What the time is traced to.
pub record Reference (D : Type 0) : Type 0 where
  pub refid : Key
  pub is_address : Bool
  pub address : ℕ
  pub root_delay_sec : D
  pub root_dispersion_sec : D

abbrev pub is_radio : SourceKind → Bool
is_radio radio = true
is_radio ntp = false

-- `primary == Radio ? Ntp : Radio`.
abbrev pub other_kind : SourceKind → SourceKind
other_kind radio = ntp
other_kind ntp = radio

-- The order of std::string.
unfoldable pub less_key : Key → Key → Bool
less_key j [] = false
less_key [] (b ∷ k) = true
less_key (a ∷ j) (b ∷ k) = ltb a b || a == b && less_key j k

-- `refidFor`.
unfoldable pub refid_for : Key → Key
refid_for station =
    if eq_key station (119 ∷ 119 ∷ 118 ∷ 104 ∷ [])
    then 87 ∷ 87 ∷ 86 ∷ 72 ∷ []
    else if eq_key station (119 ∷ 119 ∷ 118 ∷ 98 ∷ [])
    then 87 ∷ 87 ∷ 86 ∷ 66 ∷ []
    else if eq_key station (100 ∷ 99 ∷ 102 ∷ 55 ∷ 55 ∷ [])
    then 68 ∷ 67 ∷ 70 ∷ []
    else if eq_key station (109 ∷ 115 ∷ 102 ∷ [])
    then 77 ∷ 83 ∷ 70 ∷ []
    else if eq_key station (97 ∷ 108 ∷ 108 ∷ 111 ∷ 117 ∷ 105 ∷ 115 ∷ [])
    then 84 ∷ 68 ∷ 70 ∷ []
    else wwv

abbrev pub max_stratum : ℤ
max_stratum = pos 15

-- std::clamp of an `int`.
abbrev pub clamp : ℤ → ℤ → ℤ → ℤ
clamp x lo hi = if ltb_ℤ x lo then lo else if ltb_ℤ hi x then hi else x

module _ {D : Type 0} where
  unfoldable pub any_radio : List (Candidate D) → Bool
  any_radio [] = false
  any_radio (k ∷ ks) = is_radio k.s.kind || any_radio ks

  -- `lowest`: 0 for a radio source, and never raised again by one after it.
  unfoldable pub lowest_from : ℤ → List (Candidate D) → ℤ
  lowest_from lowest [] = lowest
  lowest_from lowest (k ∷ ks) =
      lowest_from
        (if is_radio k.s.kind
          then pos 0
          else if ltb_ℤ k.s.ntp.stratum lowest
          then k.s.ntp.stratum
          else lowest)
        ks

  unfoldable pub stratum_of : List (Candidate D) → ℤ
  stratum_of survivors = clamp (lowest_from (pos 16) survivors +ℤ pos 1) (pos 1) max_stratum

  unfoldable pub any_primary : List (Candidate D) → Bool
  any_primary [] = false
  any_primary (k ∷ ks) = k.primary || any_primary ks

  unfoldable pub any_secondary : List (Candidate D) → Bool
  any_secondary [] = false
  any_secondary (k ∷ ks) = not k.primary || any_secondary ks

  unfoldable pub serving_of : List (Candidate D) → ServingClass
  serving_of survivors =
      if any_primary survivors && any_secondary survivors
      then both
      else if any_primary survivors
      then primary
      else secondary

  unfoldable pub all_leap_pending : List (Candidate D) → Bool
  all_leap_pending [] = true
  all_leap_pending (k ∷ ks) = k.s.leap_pending && all_leap_pending ks

module _ {D : Type 0} ⦃f : Double D⦄ where
  -- Half the path to an upstream; a radio source has none.
  unfoldable pub path_half : Candidate D → D
  path_half k =
      if is_radio k.s.kind
      then lit 0 0
      else div (add k.s.ntp.root_delay_sec k.s.ntp.delay_sec) (lit 2 0)

  -- `total += w * term` over the survivors.
  unfoldable pub weigh : (Candidate D → D) → D → List (Candidate D) → D
  weigh term total [] = total
  weigh term total (k ∷ ks) = weigh term (add total (mul (weight_of k) (term k))) ks

  unfoldable pub sum_weights : D → List (Candidate D) → D
  sum_weights total [] = total
  sum_weights total (k ∷ ks) = sum_weights (add total (weight_of k)) ks

  unfoldable pub spread_from : D → D → List (Candidate D) → D
  spread_from offset spread [] = spread
  spread_from offset spread (k ∷ ks) =
      spread_from offset (dmax spread (abs (sub k.offset offset))) ks

  -- The weighted mean of a term, or the first survivor's where no weight is positive.
  unfoldable pub mean_of : (Candidate D → D) → Candidate D → List (Candidate D) → D
  mean_of term k ks =
      let sw = sum_weights (lit 0 0) (k ∷ ks) in
      if lt (lit 0 0) sw then div (weigh term (lit 0 0) (k ∷ ks)) sw else term k

  unfoldable pub average_of : Candidate D → List (Candidate D) → Average D
  average_of k ks =
      let offset = mean_of (λ c. c.offset) k ks in
      let dispersion = add (mean_of (λ c. c.dist) k ks) (spread_from offset (lit 0 0) (k ∷ ks)) in
      record {
        offset = offset;
        dispersion = dispersion;
        off_path = sub dispersion (mean_of (λ c. dmin (path_half c) c.dist) k ks);
      }

  unfoldable pub newest_from : D → List (Candidate D) → D
  newest_from newest [] = newest
  newest_from newest (k ∷ ks) = newest_from (dmin newest k.s.offset_age_sec) ks

  -- `rw` and `rwx`.
  unfoldable pub rate_sums : D × D → List (Candidate D) → D × D
  rate_sums s [] = s
  rate_sums s (k ∷ ks) =
      let u = dmax k.s.offset_rate_uncertainty (lit 1 9) in
      rate_sums
        (if k.s.offset_rate_measured
          then (add s.0 (div (lit 1 0) (mul u u)), add s.1 (div k.s.offset_rate (mul u u)))
          else s)
        ks

  unfoldable pub rate_bound_from : D → List (Candidate D) → D
  rate_bound_from bound [] = bound
  rate_bound_from bound (k ∷ ks) = rate_bound_from (dmax bound k.s.offset_rate_uncertainty) ks

  unfoldable pub rate_spread_from : D → D → List (Candidate D) → D
  rate_spread_from rate spread [] = spread
  rate_spread_from rate spread (k ∷ ks) =
      rate_spread_from rate
        (if k.s.offset_rate_measured then dmax spread (abs (sub k.s.offset_rate rate)) else spread)
        ks

  unfoldable pub rate_of : Libm D → List (Candidate D) → RateEstimate D
  rate_of libm survivors =
      let sums = rate_sums (lit 0 0, lit 0 0) survivors in
      let measured = lt (lit 0 0) sums.0 in
      let rate = if measured then div sums.1 sums.0 else lit 0 0 in
      record {
        rate = rate;
        measured = measured;
        uncertainty =
            if measured
            then dmax (div (lit 1 0) (libm.sqrt sums.0)) (rate_spread_from rate (lit 0 0) survivors)
            else rate_bound_from (lit 0 0) survivors;
      }

  -- The candidate of the best quality, the first of equals.
  unfoldable pub tightest_from : Candidate D → List (Candidate D) → Candidate D
  tightest_from best [] = best
  tightest_from best (k ∷ ks) = tightest_from (if lt k.quality best.quality then k else best) ks

  unfoldable pub radios : List (Candidate D) → List (Candidate D)
  radios [] = []
  radios (k ∷ ks) = let rest = radios ks in if is_radio k.s.kind then k ∷ rest else rest

  -- `byStation`.
  unfoldable pub by_station : List (Key × D) → List (Candidate D) → List (Key × D)
  by_station m [] = m
  by_station m (k ∷ ks) =
      let so_far : D = elim (lookup k.s.station m) [ none ↦ lit 0 0 | some w ↦ w ] in
      by_station (insert k.s.station (add so_far (weight_of k)) m) ks

  unfoldable pub heaviest_from : Key → D → List (Key × D) → Key
  heaviest_from station best [] = station
  heaviest_from station best (kv ∷ m) =
      let more = lt best kv.1 in
      heaviest_from (if more then kv.0 else station) (if more then kv.1 else best) m

  -- The station of most weight, in the order of the std::map; the tightest receiver's on a tie.
  unfoldable pub station_of : Candidate D → List (Candidate D) → Key
  station_of k ks =
      let m = by_station [] (k ∷ ks) in
      let station = (tightest_from k ks).s.station in
      heaviest_from station (elim (lookup station m) [ none ↦ lit 0 0 | some w ↦ w ])
        (sort_by (λ (a b : Key × D). less_key a.0 b.0) m)

  -- The reference of a time that a radio source is part of; the list is that of the radio survivors.
  unfoldable pub radio_reference : D → List (Candidate D) → Reference D
  radio_reference dispersion radio_survivors = record {
    refid = elim radio_survivors [ [] ↦ wwv | ◌∷◌ k ks ↦ refid_for (station_of k ks) ];
    is_address = false;
    address = 0;
    root_delay_sec = lit 0 0;
    root_dispersion_sec = dispersion;
  }

  unfoldable pub upstream_reference : D → D → Candidate D → Reference D
  upstream_reference dispersion off_path tightest =
      let peer = tightest.s.ntp in
      let root_delay = add peer.root_delay_sec peer.delay_sec in
      record {
        refid = if is_empty peer.address_host then peer.server else peer.address_host;
        is_address = true;
        address = peer.address_refid;
        root_delay_sec = root_delay;
        root_dispersion_sec = dmax (sub dispersion (div root_delay (lit 2 0))) off_path;
      }

  unfoldable pub reference_of : Average D → Candidate D → List (Candidate D) → Reference D
  reference_of a k ks =
      if any_radio (k ∷ ks)
      then radio_reference a.dispersion (radios (k ∷ ks))
      else upstream_reference a.dispersion a.off_path (tightest_from k ks)
