-- ===== src/Selector.antt =====
-- src/Selector.{h,cpp}: the sources' snapshots and the candidates that a pass makes of them. Only the
-- fields that the selector reads are here, and a text that it formats is a constructor of `Reason` or
-- `Note` with the numbers it prints. A name is the list of its bytes.
pub mod Combined
pub mod Residuals
pub mod Standby
pub mod Agree
pub mod Answer
pub mod Pass
pub mod Regions
pub mod Takeover
pub mod Refusals
pub mod Traced
pub mod Serves
pub mod Strata
pub mod Sample
mod Tests
use ubersdr_ntp.Prelude.{
  ℕ, ◌/◌, ◌%◌, ◌-◌, ◌==◌, Bool, true, false, not, ◌&&◌, ◌||◌, List, [], ◌∷◌, ◌++◌, map, length,
  get_or, if◌then◌else◌,
}
use ubersdr_ntp.Prelude.Int.{ℤ}
use ubersdr_ntp.Prelude.Double.{Double, add, sub, mul, lt, le, lit}
use ubersdr_ntp.Prelude.Dict.{Key, insert}
use ubersdr_ntp.Prelude.Sort.{sort_by}

pub data SourceKind : Type 0 where
  radio ntp : SourceKind

pub data SecondaryMode : Type 0 where
  always standby cold : SecondaryMode

pub record NtpPeerInfo (D : Type 0) : Type 0 where
  pub server : Key
  pub address_host : Key
  pub address_refid : ℕ
  pub stratum : ℤ
  pub root_delay_sec : D
  pub delay_sec : D

pub record SourceSnapshot (D : Type 0) : Type 0 where
  pub name : Key
  pub kind : SourceKind
  pub primary_class : Bool
  pub ready : Bool
  pub not_ready_reason : Key
  pub station : Key
  pub leap_pending : Bool
  pub have_offset : Bool
  pub offset_sec : D
  pub offset_at_sec : D
  pub offset_rate : D
  pub offset_rate_uncertainty : D
  pub offset_rate_measured : Bool
  pub offset_age_sec : D
  pub max_offset_age_sec : D
  pub offset_samples : ℤ
  pub dispersion_sec : D
  pub weight_dispersion_sec : D
  pub weight : D
  pub ntp : NtpPeerInfo D

pub record ClockConfig (D : Type 0) : Type 0 where
  pub primary : SourceKind
  pub secondary : SecondaryMode
  pub failover_after_sec : D
  pub failback_after_sec : D
  pub min_secondary_sources : ℤ

pub record Candidate (D : Type 0) : Type 0 where
  pub s : SourceSnapshot D
  pub offset : D
  pub dist : D
  pub quality : D
  pub weight : D
  pub primary : Bool

-- Why a source is not used: the texts of `notUsedReasons`.
pub data Reason (D : Type 0) : Type 0 where
  not_ready : Key → Reason D
  too_old : D → D → Reason D
  still_filtering : ℤ → Reason D
  no_dispersion : Reason D
  reacquiring : D → SourceKind → Reason D
  reacquiring_in : D → SourceKind → D → Reason D
  standing_by : SourceKind → Reason D
  taking_back_in : D → Reason D
  recovering : Reason D
  outside_majority : D → D → ℤ → Reason D
  no_majority : D → D → ℤ → Bool → Reason D
  too_few : ℕ → ℤ → Reason D

-- Whether a snapshot is a candidate, and why not.
pub data Eligibility (D : Type 0) : Type 0 where
  eligible : Eligibility D
  ineligible : Reason D → Eligibility D

pub record Gathered (D : Type 0) : Type 0 where
  pub primary_cand : List (Candidate D)
  pub secondary_cand : List (Candidate D)
  pub rejected_names : List Key
  pub not_used_reasons : List (Key × Reason D)

abbrev pub is_empty {ℓ} : {A : Type ℓ} → List A → Bool
is_empty [] = true
is_empty (x ∷ xs) = false

-- "not ready", where the source gives no reason of its own.
abbrev pub not_ready_text : Key
not_ready_text = 110 ∷ 111 ∷ 116 ∷ 32 ∷ 114 ∷ 101 ∷ 97 ∷ 100 ∷ 121 ∷ []

module _ {D : Type 0} ⦃f : Double D⦄ where
  abbrev pub candidate_max_age_sec : D
  candidate_max_age_sec = lit 180 0

  abbrev pub max_age_of : SourceSnapshot D → D
  max_age_of s =
      if lt (lit 0 0) s.max_offset_age_sec then s.max_offset_age_sec else candidate_max_age_sec

  unfoldable pub eligibility : SourceSnapshot D → Eligibility D
  eligibility s =
      if not s.ready
      then ineligible
          (not_ready (if is_empty s.not_ready_reason then not_ready_text else s.not_ready_reason))
      else if lt (max_age_of s) s.offset_age_sec
      then ineligible (too_old s.offset_age_sec (max_age_of s))
      else if not s.have_offset
      then ineligible (still_filtering s.offset_samples)
      else if le s.dispersion_sec (lit 0 0)
      then ineligible no_dispersion
      else eligible

  -- The candidate that an eligible snapshot makes: its offset carried to `now`, its interval and its
  -- quality widened by how far it may have drifted since.
  unfoldable pub candidate_of : D → D → SourceSnapshot D → Candidate D
  candidate_of coast_drift_ppm now s =
      let staleness =
        mul s.offset_age_sec (add (mul coast_drift_ppm (lit 1 6)) s.offset_rate_uncertainty) in
      record {
        s = s;
        offset = add s.offset_sec (mul s.offset_rate (sub now s.offset_at_sec));
        dist = add s.dispersion_sec staleness;
        quality =
            add
              (if lt (lit 0 0) s.weight_dispersion_sec
                then s.weight_dispersion_sec
                else s.dispersion_sec)
              staleness;
        weight = if lt (lit 0 0) s.weight then s.weight else lit 1 0;
        primary = s.primary_class;
      }

  abbrev pub refuse_source : Gathered D → SourceSnapshot D → Reason D → Gathered D
  refuse_source g s why = record g {
    rejected_names = g.rejected_names ++ (s.name ∷ []);
    not_used_reasons = insert s.name why g.not_used_reasons;
  }

  abbrev pub add_candidate : Gathered D → Candidate D → Gathered D
  add_candidate g k = record g {
    primary_cand = if k.primary then g.primary_cand ++ (k ∷ []) else g.primary_cand;
    secondary_cand = if k.primary then g.secondary_cand else g.secondary_cand ++ (k ∷ []);
  }

  unfoldable pub gather_one : D → D → Gathered D → SourceSnapshot D → Gathered D
  gather_one coast_drift_ppm now g s = elim (eligibility s) [
    | eligible ↦ add_candidate g (candidate_of coast_drift_ppm now s)
    | ineligible why ↦ refuse_source g s why
  ]

  -- The first loop of `combine`.
  unfoldable pub gather : D → D → Gathered D → List (SourceSnapshot D) → Gathered D
  gather coast_drift_ppm now g [] = g
  gather coast_drift_ppm now g (s ∷ ss) =
      gather coast_drift_ppm now (gather_one coast_drift_ppm now g s) ss

  -- `secondaryConfigured`.
  unfoldable pub is_secondary_configured : List (SourceSnapshot D) → Bool
  is_secondary_configured [] = false
  is_secondary_configured (s ∷ ss) = not s.primary_class || is_secondary_configured ss

  -- The middle offset, or the mean of the middle two.
  unfoldable pub median_offset : List (Candidate D) → D
  median_offset v =
      let all = sort_by lt (map (λ k. k.offset) v) in
      let mid = length all / 2 in
      if is_empty v
      then lit 0 0
      else if length all % 2 == 1
      then get_or all mid (lit 0 0)
      else mul (lit 5 1) (add (get_or all (mid - 1) (lit 0 0)) (get_or all mid (lit 0 0)))
