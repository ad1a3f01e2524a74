-- ===== src/Selector/Combined.antt =====
-- src/Selector.h: the result of a pass, and the selector's state.
use ubersdr_ntp.Prelude.{ℕ, Bool, true, false, List, [], ◌∷◌, if◌then◌else◌}
use ubersdr_ntp.Prelude.Int.{ℤ, pos}
use ubersdr_ntp.Prelude.Double.{Double, add, sub, mul, lit}
use ubersdr_ntp.Prelude.Dict.{Key}
use ubersdr_ntp.Selector.{SourceKind, SecondaryMode, always, standby, cold, ClockConfig, Reason}

pub record SourceResidual (D : Type 0) : Type 0 where
  pub name : Key
  pub instant_sec : D
  pub averaged_sec : D
  pub peers : ℕ
  pub refused : Bool
  pub judged : Bool
  pub settled_for_sec : D
  pub kind : SourceKind

-- `None` is `nothing`.
pub data ServingClass : Type 0 where
  nothing primary secondary both coasting : ServingClass

pub record ClassDelta (D : Type 0) : Type 0 where
  pub valid : Bool
  pub instant_sec : D
  pub averaged_sec : D
  pub have_average : Bool
  pub settled_for_sec : D
  pub primary_sources : ℕ
  pub secondary_sources : ℕ

-- The texts of `servingNote` and `note`.
pub data Note (D : Type 0) : Type 0 where
  no_note : Note D
  secondary_not_ready : Note D
  failed_over : SourceKind → Note D
  coasting_no_lock : D → Note D
  coasting_no_agreement : D → Note D
  past_coast_limit : Note D
  no_timestamp_yet : Note D
  no_agreement : Note D

-- `refid`, `refidIsAddress` and `refidAddress` are one field each, as in the source.
pub record Combined (D : Type 0) : Type 0 where
  pub valid : Bool
  pub synchronised : Bool
  pub offset_sec : D
  pub at_sec : D
  pub rate : D
  pub rate_uncertainty : D
  pub rate_measured : Bool
  pub host_offset_sec : D
  pub dispersion_sec : D
  pub root_dispersion_sec : D
  pub age_sec : D
  pub used : ℕ
  pub candidates : ℕ
  pub stratum : ℤ
  pub root_delay_sec : D
  pub refid : Key
  pub refid_is_address : Bool
  pub refid_address : ℕ
  pub serving : ServingClass
  pub class_delta : ClassDelta D
  pub primary_candidates : ℕ
  pub secondary_candidates : ℕ
  pub failover_in_sec : D
  pub failback_in_sec : D
  pub serving_note : Note D
  pub leap_pending : Bool
  pub used_names : List Key
  pub rejected_names : List Key
  pub not_used_reasons : List (Key × Reason D)
  pub reacquire_names : List Key
  pub note : Note D
  pub residuals : List (SourceResidual D)

pub record ResidualState (D : Type 0) : Type 0 where
  pub averaged_sec : D
  pub last_at_sec : D
  pub first_at_sec : D
  pub refusal_logged : Bool
  pub seeded : Bool

pub record ReacquireState (D : Type 0) : Type 0 where
  pub refused_since_sec : D
  pub count : ℕ

pub record ClassDeltaState (D : Type 0) : Type 0 where
  pub seeded : Bool
  pub averaged_sec : D
  pub last_at_sec : D
  pub first_at_sec : D

-- `m_onSecondary` and what goes with it.
pub record Failover (D : Type 0) : Type 0 where
  pub on_secondary : Bool
  pub primary_lost_since : D
  pub primary_healthy_since : D
  pub secondary_active : Bool

-- `m_haveLast` and the `m_lastGood` fields.
pub record LastGood (D : Type 0) : Type 0 where
  pub have_last : Bool
  pub offset : D
  pub rate : D
  pub rate_uncertainty : D
  pub rate_measured : Bool
  pub dispersion : D
  pub root_dispersion : D
  pub at : D
  pub measured_at : D

pub record Selector (D : Type 0) : Type 0 where
  pub coast_seconds : D
  pub coast_drift_ppm : D
  pub min_sources : ℤ
  pub clock : ClockConfig D
  pub reacquire : List (Key × ReacquireState D)
  pub residual_avg : List (Key × ResidualState D)
  pub class_delta : ClassDeltaState D
  pub failover : Failover D
  pub last_good : LastGood D
  pub last : Combined D

-- "WWV".
abbrev pub wwv : Key
wwv = 87 ∷ 87 ∷ 86 ∷ []

abbrev pub is_cold : SecondaryMode → Bool
is_cold always = false
is_cold standby = false
is_cold cold = true

abbrev pub is_always : SecondaryMode → Bool
is_always always = true
is_always standby = false
is_always cold = false

module _ {D : Type 0} ⦃f : Double D⦄ where
  abbrev pub no_class_delta : ClassDelta D
  no_class_delta = record {
    valid = false;
    instant_sec = lit 0 0;
    averaged_sec = lit 0 0;
    have_average = false;
    settled_for_sec = lit 0 0;
    primary_sources = 0;
    secondary_sources = 0;
  }

  -- `Combined{}`.
  abbrev pub new_combined : Combined D
  new_combined = record {
    valid = false;
    synchronised = false;
    offset_sec = lit 0 0;
    at_sec = lit 0 0;
    rate = lit 0 0;
    rate_uncertainty = lit 0 0;
    rate_measured = false;
    host_offset_sec = lit 0 0;
    dispersion_sec = lit 0 0;
    root_dispersion_sec = lit 0 0;
    age_sec = lit 0 0;
    used = 0;
    candidates = 0;
    stratum = pos 1;
    root_delay_sec = lit 0 0;
    refid = wwv;
    refid_is_address = false;
    refid_address = 0;
    serving = nothing;
    class_delta = no_class_delta;
    primary_candidates = 0;
    secondary_candidates = 0;
    failover_in_sec = lit 0 0;
    failback_in_sec = lit 0 0;
    serving_note = no_note;
    leap_pending = false;
    used_names = [];
    rejected_names = [];
    not_used_reasons = [];
    reacquire_names = [];
    note = no_note;
    residuals = [];
  }

  abbrev pub new_class_delta : ClassDeltaState D
  new_class_delta = record {
    seeded = false;
    averaged_sec = lit 0 0;
    last_at_sec = lit 0 0;
    first_at_sec = lit 0 0;
  }

  abbrev pub new_failover : Bool → Failover D
  new_failover active = record {
    on_secondary = false;
    primary_lost_since = lit 0 0;
    primary_healthy_since = lit 0 0;
    secondary_active = active;
  }

  -- The constructor.
  unfoldable pub new_selector : D → D → ℤ → ClockConfig D → Selector D
  new_selector coast_seconds coast_drift_ppm min_sources clock = record {
    coast_seconds = coast_seconds;
    coast_drift_ppm = coast_drift_ppm;
    min_sources = min_sources;
    clock = clock;
    reacquire = [];
    residual_avg = [];
    class_delta = new_class_delta;
    failover = new_failover (if is_cold clock.secondary then false else true);
    last_good = record {
      have_last = false;
      offset = lit 0 0;
      rate = lit 0 0;
      rate_uncertainty = lit 0 0;
      rate_measured = false;
      dispersion = lit 0 0;
      root_dispersion = lit 0 0;
      at = lit 0 0;
      measured_at = lit 0 0;
    };
    last = new_combined;
  }

  -- `Combined::utcAt`.
  unfoldable pub utc_at : Combined D → D → D
  utc_at c daemon_sec = add (add daemon_sec c.offset_sec) (mul c.rate (sub daemon_sec c.at_sec))
