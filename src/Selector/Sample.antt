-- ===== src/Selector/Sample.antt =====
-- A selector and its sources for the tests: two radio sources that agree and one that does not, in
-- millionths.
use ubersdr_ntp.Prelude.{ℕ, true, false, List, [], ◌∷◌}
use ubersdr_ntp.Prelude.Int.{pos}
use ubersdr_ntp.Prelude.Micros.{Micros, micros}
use ubersdr_ntp.Prelude.Libm.{Libm}
use ubersdr_ntp.Selector.{radio, standby, SourceSnapshot, ClockConfig}
use ubersdr_ntp.Selector.Combined.{Selector, new_selector}

abbrev pub libm : Libm Micros
libm = record { exp = λ x. pos 0; pow = λ x y. pos 1_000_000; sqrt = λ x. x }

abbrev pub source : ℕ → Micros → SourceSnapshot Micros
source n offset = record {
  name = n ∷ [];
  kind = radio;
  primary_class = true;
  ready = true;
  not_ready_reason = [];
  station = 87 ∷ 87 ∷ 86 ∷ [];
  leap_pending = false;
  have_offset = true;
  offset_sec = offset;
  offset_at_sec = pos 1_000_000_000;
  offset_rate = pos 0;
  offset_rate_uncertainty = pos 0;
  offset_rate_measured = true;
  offset_age_sec = pos 1_000_000;
  max_offset_age_sec = pos 0;
  offset_samples = pos 30;
  dispersion_sec = pos 2_000;
  weight_dispersion_sec = pos 0;
  weight = pos 1_000_000;
  ntp = record {
    server = [];
    address_host = [];
    address_refid = 0;
    stratum = pos 0;
    root_delay_sec = pos 0;
    delay_sec = pos 0;
  };
}

abbrev pub clock : ClockConfig Micros
clock = record {
  primary = radio;
  secondary = standby;
  failover_after_sec = pos 300_000_000;
  failback_after_sec = pos 600_000_000;
  min_secondary_sources = pos 1;
}

abbrev pub sel : Selector Micros
sel = new_selector (pos 3_600_000_000) (pos 1_000_000) (pos 1) clock

abbrev pub now : Micros
now = pos 1_001_000_000

abbrev pub snaps : List (SourceSnapshot Micros)
snaps = source 1 (pos 500) ∷ source 2 (pos 900) ∷ source 3 (pos 50_000) ∷ []
