-- ===== src/Server/Composed.antt =====
-- src/NtpServer.cpp with src/Selector.cpp: what the service says of the time that the selector gives it.
use ubersdr_ntp.Prelude.{◌≡◌, inl, inr, sym, subst, ◌∙◌, ap, true, false, List, Bool-cases}
use ubersdr_ntp.Prelude.Int.{ℤ}
use ubersdr_ntp.Prelude.Double.{Double}
use ubersdr_ntp.Prelude.Libm.{Libm}
use ubersdr_ntp.Prelude.{ℕ}
use ubersdr_ntp.Address.{SockAddr}
use ubersdr_ntp.Selector.{ClockConfig}
use ubersdr_ntp.Selector.Combined.{Combined, new_selector}
use ubersdr_ntp.Selector.Pass.{current}
use ubersdr_ntp.Selector.Strata.{Pass, IsServable, run_passes, current-IsServable}
use ubersdr_ntp.Server.{NtpServer, Field, count_field}
use ubersdr_ntp.Server.Serve.{Host, Reads, is_request, is_limited, admit, serve_one}
use ubersdr_ntp.Server.Honest.{Outcome, serve_one-honest}

module _ {D : Type 0} ⦃f : Double D⦄ (libm : Libm D) where
  -- A request within the limit, answered with the time of the selector after any passes from its start:
  -- if that is not synchronised, the answer has leap 3 and stratum 0, or there is none if so configured;
  -- if it is, the answer has its stratum, and no leap second but on the last day of a month, where the
  -- time warns of one and that is honoured.
  pub serve_one-current :
      (coast_seconds coast_drift_ppm : D) (min_sources : ℤ) (clock : ClockConfig D)
      (ps : List (Pass D)) (host : Host D) (s : NtpServer D) (from : SockAddr) (buf : List ℕ)
      (r : Reads D)
      → r.current
        ≡ current
            (run_passes libm (new_selector coast_seconds coast_drift_ppm min_sources clock) ps)
      → is_request buf ≡ true
      → is_limited (admit host (count_field s Field.requests r.at_request) from r).1 ≡ false
      → Outcome s.cfg r (serve_one host s from buf r).1
  serve_one-current coast_seconds coast_drift_ppm min_sources clock ps host s from buf r e request
        within =
      serve_one-honest host s from buf r request within (elim (Bool-cases r.current.synchronised) [
        | inr not_synchronised ↦ inl not_synchronised
        | inl synchronised ↦ inr (
            subst (λ (c : Combined D). IsServable c.stratum) (sym e)
              (current-IsServable libm coast_seconds coast_drift_ppm min_sources clock ps
                (sym (ap (λ (c : Combined D). c.synchronised) e) ∙ synchronised)))
      ])
