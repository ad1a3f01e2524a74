-- ===== src/Instants/Epoch.antt =====
-- The voter's minutes since 2000 and the daemon's Unix milliseconds count the same time.
use ubersdr_ntp.Prelude.{ℕ, ◌+◌, ◌<◌, ◌≡◌, refl, true, arith}
use ubersdr_ntp.Prelude.Int.{ℤ, pos, ◌+ℤ◌, ◌-ℤ◌, ◌*ℤ◌, ◌/ℤ◌, eqb_ℤ, int_laws, *ℤ_parts, pos-add}
use ubersdr_ntp.Prelude.Check.{holds_below, holds_below_at}
use ubersdr_ntp.Civil.{era, in_era, march_day, era_year_start, days_from_civil}
use ubersdr_ntp.Instants.{utc_ms_from_fields}
use ubersdr_ntp.Fields.{minutes_since_2000}
use ubersdr_ntp.Fields.Days.{fields, days_before, IsTime, minutes_since_2000_lem}

-- Days from 1970-01-01 to 2000-01-01.
abbrev days_to_2000 : ℕ
days_to_2000 = 10957

year_starts :
    holds_below 100
      (λ y. eqb_ℤ (days_from_civil (pos (2000 + y)) 1 1) (pos (days_to_2000 + days_before y)))
    ≡ true
unfolding holds_below days_from_civil era in_era march_day era_year_start ◌+ℤ◌ ◌-ℤ◌ ◌*ℤ◌ ◌/ℤ◌
year_starts = refl

eqb_ℤ-eq : (a : ℤ) (n : ℕ) → eqb_ℤ a (pos n) ≡ true → a ≡ pos n
eqb_ℤ-eq a n h = ground arith

year_start_lem :
    (y : ℕ) → y < 100 → days_from_civil (pos (2000 + y)) 1 1 ≡ pos (days_to_2000 + days_before y)
year_start_lem y h = eqb_ℤ-eq _ _ (
    holds_below_at 100
      (λ k. eqb_ℤ (days_from_civil (pos (2000 + k)) 1 1) (pos (days_to_2000 + days_before k))) y
      year_starts h)

-- `utcMsFromFields` of a valid time is its `minutesSince2000`, in milliseconds from 1970.
pub utc_ms_from_fields-minutes_since_2000 :
    (mi h d y : ℕ)
    → IsTime mi h d y
    → utc_ms_from_fields (pos y) (pos d) (pos h) (pos mi)
      ≡ (minutes_since_2000 (fields mi h d y) *ℤ pos 60 +ℤ pos 946684800) *ℤ pos 1000
unfolding utc_ms_from_fields
utc_ms_from_fields-minutes_since_2000 mi h d y v =
    rw (pos-add 2000 y, year_start_lem y v.4, minutes_since_2000_lem mi h d y v)
      (omega (int_laws, *ℤ_parts))
