-- ===== src/Instants.antt =====
-- src/CivilTime.h: instants as Unix milliseconds, and their fields.
use ubersdr_ntp.Prelude.{ℕ, ◌%◌, Bool, true, false, not, ◌&&◌, ◌==◌, differ, if◌then◌else◌}
pub mod Floor
pub mod LastDay
pub mod Host
pub mod Epoch
mod Tests
use ubersdr_ntp.Prelude.Int.{ℤ, pos, ◌+ℤ◌, ◌-ℤ◌, ◌*ℤ◌, ◌/ℤ◌, ◌%ℤ◌, ltb_ℤ, eqb_ℤ}
use ubersdr_ntp.Civil.{days_from_civil, civil_from_days}
use ubersdr_ntp.Fields.{TimeFields}

-- The C++ quotient, moved down where it was rounded up: a remainder and operands of unlike sign.
unfoldable pub floor_div : ℤ → ℤ → ℤ
floor_div a b =
    let q = a /ℤ b in
    if not (eqb_ℤ (a %ℤ b) (pos 0)) && differ (ltb_ℤ a (pos 0)) (ltb_ℤ b (pos 0))
    then q -ℤ pos 1
    else q

unfoldable pub floor_mod : ℤ → ℤ → ℤ
floor_mod a b = a -ℤ floor_div a b *ℤ b

unfoldable pub utc_ms_from_fields : ℤ → ℤ → ℤ → ℤ → ℤ
utc_ms_from_fields year2 doy hour minute =
    let days = days_from_civil (pos 2000 +ℤ year2) 1 1 +ℤ (doy -ℤ pos 1) in
    (days *ℤ pos 86400 +ℤ hour *ℤ pos 3600 +ℤ minute *ℤ pos 60) *ℤ pos 1000

unfoldable pub host_now_fields : ℤ → TimeFields
host_now_fields host_ms =
    let secs = floor_div host_ms (pos 1000) in
    let days = floor_div secs (pos 86400) in
    let rem = floor_mod secs (pos 86400) in
    let y = (civil_from_days days).year in
    record {
      minute = (rem /ℤ pos 60) %ℤ pos 60;
      hour = rem /ℤ pos 3600;
      doy = days -ℤ days_from_civil y 1 1 +ℤ pos 1;
      year2 = y %ℤ pos 100;
    }

unfoldable pub is_last_day_of_month : ℤ → Bool
is_last_day_of_month ms =
    let days = floor_div (floor_div ms (pos 1000)) (pos 86400) in
    not ((civil_from_days days).month == (civil_from_days (days +ℤ pos 1)).month)
