-- ===== src/Nmea/Tests.antt =====
-- The RMC sentence of the leap second before January 1st 2017, at a place to the south-west.
use ubersdr_ntp.Prelude.{◌≡◌, true, some}
use ubersdr_ntp.Prelude.Int.{ℤ, pos, negsuc, ◌/ℤ◌}
use ubersdr_ntp.Prelude.Micros.{Micros, micros}
use ubersdr_ntp.Labeler.{PpsLabel}
use ubersdr_ntp.Nmea.{PpsPosition, rmc_body, nmea_rmc}
use ubersdr_ntp.Nmea.Verified.{read_sentence, read_sentence-nmea_rmc}

abbrev leap_second : PpsLabel
leap_second = record { posix = pos 1483228800; leap = true }

abbrev place : PpsPosition Micros
place = record { valid = true; lat = negsuc 33_500_000; lon = negsuc 70_600_000 }

abbrev round_micros : Micros → ℤ
round_micros x = x /ℤ pos 1_000_000

read_sentence-nmea_rmc_example :
    read_sentence (nmea_rmc round_micros (some leap_second) true place)
    ≡ some (rmc_body round_micros (some leap_second) true place)
read_sentence-nmea_rmc_example = read_sentence-nmea_rmc round_micros (some leap_second) true place
