-- ===== src/Nmea.antt =====
-- src/Pps.{h,cpp}: the NMEA sentences. A text is the list of its characters' codes. A number stands in
-- the width of its format, which those that occur fit: two digits, four of a year, two or three of
-- degrees. std::llround is a parameter.
pub mod Verified
mod Tests
use ubersdr_ntp.Prelude.{
  ℕ, ◌+◌, ◌-◌, ◌*◌, ◌/◌, ◌%◌, Bool, true, false, List, [], ◌∷◌, ◌++◌, Option, none, some, ltb,
  if◌then◌else◌,
}
use ubersdr_ntp.Prelude.Int.{ℤ, pos, pos_part, ◌-ℤ◌, ◌%ℤ◌}
use ubersdr_ntp.Prelude.Double.{Double, mul, abs, lt, lit}
use ubersdr_ntp.Prelude.Dict.{Key}
use ubersdr_ntp.Civil.{CivilDate, civil_from_days}
use ubersdr_ntp.Instants.{floor_div, floor_mod}
use ubersdr_ntp.Server.Packet.{concat}
use ubersdr_ntp.Labeler.{PpsLabel}
use ubersdr_ntp.Peer.Wire.{xor}

pub record PpsPosition (D : Type 0) : Type 0 where
  pub valid : Bool
  pub lat : D
  pub lon : D

pub record CivilTime : Type 0 where
  pub date : CivilDate
  pub hh : ℕ
  pub mi : ℕ
  pub ss : ℕ

-- The code of the last decimal digit of a number.
abbrev pub digit : ℕ → ℕ
digit n = 48 + n % 10

abbrev pub two : ℕ → Key
two v = digit (v / 10) ∷ digit v ∷ []

abbrev pub four : ℕ → Key
four v = two (v / 100) ++ two v

-- A digit of "%02X".
abbrev pub hex_digit : ℕ → ℕ
hex_digit n = if ltb n 10 then 48 + n else 55 + n

-- The loop of `nmeaChecksum`, from an initial value.
unfoldable pub xor_of : ℕ → Key → ℕ
xor_of x [] = x
xor_of x (ch ∷ body) = xor_of (xor 8 x ch) body

unfoldable pub nmea_checksum : Key → Key
nmea_checksum body = let x = xor_of 0 body in hex_digit (x / 16) ∷ hex_digit (x % 16) ∷ []

unfoldable pub nmea_sentence : Key → Key
nmea_sentence body = 36 ∷ body ++ (42 ∷ nmea_checksum body ++ (13 ∷ 10 ∷ []))

-- `civilOf`: the leap second is 23:59:60 of the day before.
unfoldable pub civil_of : PpsLabel → CivilTime
civil_of t =
    let s = if t.leap then t.posix -ℤ pos 1 else t.posix in
    let rem = pos_part (floor_mod s (pos 86400)) in
    record {
      date = civil_from_days (floor_div s (pos 86400));
      hh = rem / 3600;
      mi = rem / 60 % 60;
      ss = if t.leap then 60 else rem % 60;
    }

-- With ".00" after it.
unfoldable pub hhmmss : CivilTime → Key
hhmmss c = two c.hh ++ two c.mi ++ two c.ss ++ (46 ∷ 48 ∷ 48 ∷ [])

abbrev pub comma : Key
comma = 44 ∷ []

-- "GPZDA," and so on.
abbrev pub zda_fields : PpsLabel → List Key
zda_fields t =
    let c = civil_of t in
    ((71 ∷ 80 ∷ 90 ∷ 68 ∷ 65 ∷ 44 ∷ [])
      ∷ hhmmss c
      ∷ comma
      ∷ two c.date.day
      ∷ comma
      ∷ two c.date.month
      ∷ comma
      ∷ four (pos_part c.date.year)
      ∷ (44 ∷ 48 ∷ 48 ∷ 44 ∷ 48 ∷ 48 ∷ [])
      ∷ [])

unfoldable pub zda_body : PpsLabel → Key
zda_body t = concat (zda_fields t)

unfoldable pub nmea_zda : PpsLabel → Key
nmea_zda t = nmea_sentence (zda_body t)

-- The time and the date of RMC, both empty without a label.
unfoldable pub rmc_time : Option PpsLabel → Key
rmc_time none = []
rmc_time (some t) = hhmmss (civil_of t)

unfoldable pub rmc_date : Option PpsLabel → Key
rmc_date none = []
rmc_date (some t) =
    let c = civil_of t in
    two c.date.day ++ two c.date.month ++ two (pos_part (c.date.year %ℤ pos 100))

module _ {D : Type 0} ⦃f : Double D⦄ (llround : D → ℤ) where
  -- `nmeaAngle`, with the third digit of the degrees where that is wanted.
  unfoldable pub nmea_angle : D → Bool → Key
  nmea_angle deg wide =
      let u = pos_part (llround (mul (mul (abs deg) (lit 60 0)) (lit 10000 0))) in
      let d = u / 600000 in
      let m = u % 600000 in
      (if wide then digit (d / 100) ∷ [] else [])
      ++ two d
      ++ two (m / 10000)
      ++ (46 ∷ [])
      ++ four (m % 10000)

  -- The four fields of the position, empty where it is not known.
  abbrev pub position_fields : PpsPosition D → List Key
  position_fields p =
      nmea_angle p.lat false
      ∷ (44 ∷ (if lt p.lat (lit 0 0) then 83 else 78) ∷ 44 ∷ [])
      ∷ nmea_angle p.lon true
      ∷ (44 ∷ (if lt p.lon (lit 0 0) then 87 else 69) ∷ [])
      ∷ []

  unfoldable pub rmc_position : PpsPosition D → Key
  rmc_position p = if p.valid then concat (position_fields p) else 44 ∷ 44 ∷ 44 ∷ []

  -- "GPRMC," and so on.
  abbrev pub rmc_fields : Option PpsLabel → Bool → PpsPosition D → List Key
  rmc_fields t valid p =
      ((71 ∷ 80 ∷ 82 ∷ 77 ∷ 67 ∷ 44 ∷ [])
        ∷ rmc_time t
        ∷ (44 ∷ (if valid then 65 else 86) ∷ 44 ∷ [])
        ∷ rmc_position p
        ∷ comma
        ∷ (if valid then 48 ∷ 46 ∷ 48 ∷ [] else [])
        ∷ (44 ∷ 44 ∷ [])
        ∷ rmc_date t
        ∷ (44 ∷ 44 ∷ 44 ∷ (if valid then 77 else 78) ∷ [])
        ∷ [])

  unfoldable pub rmc_body : Option PpsLabel → Bool → PpsPosition D → Key
  rmc_body t valid p = concat (rmc_fields t valid p)

  unfoldable pub nmea_rmc : Option PpsLabel → Bool → PpsPosition D → Key
  nmea_rmc t valid p = nmea_sentence (rmc_body t valid p)
