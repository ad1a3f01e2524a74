-- ===== src/Server/Packet.antt =====
-- src/NtpServer.cpp: the bytes of a reply and of a kiss-o'-death.
use ubersdr_ntp.Prelude.{
  ℕ, ◌+◌, ◌-◌, ◌*◌, ◌/◌, ◌%◌, ◌^◌, not, ◌&&◌, List, [], ◌∷◌, ◌++◌, get_or, take, drop, replicate,
  ltb, if◌then◌else◌,
}
use ubersdr_ntp.Prelude.Int.{ℤ, pos, negsuc, pos_part, neg_part, ◌-ℤ◌, ltb_ℤ}
use ubersdr_ntp.Prelude.Word.{to_u32}
use ubersdr_ntp.Prelude.Double.{Double, add, sub, mul, neg, lt, le, floor, lit, from_int}
use ubersdr_ntp.Prelude.Dict.{Key}
use ubersdr_ntp.Selector.{is_empty}
use ubersdr_ntp.Selector.Combined.{Combined, utc_at, wwv}
use ubersdr_ntp.Selector.Answer.{clamp}
use ubersdr_ntp.Instants.{is_last_day_of_month}
use ubersdr_ntp.Server.{NtpConfig, truncate}

pub record NtpTime : Type 0 where
  pub sec : ℕ
  pub frac : ℕ

-- The version and the mode of a packet's first byte.
abbrev pub version_of : ℕ → ℕ
version_of b = b / 8 % 8

abbrev pub mode_of : ℕ → ℕ
mode_of b = b % 8

-- `std::int8_t` of a byte, and back.
abbrev pub signed_byte : ℕ → ℤ
signed_byte b = if ltb b 128 then pos b else negsuc (255 - b)

abbrev pub byte_of : ℤ → ℕ
byte_of a = (pos_part a + (256 - neg_part a % 256)) % 256

unfoldable pub put32 : ℕ → List ℕ
put32 v = v / 2 ^ 24 % 256 ∷ v / 2 ^ 16 % 256 ∷ v / 2 ^ 8 % 256 ∷ v % 256 ∷ []

abbrev pub put_time : NtpTime → List ℕ
put_time t = put32 t.sec ++ put32 t.frac

-- The poll interval that the client asked for, within what the protocol defines.
unfoldable pub poll_byte : List ℕ → ℕ
poll_byte buf = byte_of (clamp (signed_byte (get_or buf 2 0)) (pos 4) (pos 17))

-- Eight bytes from byte 40 on: the client's transmit time.
abbrev pub client_transmit : List ℕ → List ℕ
client_transmit buf = take 8 (drop 40 buf)

abbrev pub rate_text : List ℕ
rate_text = 82 ∷ 65 ∷ 84 ∷ 69 ∷ []

abbrev pub init_text : List ℕ
init_text = 73 ∷ 78 ∷ 73 ∷ 84 ∷ []

-- The parts of a packet, one after another.
abbrev pub concat : List (List ℕ) → List ℕ
concat [] = []
concat (xs ∷ xss) = xs ++ concat xss

unfoldable pub kod_packet : ℕ → List ℕ → List ℕ
kod_packet precision buf =
    let first = 3 * 64 + version_of (get_or buf 0 0) * 8 + 4 in
    concat (
      (first ∷ 0 ∷ poll_byte buf ∷ precision ∷ [])
      ∷ replicate 4 0
      ∷ replicate 4 0
      ∷ rate_text
      ∷ replicate 8 0
      ∷ client_transmit buf
      ∷ client_transmit buf
      ∷ client_transmit buf
      ∷ [])

module _ {D : Type 0} ⦃f : Double D⦄ where
  -- Seconds from the year 1900 to 1970. A time before 1900, where C++ leaves the conversion undefined,
  -- does not occur.
  unfoldable pub to_ntp_time : D → NtpTime
  to_ntp_time unix_sec =
      let ntp = add unix_sec (lit 2_208_988_800 0) in
      let whole = floor ntp in
      let frac = sub ntp (from_int whole) in
      let frac1 = if lt frac (lit 0 0) then lit 0 0 else frac in
      let frac2 = if le (lit 1 0) frac1 then lit 9_999_999_999 10 else frac1 in
      record { sec = to_u32 whole; frac = to_u32 (floor (mul frac2 (lit 4_294_967_296 0))) }

  unfoldable pub to_short_format : D → ℕ
  to_short_format seconds =
      let s1 = if lt seconds (lit 0 0) then lit 0 0 else seconds in
      let s2 = if lt (lit 65535 0) s1 then lit 65535 0 else s1 in
      to_u32 (floor (mul s2 (lit 65536 0)))

  -- `clockPrecision`, with std::log2 a parameter.
  unfoldable pub clock_precision : (D → D) → D → ℕ
  clock_precision log2 resolution = byte_of (
      clamp (if lt (lit 0 0) resolution then pos 0 -ℤ floor (neg (log2 resolution)) else negsuc 19)
        (negsuc 19) (pos 0))

  -- What the broadcast warning makes of the leap indicator.
  unfoldable pub leap_of : NtpConfig → Combined D → D → ℕ
  leap_of cfg c recv =
      if not c.synchronised
      then 3
      else if c.leap_pending && cfg.honour_leap_warning
      then if is_last_day_of_month (truncate (mul (utc_at c recv) (lit 1000 0))) then 1 else 0
      else 0

  unfoldable pub stratum_byte : Combined D → ℕ
  stratum_byte c =
      if not c.synchronised
      then 0
      else byte_of (if ltb_ℤ (pos 0) c.stratum then c.stratum else pos 1)

  -- Four bytes: a kiss code, an address, or a name cut or filled to four.
  unfoldable pub refid_bytes : Combined D → List ℕ
  refid_bytes c =
      let name : Key = if is_empty c.refid then wwv else c.refid in
      if not c.valid
      then init_text
      else if c.refid_is_address
      then put32 c.refid_address
      else take 4 (name ++ replicate 4 0)

  unfoldable pub reference_bytes : Combined D → D → List ℕ
  reference_bytes c corrected =
      if c.valid then put_time (to_ntp_time (sub corrected c.age_sec)) else replicate 8 0

  -- A reply with the time: `recv` and `sent` are the daemon clock's at the receipt and at the sending.
  unfoldable pub reply_packet : NtpConfig → ℕ → Combined D → List ℕ → D → D → List ℕ
  reply_packet cfg precision c buf recv sent =
      let corrected = utc_at c recv in
      let first = leap_of cfg c recv * 64 + version_of (get_or buf 0 0) * 8 + 4 in
      concat (
        (first ∷ stratum_byte c ∷ poll_byte buf ∷ precision ∷ [])
        ∷ put32 (to_short_format c.root_delay_sec)
        ∷ put32 (to_short_format c.root_dispersion_sec)
        ∷ refid_bytes c
        ∷ reference_bytes c corrected
        ∷ client_transmit buf
        ∷ put_time (to_ntp_time corrected)
        ∷ put_time (to_ntp_time (utc_at c sent))
        ∷ [])
