-- ===== src/Peer/Wire.antt =====
-- src/NtpClient.cpp: the packets of a poll, the request's bytes and the fields of a reply.
use ubersdr_ntp.Prelude.{
  ℕ, zero, suc, ◌+◌, ◌*◌, ◌/◌, ◌%◌, ◌^◌, ◌==◌, Bool, true, false, not, ◌&&◌, ◌||◌, List, [], ◌∷◌,
  ◌++◌, get_or, length, replicate, ltb, leb, if◌then◌else◌,
}
use ubersdr_ntp.Prelude.Int.{ℤ, pos, negsuc, pos_part, ◌-ℤ◌}
use ubersdr_ntp.Prelude.Word.{mul32}
use ubersdr_ntp.Prelude.Double.{Double, add, sub, div, abs, neg, lt, floor, lit, from_int, dmax}
use ubersdr_ntp.Prelude.Dict.{Key}
use ubersdr_ntp.Address.{SockAddr, sockaddr_in, sockaddr_in6, sockaddr_other}
use ubersdr_ntp.Address.Label.{byte_text}
use ubersdr_ntp.Selector.Answer.{clamp}
use ubersdr_ntp.Server.{truncate}
use ubersdr_ntp.Server.Packet.{put32, byte_of, concat, version_of, mode_of}
use ubersdr_ntp.Server.Serve.{packet_size}
use ubersdr_ntp.Peer.{NtpPeer}

-- The C library's parts: std::log2, std::lround, and the resolution of the clock.
pub record PeerHost (D : Type 0) : Type 0 where
  pub log2 : D → D
  pub lround : D → ℤ
  pub resolution : D

-- `read32` at an index.
unfoldable pub read32 : List ℕ → ℕ → ℕ
read32 p i =
    get_or p i 0 * 2 ^ 24
    + get_or p (i + 1) 0 * 2 ^ 16
    + get_or p (i + 2) 0 * 2 ^ 8
    + get_or p (i + 3) 0

-- 0x20 to 0x7e.
abbrev pub is_printable : ℕ → Bool
is_printable c = leb 32 c && leb c 126

-- The printable ones of the bytes from an index, as many as there are to look at.
unfoldable pub printable_from : ℕ → List ℕ → ℕ → Key
printable_from zero p i = []
printable_from (suc left) p i =
    let rest = printable_from left p (i + 1) in
    if is_printable (get_or p i 0) then get_or p i 0 ∷ rest else rest

-- The first loop of `refidText`: null padding is passed over.
unfoldable pub all_printable : ℕ → List ℕ → ℕ → Bool
all_printable zero p i = true
all_printable (suc left) p i =
    (get_or p i 0 == 0 || is_printable (get_or p i 0)) && all_printable left p (i + 1)

-- A full stop.
abbrev pub dot : Key
dot = 46 ∷ []

unfoldable pub dotted : List ℕ → ℕ → Key
dotted p i =
    byte_text (get_or p i 0)
    ++ dot
    ++ byte_text (get_or p (i + 1) 0)
    ++ dot
    ++ byte_text (get_or p (i + 2) 0)
    ++ dot
    ++ byte_text (get_or p (i + 3) 0)

-- `refidText` and `kissText` of the four bytes from byte 12.
unfoldable pub refid_text : List ℕ → ℕ → Key
refid_text p stratum =
    if leb stratum 1 && all_printable 4 p 12 then printable_from 4 p 12 else dotted p 12

unfoldable pub kiss_text : List ℕ → Key
kiss_text p = printable_from 4 p 12

-- The exclusive or of two numbers, on as many bits.
unfoldable pub xor : ℕ → ℕ → ℕ → ℕ
xor zero a b = 0
xor (suc bits) a b = (a + b) % 2 + 2 * xor bits (a / 2) (b / 2)

-- The loop of `refidForPeer` over an IPv6 address: FNV-1a.
unfoldable pub fnv1a : ℕ → List ℕ → ℕ
fnv1a h [] = h
fnv1a h (b ∷ bs) = fnv1a (mul32 (xor 32 h b) 16_777_619) bs

-- `refidForPeer` of the address that the socket is connected to.
unfoldable pub refid_for_peer : SockAddr → ℕ
refid_for_peer (sockaddr_in b) = read32 b 0
refid_for_peer (sockaddr_in6 b) = fnv1a 2_166_136_261 b
refid_for_peer sockaddr_other = 0

-- The request: version 4, client mode, and the nonce in the transmit field.
unfoldable pub request_packet : ℕ → ℕ → ℕ → List ℕ
request_packet poll precision nonce = concat (
    ((4 * 8 + 3) ∷ 0 ∷ poll ∷ precision ∷ [])
    ∷ replicate 36 0
    ∷ put32 (nonce / 2 ^ 32)
    ∷ put32 (nonce % 2 ^ 32)
    ∷ [])

-- Whether a datagram is taken as the answer to the request, not passed over while the wait goes on.
unfoldable pub is_answer : ℕ → List ℕ → Bool
is_answer nonce p =
    let version = version_of (get_or p 0 0) in
    if ltb (length p) packet_size
    then false
    else if not (mode_of (get_or p 0 0) == 4)
    then false
    else if ltb version 3 || ltb 4 version
    then false
    else if not (read32 p 24 == nonce / 2 ^ 32) || not (read32 p 28 == nonce % 2 ^ 32)
    then false
    else true

module _ {D : Type 0} ⦃f : Double D⦄ where
  -- What `clockPrecisionSec` makes of the resolution.
  abbrev pub clock_precision_sec : PeerHost D → D
  clock_precision_sec host = if lt (lit 0 0) host.resolution then host.resolution else lit 1 6

  -- The interval in force: a backoff, or the configured one.
  abbrev pub interval : NtpPeer D → D
  interval p = if lt (lit 0 0) p.backoff_poll_sec then p.backoff_poll_sec else p.cfg.poll_seconds

  unfoldable pub request_poll : PeerHost D → NtpPeer D → ℕ
  request_poll host p =
      byte_of (clamp (host.lround (host.log2 (dmax (lit 1 0) (interval p)))) (pos 4) (pos 17))

  unfoldable pub request_precision : PeerHost D → ℕ
  request_precision host =
      byte_of
        (clamp (pos 0 -ℤ floor (neg (host.log2 (clock_precision_sec host)))) (negsuc 19) (pos 0))

  -- The request of a poll, with its nonce.
  abbrev pub request_of : PeerHost D → NtpPeer D → ℕ → List ℕ
  request_of host p nonce = request_packet (request_poll host p) (request_precision host) nonce

  unfoldable pub from_short_format : ℕ → D
  from_short_format v = div (from_int (pos v)) (lit 65536 0)

  -- `kEra`, and its half.
  abbrev pub era_sec : D
  era_sec = lit 4_294_967_296 0

  abbrev pub half_era : D
  half_era = div era_sec (lit 2 0)

  -- The two loops of `fromNtpTime`, each with as many rounds as the time is eras away, and one more.
  unfoldable pub eras_down : ℕ → D → D → D
  eras_down zero approx unix = unix
  eras_down (suc left) approx unix =
      let rest = eras_down left approx (sub unix era_sec) in
      if lt half_era (sub unix approx) then rest else unix

  unfoldable pub eras_up : ℕ → D → D → D
  eras_up zero approx unix = unix
  eras_up (suc left) approx unix =
      let rest = eras_up left approx (add unix era_sec) in
      if lt half_era (sub approx unix) then rest else unix

  abbrev pub eras_between : D → D → ℕ
  eras_between a b = pos_part (truncate (div (abs (sub a b)) era_sec)) + 1

  -- The time in the era nearest to the one that is roughly known.
  unfoldable pub nearest_era : D → D → D
  nearest_era approx unix =
      let down = eras_down (eras_between unix approx) approx unix in
      eras_up (eras_between down approx) approx down

  unfoldable pub from_ntp_time : List ℕ → ℕ → D → D
  from_ntp_time p i approx = nearest_era approx (
      add (sub (from_int (pos (read32 p i))) (lit 2_208_988_800 0))
        (div (from_int (pos (read32 p (i + 4)))) era_sec))
