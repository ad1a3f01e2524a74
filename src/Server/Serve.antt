-- ===== src/Server/Serve.antt =====
-- src/NtpServer.cpp: the handling of one received packet, the body of the loop of `serve`. The address
-- that a reply is sent from and the log are left out; the counters' lock makes each `count` one step.
use ubersdr_ntp.Prelude.{
  ℕ, ◌==◌, Bool, true, false, not, ◌&&◌, ◌||◌, List, [], ◌∷◌, Option, none, some, get_or, length,
  ltb, if◌then◌else◌,
}
use ubersdr_ntp.Prelude.Double.{Double, sub, abs, lt, lit}
use ubersdr_ntp.Address.{Family, SockAddr, ip_addr_of}
use ubersdr_ntp.Limiter.{RateVerdict, answer, leak, kod, drop, check}
use ubersdr_ntp.Tally.{record_request}
use ubersdr_ntp.Selector.Combined.{Combined}
use ubersdr_ntp.Server.{NtpServer, Field, count_field}
use ubersdr_ntp.Server.Packet.{version_of, mode_of, clock_precision, kod_packet, reply_packet}

-- `kPacketSize`.
abbrev pub packet_size : ℕ
packet_size = 48

-- What one round of the loop reads from outside: the monotonic clock in each call that reads it, the
-- daemon clock, the kernel's receive stamps on the daemon clock, the selector, the random draw, and
-- whether sendmsg sends.
pub record Reads (D : Type 0) : Type 0 where
  pub at_request : D
  pub at_ignored : D
  pub now : D
  pub at_send_error : D
  pub at_outcome : D
  pub at_detail : D
  pub daemon_now : D
  pub stamps : List D
  pub daemon_sent : D
  pub current : Combined D
  pub draw : D
  pub sent : Bool

-- The C library's parts of a round: IN6_IS_ADDR_V4MAPPED, inet_ntop, std::log2, and the resolution of
-- the clock.
pub record Host (D : Type 0) : Type 0 where
  pub is_v4_mapped : List ℕ → Bool
  pub ntop : Family → List ℕ → List ℕ
  pub log2 : D → D
  pub resolution : D

unfoldable pub is_limited : RateVerdict → Bool
is_limited answer = false
is_limited leak = false
is_limited kod = true
is_limited drop = true

-- Whether a packet is one that the service answers.
unfoldable pub is_request : List ℕ → Bool
is_request buf =
    let version = version_of (get_or buf 0 0) in
    if ltb (length buf) packet_size
    then false
    else if not (mode_of (get_or buf 0 0) == 3)
    then false
    else if ltb version 1 || ltb 4 version
    then false
    else true

module _ {D : Type 0} ⦃f : Double D⦄ where
  -- The receipt on the daemon clock: the kernel's stamp, unless it is a second or more away.
  unfoldable pub received_at : D → List D → D
  received_at recv [] = recv
  received_at recv (stamp ∷ stamps) =
      received_at (if lt (abs (sub stamp recv)) (lit 1 0) then stamp else recv) stamps

  abbrev pub ignore : NtpServer D → D → NtpServer D × Option (List ℕ)
  ignore s at = (count_field s Field.ignored at, none)

  -- `reply`: what is left of the state once the packet is out, or is not.
  unfoldable pub send : NtpServer D → Reads D → NtpServer D
  send s r = if r.sent then s else count_field s Field.send_errors r.at_send_error

  unfoldable pub drop_request : NtpServer D → Reads D → NtpServer D × Option (List ℕ)
  drop_request s r = (count_field s Field.rate_limited r.at_outcome, none)

  unfoldable pub send_kod : Host D → NtpServer D → List ℕ → Reads D → NtpServer D × Option (List ℕ)
  send_kod host s buf r =
      let limited = count_field (send s r) Field.rate_limited r.at_outcome in
      (
        if r.sent then count_field limited Field.kod_sent r.at_detail else limited,
        some (kod_packet (clock_precision host.log2 host.resolution) buf),
      )

  unfoldable pub count_answer : NtpServer D → Reads D → NtpServer D
  count_answer s r =
      let answered = count_field s Field.answered r.at_outcome in
      if not r.sent
      then s
      else if not r.current.synchronised
      then count_field answered Field.unsynchronised r.at_detail
      else answered

  unfoldable pub send_time : Host D → NtpServer D → List ℕ → Reads D → NtpServer D × Option (List ℕ)
  send_time host s buf r =
      let recv = received_at r.daemon_now r.stamps in
      if not r.current.synchronised && not s.cfg.answer_when_unsynchronised
      then ignore s r.at_outcome
      else (
        count_answer (send s r) r,
        some (
            reply_packet s.cfg (clock_precision host.log2 host.resolution) r.current buf recv
              r.daemon_sent),
      )

  unfoldable pub act_on :
      Host D → NtpServer D → RateVerdict → List ℕ → Reads D → NtpServer D × Option (List ℕ)
  act_on host s drop buf r = drop_request s r
  act_on host s kod buf r = send_kod host s buf r
  act_on host s answer buf r = send_time host s buf r
  act_on host s leak buf r = send_time host s buf r

  -- The limiter and the tally, on a packet that is a request: the state after them, and the verdict.
  unfoldable pub admit : Host D → NtpServer D → SockAddr → Reads D → NtpServer D × RateVerdict
  admit host s from r =
      let a = ip_addr_of host.is_v4_mapped from in
      let (limiter, verdict) = check s.limiter a r.now r.draw in
      (
        record s {
          limiter = limiter;
          tally = record_request host.ntop s.tally a r.now (is_limited verdict);
        },
        verdict,
      )

  -- The round: the state after it, and the packet that it sends.
  unfoldable pub serve_one :
      Host D → NtpServer D → SockAddr → List ℕ → Reads D → NtpServer D × Option (List ℕ)
  serve_one host s from buf r =
      let counted = count_field s Field.requests r.at_request in
      let admitted = admit host counted from r in
      if is_request buf
      then act_on host admitted.0 admitted.1 buf r
      else ignore counted r.at_ignored
