-- ===== src/Peer/Poll.antt =====
-- src/NtpClient.cpp: `pollOnce`, one request and the wait for its answer.
use ubersdr_ntp.Prelude.{
  ℕ, ◌+◌, ◌/◌, ◌==◌, Bool, true, false, not, ◌&&◌, ◌||◌, List, [], ◌∷◌, Option, none, some, get_or,
  ltb, leb, if◌then◌else◌,
}
use ubersdr_ntp.Prelude.Int.{pos, ltb_ℤ}
use ubersdr_ntp.Prelude.Double.{Double, add, sub, mul, div, lt, le, lit, from_int, dmin, dmax}
use ubersdr_ntp.Prelude.Dict.{Key, eq_key}
use ubersdr_ntp.Prelude.Libm.{Libm}
use ubersdr_ntp.Selector.Answer.{clamp}
use ubersdr_ntp.Server.Packet.{signed_byte, rate_text}
use ubersdr_ntp.Server.Serve.{received_at}
use ubersdr_ntp.Peer.{
  NtpPeer, NtpPeerInfo, NtpSourceConfig, Sample, Reject, backoff_recover_after, count_up,
  close_socket,
}
use ubersdr_ntp.Peer.Wire.{
  PeerHost, read32, refid_text, kiss_text, is_answer, clock_precision_sec, interval,
  from_short_format, from_ntp_time,
}
use ubersdr_ntp.Peer.Connect.{Lookup, ensure_socket}
use ubersdr_ntp.Peer.Filter.{filter_add}

-- A datagram, with the daemon clock at its receipt and the kernel's stamps on that clock.
pub record Datagram (D : Type 0) : Type 0 where
  pub bytes : List ℕ
  pub read_at : D
  pub stamps : List D

-- What the wait meets before its deadline; a wait that only runs out has nothing more in its list.
pub data Arrival (D : Type 0) : Type 0 where
  datagram : Datagram D → Arrival D
  poll_error recv_error : Arrival D

-- What one poll reads from outside: the resolver, the nonce, the daemon clock before the send, whether
-- the send succeeds, what arrives, and the host's clock when the answer is read.
pub record PollReads (D : Type 0) : Type 0 where
  pub lookup : Lookup D
  pub nonce : ℕ
  pub t1 : D
  pub sent : Bool
  pub arrivals : List (Arrival D)
  pub approx : D

abbrev pub deny_text : Key
deny_text = 68 ∷ 69 ∷ 78 ∷ 89 ∷ []

abbrev pub rstr_text : Key
rstr_text = 82 ∷ 83 ∷ 84 ∷ 82 ∷ []

-- Whether an address is one of ours.
unfoldable pub is_local : ℕ → List ℕ → Bool
is_local r [] = false
is_local r (a ∷ rest) = a == r || is_local r rest

-- Two of the kiss codes mean stop for good.
unfoldable pub is_stop : Key → Bool
is_stop kiss = eq_key kiss deny_text || eq_key kiss rstr_text

module _ {D : Type 0} where
  unfoldable pub stop_for : NtpPeer D → Key → NtpPeer D
  stop_for p kiss =
      let info : NtpPeerInfo D = p.info in
      record p { info = record info { kiss_code = kiss; stopped = true } }

  abbrev pub note_kiss : NtpPeer D → Key → NtpPeer D
  note_kiss p kiss =
      let info : NtpPeerInfo D = p.info in record p { info = record info { kiss_code = kiss } }

-- One accepted measurement: what it says of the time, and of the server.
pub record Reading (D : Type 0) : Type 0 where
  pub offset : D
  pub delay : D
  pub dispersion : D
  pub root_delay : D
  pub root_dispersion : D
  pub root_distance : D
  pub server_precision : D

module _ {D : Type 0} ⦃f : Double D⦄ where
  -- Why an answer that is no kiss is refused, in the order of the tests.
  unfoldable pub refusal : NtpSourceConfig D → List ℕ → List ℕ → Reading D → Option (Reject D)
  refusal cfg local_addrs buf m =
      let stratum = get_or buf 1 0 in
      if get_or buf 0 0 / 64 == 3
      then some Reject.unsynchronised
      else if ltb_ℤ cfg.max_stratum (pos stratum)
      then some (Reject.stratum_past stratum)
      else if read32 buf 40 == 0 && read32 buf 44 == 0
      then some Reject.zero_transmit
      else if ltb 1 stratum && is_local (read32 buf 12) local_addrs
      then some (Reject.loop_to_us (refid_text buf stratum))
      else if lt (mul cfg.max_root_distance_ms (lit 1 3)) m.root_distance
      then some (Reject.root_distance_past m.root_distance)
      else none

  -- A backoff is walked back down after a clean run.
  unfoldable pub ease_backoff : NtpPeer D → NtpPeer D
  ease_backoff p =
      let half = div p.backoff_poll_sec (lit 2 0) in
      if lt (lit 0 0) p.backoff_poll_sec
      then if leb backoff_recover_after (p.good_run + 1)
        then record p {
          good_run = 0;
          backoff_poll_sec = if le half p.cfg.poll_seconds then lit 0 0 else half;
        }
        else record p { good_run = p.good_run + 1 }
      else p

  -- The count of the answers, and the one of the samples.
  unfoldable pub count_reply : NtpPeer D → NtpPeer D
  count_reply p =
      let info : NtpPeerInfo D = p.info in
      record p {
        consecutive_timeouts = 0;
        info = record info { received = count_up info.received };
      }

  unfoldable pub next_seq : NtpPeer D → NtpPeer D
  next_seq p = record p { seq = count_up p.seq }

  -- What an accepted answer says of the server.
  unfoldable pub note_reply : NtpPeer D → List ℕ → Reading D → NtpPeer D
  note_reply p buf m =
      let info : NtpPeerInfo D = p.info in
      let leap = get_or buf 0 0 / 64 in
      record p {
        leap_pending = leap == 1 || leap == 2;
        info = record info {
          stratum = get_or buf 1 0;
          refid = refid_text buf (get_or buf 1 0);
          leap = leap;
          root_delay_sec = m.root_delay;
          root_dispersion_sec = m.root_dispersion;
          server_precision_sec = m.server_precision;
          kiss_code = [];
        };
      }

  abbrev pub sample_of : ℕ → Reading D → D → Sample D
  sample_of seq m t4 = record {
    offset_sec = m.offset;
    delay_sec = m.delay;
    dispersion_sec = m.dispersion;
    at_sec = t4;
    seq = seq;
    valid = true;
  }

  unfoldable pub count_sent : NtpPeer D → NtpPeer D
  count_sent p =
      let info : NtpPeerInfo D = p.info in
      record p { info = record info { sent = count_up info.sent } }

  -- A poll counts as one that may be tried again soon only where it says so.
  unfoldable pub new_poll : NtpPeer D → NtpPeer D
  new_poll p = record p { retryable = false }

  abbrev pub time_out : NtpPeer D → NtpPeer D
  time_out p = record p { consecutive_timeouts = p.consecutive_timeouts + 1; retryable = true }

module _ {D : Type 0} ⦃f : Double D⦄ (libm : Libm D) where
  -- A kiss-o'-death RATE: no more burst, and twice the interval or the one asked for.
  unfoldable pub back_off : NtpPeer D → Key → List ℕ → NtpPeer D
  back_off p kiss buf =
      let asked = libm.pow (lit 2 0) (from_int (clamp (pos (get_or buf 2 0)) (pos 4) (pos 17))) in
      let noted : NtpPeer D = note_kiss p kiss in
      record noted {
        burst_left = 0;
        backoff_poll_sec = dmin (lit 1024 0) (dmax (mul (interval p) (lit 2 0)) asked);
        good_run = 0;
      }

  unfoldable pub take_kiss : NtpPeer D → List ℕ → NtpPeer D × Option (Reject D)
  take_kiss p buf =
      let kiss = kiss_text buf in
      if is_stop kiss
      then (stop_for p kiss, some (Reject.refused_us kiss))
      else if eq_key kiss rate_text
      then (back_off p kiss buf, some Reject.slower_poll)
      else (note_kiss p kiss, some (Reject.other_kiss kiss))

  -- From the count of the answer on, to the filter.
  unfoldable pub accept : NtpPeer D → List ℕ → Reading D → D → NtpPeer D
  accept p buf m t4 =
      let q = next_seq (note_reply (ease_backoff (count_reply p)) buf m) in
      filter_add libm q (sample_of q.seq m t4)

module _ {D : Type 0} ⦃f : Double D⦄ (libm : Libm D) (host : PeerHost D) where
  -- The offset and the delay of RFC 5905, and the distances.
  unfoldable pub reading_of : NtpSourceConfig D → List ℕ → D → D → D → Reading D
  reading_of cfg buf t1 t4 approx =
      let t2 = from_ntp_time buf 32 approx in
      let t3 = from_ntp_time buf 40 approx in
      let precision = clock_precision_sec host in
      let delay0 = sub (sub t4 t1) (sub t3 t2) in
      let min_delay = mul (lit 2 0) precision in
      let delay = if lt delay0 min_delay then min_delay else delay0 in
      let server_precision = libm.pow (lit 2 0) (from_int (signed_byte (get_or buf 3 0))) in
      let dispersion = add (add server_precision precision) (mul (lit 15 6) (sub t4 t1)) in
      let root_delay = from_short_format (read32 buf 4) in
      let root_dispersion = from_short_format (read32 buf 8) in
      record {
        offset =
            add (div (add (sub t2 t1) (sub t3 t4)) (lit 2 0))
              (div (mul cfg.extra_delay_ms (lit 1 3)) (lit 2 0));
        delay = delay;
        dispersion = dispersion;
        root_delay = root_delay;
        root_dispersion = root_dispersion;
        root_distance = add (add (div (add root_delay delay) (lit 2 0)) root_dispersion) dispersion;
        server_precision = server_precision;
      }

  -- From where the packet is this server's answer to this request.
  unfoldable pub take_answer : NtpPeer D → PollReads D → Datagram D → NtpPeer D × Option (Reject D)
  take_answer p r d =
      let t4 = received_at d.read_at d.stamps in
      let m = reading_of p.cfg d.bytes r.t1 t4 r.approx in
      if get_or d.bytes 1 0 == 0
      then take_kiss libm p d.bytes
      else elim (refusal p.cfg p.local_addrs d.bytes m) [
        | none ↦ (accept libm p d.bytes m t4, none)
        | some why ↦ (p, some why)
      ]

  -- The wait: what is not the answer is passed over.
  unfoldable pub wait_reply :
      NtpPeer D → PollReads D → List (Arrival D) → NtpPeer D × Option (Reject D)
  wait_reply p r [] = (time_out p, some Reject.no_reply)
  wait_reply p r (poll_error ∷ rest) = (close_socket p, some Reject.poll_failed)
  wait_reply p r (recv_error ∷ rest) = (close_socket p, some Reject.recv_failed)
  wait_reply p r (datagram d ∷ rest) =
      let later = wait_reply p r rest in
      if is_answer r.nonce d.bytes then take_answer p r d else later

  -- From the send on.
  unfoldable pub ask : NtpPeer D → PollReads D → NtpPeer D × Option (Reject D)
  ask p r =
      if not r.sent
      then (close_socket p, some Reject.send_failed)
      else wait_reply (count_sent p) r r.arrivals

  -- `pollOnce`: the state after it, and why it failed.
  unfoldable pub poll_once : NtpPeer D → PollReads D → NtpPeer D × Option (Reject D)
  poll_once p r =
      let (q, failed) = ensure_socket (new_poll p) r.lookup in
      elim failed [ none ↦ ask q r | some why ↦ (q, some why) ]
