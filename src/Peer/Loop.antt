-- ===== src/Peer/Loop.antt =====
-- src/NtpClient.cpp: `run`, the poll loop, a round at a time, and how ready `snapshot` says a peer is.
use ubersdr_ntp.Prelude.{
  ℕ, ◌+◌, ◌-◌, ◌==◌, Bool, true, false, not, ◌&&◌, ◌||◌, List, [], ◌∷◌, Option, none, some, ltb,
  leb, if◌then◌else◌,
}
use ubersdr_ntp.Prelude.Double.{Double, le, lit}
use ubersdr_ntp.Prelude.Libm.{Libm}
use ubersdr_ntp.Peer.{
  NtpPeer, NtpPeerInfo, Reject, LinkState, burst_count, max_quick_retries, reresolve_after_timeouts,
  count_up, shift_reach, close_socket, drop_timing, set_active, request_reacquire,
}
use ubersdr_ntp.Peer.Wire.{PeerHost, interval}
use ubersdr_ntp.Peer.Connect.{Lookup, connect_peer}
use ubersdr_ntp.Peer.Poll.{PollReads, poll_once}

-- What a round reads: the lookup before the poll, where one is due, and the poll's.
pub record RoundReads (D : Type 0) : Type 0 where
  pub now : D
  pub again : Lookup D
  pub poll : PollReads D

module _ {D : Type 0} where
  -- What a poll leaves in the reach register and in the status.
  unfoldable pub note_poll : NtpPeer D → Option (Reject D) → NtpPeer D
  note_poll p none =
      let info : NtpPeerInfo D = p.info in
      record p {
        link = LinkState.streaming;
        info = record info { reach = shift_reach info.reach true; last_reject_reason = none };
      }
  note_poll p (some why) =
      let info : NtpPeerInfo D = p.info in
      let reach = shift_reach info.reach false in
      record p {
        link = if reach == 0 then LinkState.backoff else p.link;
        info = record info {
          reach = reach;
          rejected = count_up info.rejected;
          last_reject_reason = some why;
        };
      }

  -- The readiness in `snapshot`, with whether the estimator has an offset.
  unfoldable pub is_ready : NtpPeer D → Bool → Bool
  is_ready p have_offset =
      p.cfg.enabled && p.active && not p.info.stopped && not (p.info.reach == 0) && have_offset

module _ {D : Type 0} ⦃f : Double D⦄ where
  -- Into cold standby.
  unfoldable pub go_idle : NtpPeer D → NtpPeer D
  go_idle p =
      let dropped : NtpPeer D = drop_timing (close_socket p) in
      let info : NtpPeerInfo D = dropped.info in
      if p.was_inactive then p else record dropped {
        was_inactive = true;
        link = LinkState.idle;
        info = record info { reach = 0 };
      }

  -- Out of it, bursting.
  unfoldable pub come_back : NtpPeer D → NtpPeer D
  come_back p =
      if p.was_inactive
      then record p { was_inactive = false; burst_left = burst_count; backoff_poll_sec = lit 0 0 }
      else p

  unfoldable pub start_over : NtpPeer D → NtpPeer D
  start_over p =
      let dropped : NtpPeer D = drop_timing (close_socket p) in
      if p.reacquire then record dropped { reacquire = false; burst_left = burst_count } else p

  -- Another lookup, where the name's time is up or the peer has gone quiet.
  unfoldable pub look_up_again : NtpPeer D → RoundReads D → NtpPeer D
  look_up_again p r =
      let looked : NtpPeer D = (connect_peer p r.again).0 in
      if p.is_open
        && (leb reresolve_after_timeouts p.consecutive_timeouts || le p.resolve_due_at r.now)
      then record looked { consecutive_timeouts = 0 }
      else p

  -- How long until the next round, and what that is counted in.
  unfoldable pub next_wait : NtpPeer D → NtpPeer D × D
  next_wait p =
      if ltb 0 p.burst_left
      then (record p { burst_left = p.burst_left - 1 }, lit 2 0)
      else if p.retryable
          && le p.backoff_poll_sec (lit 0 0)
          && not (p.info.reach == 0)
          && ltb p.quick_retries max_quick_retries
      then (record p { quick_retries = p.quick_retries + 1 }, lit 2 0)
      else (record p { quick_retries = 0 }, interval p)

  unfoldable pub note_interval : NtpPeer D → NtpPeer D
  note_interval p =
      let info : NtpPeerInfo D = p.info in record p { info = record info { poll_sec = interval p } }

  -- The end of a round: a peer that was told to stop waits half a minute.
  unfoldable pub end_round : NtpPeer D → NtpPeer D × D
  end_round p =
      if p.info.stopped then (p, lit 30 0) else (note_interval (next_wait p).0, (next_wait p).1)

module _ {D : Type 0} ⦃f : Double D⦄ (libm : Libm D) (host : PeerHost D) where
  -- An active round: the state after it, how the poll went, and how long the wait is.
  unfoldable pub poll_round : NtpPeer D → RoundReads D → NtpPeer D × (Option (Reject D) × D)
  poll_round p r =
      let (q, failed) = poll_once libm host (look_up_again (start_over (come_back p)) r) r.poll in
      let (after, wait) = end_round (note_poll q failed) in (after, (failed, wait))

  -- A round of the loop: the state after it, and the wait, which any change of the flags cuts short.
  unfoldable pub round : NtpPeer D → RoundReads D → NtpPeer D × D
  round p r =
      let (after, (failed, wait)) = poll_round p r in
      if not p.active then (go_idle p, lit 1 0) else (after, wait)

-- The rounds, and what other threads do between them.
pub data PeerStep (D : Type 0) : Type 0 where
  a_round : RoundReads D → PeerStep D
  made_active : Bool → PeerStep D
  asked_to_reacquire : PeerStep D

module _ {D : Type 0} ⦃f : Double D⦄ (libm : Libm D) (host : PeerHost D) where
  abbrev pub step : NtpPeer D → PeerStep D → NtpPeer D
  step p (a_round r) = (round libm host p r).0
  step p (made_active on) = set_active p on
  step p asked_to_reacquire = request_reacquire p

  unfoldable pub run_steps : NtpPeer D → List (PeerStep D) → NtpPeer D
  run_steps p [] = p
  run_steps p (s ∷ ss) = run_steps (step p s) ss

-- Whether a poll was accepted, as a number.
abbrev pub accepted_in : {D : Type 0} → Option (Reject D) → ℕ
accepted_in none = 1
accepted_in (some why) = 0

module _ {D : Type 0} ⦃f : Double D⦄ (libm : Libm D) (host : PeerHost D) where
  -- Polls in a row: the state after them, and how many were accepted.
  unfoldable pub poll_all : NtpPeer D → List (PollReads D) → NtpPeer D × ℕ
  poll_all p [] = (p, 0)
  poll_all p (r ∷ rs) =
      let (q, failed) = poll_once libm host p r in
      let (last, n) = poll_all q rs in (last, accepted_in failed + n)
