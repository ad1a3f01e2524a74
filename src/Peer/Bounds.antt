-- ===== src/Peer/Bounds.antt =====
-- src/NtpClient.cpp: the bounds that a peer's counters keep, whatever the network does.
use ubersdr_ntp.Prelude.{ℕ, ◌≤◌, ◌<◌, ◌≡◌, List, [], ◌∷◌, Option, length, length-take, arith, Bool}
use ubersdr_ntp.Prelude.Double.{Double}
use ubersdr_ntp.Prelude.Libm.{Libm}
use ubersdr_ntp.Peer.{
  NtpPeer, NtpSourceConfig, Sample, Reject, filter_size, burst_count, max_quick_retries,
  spike_run_limit, backoff_recover_after, new_peer, shift_reach, drop_timing, close_socket,
  set_active, request_reacquire,
}
use ubersdr_ntp.Peer.Wire.{PeerHost}
use ubersdr_ntp.Peer.Connect.{
  Lookup, lookup_failed, connect_failed, note_lookup, move_to, connect_to, connect_peer,
  ensure_socket,
}
use ubersdr_ntp.Peer.Filter.{shift_in, shift_filter, hand_on, gate, note_filter, filter_add}
use ubersdr_ntp.Peer.Poll.{
  PollReads, stop_for, back_off, take_kiss, ease_backoff, note_reply, accept, take_answer,
  poll_once, count_reply, next_seq, count_sent, new_poll, time_out, Reading, Datagram,
}
use ubersdr_ntp.Peer.Cases.{filter_add_lem, take_answer_lem, wait_reply_lem, poll_once_lem}
use ubersdr_ntp.Peer.Loop.{
  PeerStep, a_round, made_active, asked_to_reacquire, RoundReads, note_poll, go_idle, come_back,
  start_over, look_up_again, next_wait, note_interval, end_round, poll_round, round, step,
  run_steps,
}

module _ {D : Type 0} where
  pub record IsBounded (p : NtpPeer D) : Type 0 where
    pub filter_is : length p.filter ≡ filter_size
    pub burst_in : p.burst_left ≤ burst_count
    pub quick_in : p.quick_retries ≤ max_quick_retries
    pub spike_in : p.spike_run < spike_run_limit
    pub good_in : p.good_run < backoff_recover_after
    pub reach_in : p.info.reach < 256

  length-shift_in :
      (s : Sample D) (xs : List (Sample D))
      → length xs ≡ filter_size
      → length (shift_in s xs) ≡ filter_size
  unfolding shift_in
  length-shift_in s xs h = ground (arith, length-take 7 xs)

module _ {D : Type 0} ⦃f : Double D⦄ where
  hand_on-IsBounded : (p : NtpPeer D) (s : Sample D) → IsBounded p → IsBounded (hand_on p s)
  unfolding hand_on
  hand_on-IsBounded p s h = ground arith

  gate-IsBounded : (p : NtpPeer D) (b s : Sample D) → IsBounded p → IsBounded (gate p b s)
  unfolding gate
  gate-IsBounded p b s h = ground (arith, hand_on-IsBounded p s h)

  note_filter-IsBounded :
      (libm : Libm D) (p : NtpPeer D) (b : Sample D)
      → IsBounded p
      → IsBounded (note_filter libm p b)
  unfolding note_filter
  note_filter-IsBounded libm p b h = ground arith

  shift_filter-IsBounded :
      (p : NtpPeer D) (s : Sample D) → IsBounded p → IsBounded (shift_filter p s)
  unfolding shift_filter
  shift_filter-IsBounded p s h = ground (arith, length-shift_in s p.filter h.filter_is)

  filter_add-IsBounded :
      (libm : Libm D) (p : NtpPeer D) (s : Sample D) → IsBounded p → IsBounded (filter_add libm p s)
  filter_add-IsBounded libm p s h =
      let kept = shift_filter-IsBounded p s h in
      filter_add_lem libm p s IsBounded (λ _. kept)
        (λ b. gate-IsBounded _ b s (note_filter-IsBounded libm (shift_filter p s) b kept))

  ease_backoff-IsBounded : (p : NtpPeer D) → IsBounded p → IsBounded (ease_backoff p)
  unfolding ease_backoff
  ease_backoff-IsBounded p h = ground arith

  count_reply-IsBounded : (p : NtpPeer D) → IsBounded p → IsBounded (count_reply p)
  unfolding count_reply
  count_reply-IsBounded p h = ground arith

  note_reply-IsBounded :
      (p : NtpPeer D) (buf : List ℕ) (m : Reading D)
      → IsBounded p
      → IsBounded (next_seq (note_reply p buf m))
  unfolding note_reply next_seq
  note_reply-IsBounded p buf m h = ground arith

  accept-IsBounded :
      (libm : Libm D) (p : NtpPeer D) (buf : List ℕ) (m : Reading D) (t4 : D)
      → IsBounded p
      → IsBounded (accept libm p buf m t4)
  unfolding accept
  accept-IsBounded libm p buf m t4 h =
      filter_add-IsBounded libm _ _
        (note_reply-IsBounded _ buf m (ease_backoff-IsBounded _ (count_reply-IsBounded p h)))

  take_kiss-IsBounded :
      (libm : Libm D) (p : NtpPeer D) (buf : List ℕ)
      → IsBounded p
      → IsBounded (take_kiss libm p buf).0
  unfolding take_kiss stop_for back_off
  take_kiss-IsBounded libm p buf h = ground arith

  connect_peer-IsBounded :
      (p : NtpPeer D) (l : Lookup D) → IsBounded p → IsBounded (connect_peer p l).0
  unfolding connect_peer lookup_failed connect_failed note_lookup move_to connect_to
  connect_peer-IsBounded p l h = ground arith

  note_poll-IsBounded :
      (p : NtpPeer D) (o : Option (Reject D)) → IsBounded p → IsBounded (note_poll p o)
  unfolding note_poll shift_reach
  note_poll-IsBounded p o h = ground arith

  come_back-IsBounded : (p : NtpPeer D) → IsBounded p → IsBounded (come_back p)
  unfolding come_back
  come_back-IsBounded p h = ground arith

  start_over-IsBounded : (p : NtpPeer D) → IsBounded p → IsBounded (start_over p)
  unfolding start_over drop_timing
  start_over-IsBounded p h = ground arith

  go_idle-IsBounded : (p : NtpPeer D) → IsBounded p → IsBounded (go_idle p)
  unfolding go_idle drop_timing
  go_idle-IsBounded p h = ground arith

  end_round-IsBounded : (p : NtpPeer D) → IsBounded p → IsBounded (end_round p).0
  unfolding end_round next_wait note_interval
  end_round-IsBounded p h = ground arith

  look_up_again-IsBounded :
      (p : NtpPeer D) (r : RoundReads D) → IsBounded p → IsBounded (look_up_again p r)
  unfolding look_up_again
  look_up_again-IsBounded p r h = ground (arith, connect_peer-IsBounded p r.again h)

  ensure_socket-IsBounded :
      (p : NtpPeer D) (l : Lookup D) → IsBounded p → IsBounded (ensure_socket p l).0
  unfolding ensure_socket
  ensure_socket-IsBounded p l h = ground (arith, connect_peer-IsBounded p l h)

  new_poll-IsBounded : (p : NtpPeer D) → IsBounded p → IsBounded (new_poll p)
  unfolding new_poll
  new_poll-IsBounded p h = ground arith

  count_sent-IsBounded : (p : NtpPeer D) → IsBounded p → IsBounded (count_sent p)
  unfolding count_sent
  count_sent-IsBounded p h = ground arith

module _ {D : Type 0} ⦃f : Double D⦄ (libm : Libm D) (host : PeerHost D) where
  take_answer-IsBounded :
      (p : NtpPeer D) (r : PollReads D) (d : Datagram D)
      → IsBounded p
      → IsBounded (take_answer libm host p r d).0
  take_answer-IsBounded p r d h =
      take_answer_lem libm host p r d (λ x. IsBounded x.0)
        (λ _. take_kiss-IsBounded libm p d.bytes h) (λ _. h)
        (λ _ _. accept-IsBounded libm p d.bytes _ _ h)

  close_socket-IsBounded : (p : NtpPeer D) → IsBounded p → IsBounded (close_socket p)
  close_socket-IsBounded p h = ground arith

  time_out-IsBounded : (p : NtpPeer D) → IsBounded p → IsBounded (time_out p)
  time_out-IsBounded p h = ground arith

  poll_once-IsBounded :
      (p : NtpPeer D) (r : PollReads D) → IsBounded p → IsBounded (poll_once libm host p r).0
  poll_once-IsBounded p r h =
      let kept = ensure_socket-IsBounded (new_poll p) r.lookup (new_poll-IsBounded p h) in
      let asked = count_sent-IsBounded _ kept in
      poll_once_lem libm host p r (λ x. IsBounded x.0) (λ _. kept)
        (λ _. close_socket-IsBounded _ kept)
        (wait_reply_lem libm host _ r r.arrivals (λ x. IsBounded x.0) (time_out-IsBounded _ asked)
          (λ _. close_socket-IsBounded _ asked) (λ d _. take_answer-IsBounded _ r d asked))

  poll_round-IsBounded :
      (p : NtpPeer D) (r : RoundReads D) → IsBounded p → IsBounded (poll_round libm host p r).0
  unfolding poll_round
  poll_round-IsBounded p r h = end_round-IsBounded _ (
      note_poll-IsBounded _ _ (
        poll_once-IsBounded _ r.poll
          (look_up_again-IsBounded _ r (start_over-IsBounded _ (come_back-IsBounded p h)))))

  step-IsBounded : (p : NtpPeer D) (s : PeerStep D) → IsBounded p → IsBounded (step libm host p s)
  unfolding round set_active request_reacquire
  step-IsBounded p (a_round r) h = ground (arith, go_idle-IsBounded p h, poll_round-IsBounded p r h)
  step-IsBounded p (made_active on) h = ground arith
  step-IsBounded p asked_to_reacquire h = ground arith

  steps-IsBounded :
      (ss : List (PeerStep D)) (p : NtpPeer D) → IsBounded p → IsBounded (run_steps libm host p ss)
  unfolding run_steps
  steps-IsBounded [] p h = h
  steps-IsBounded (s ∷ ss) p h = steps-IsBounded ss (step libm host p s) (step-IsBounded p s h)

  new_peer-IsBounded :
      (cfg : NtpSourceConfig D) (local_addrs : List ℕ) (literal : Bool)
      → IsBounded (new_peer cfg local_addrs literal)
  unfolding new_peer
  new_peer-IsBounded cfg local_addrs literal = ground arith

  -- Whatever the rounds of the poll loop meet and other threads ask for between them, from the start on:
  -- the filter has its 8 places, at most 6 packets of a burst and 2 quick retries in a row are to come,
  -- fewer than 3 spikes in a row have been dropped, fewer than 8 good replies are counted towards the
  -- end of a backoff, and the reach register is a byte.
  pub run_steps-IsBounded :
      (cfg : NtpSourceConfig D) (local_addrs : List ℕ) (literal : Bool) (ss : List (PeerStep D))
      → IsBounded (run_steps libm host (new_peer cfg local_addrs literal) ss)
  run_steps-IsBounded cfg local_addrs literal ss =
      steps-IsBounded ss (new_peer cfg local_addrs literal)
        (new_peer-IsBounded cfg local_addrs literal)
