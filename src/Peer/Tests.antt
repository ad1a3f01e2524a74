-- ===== src/Peer/Tests.antt =====
-- A peer of one server, on times in millionths.
use ubersdr_ntp.Prelude.{
  ℕ, ◌≡◌, ◌≤◌, ◌+◌, ◌*◌, refl, true, false, none, some, List, [], ◌∷◌, ◌++◌, length, replicate,
  arith,
}
use ubersdr_ntp.Prelude.Int.{pos, ◌+ℤ◌, ◌-ℤ◌, ◌*ℤ◌, ◌/ℤ◌, ◌%ℤ◌}
use ubersdr_ntp.Prelude.Micros.{Micros, micros}
use ubersdr_ntp.Prelude.Sort.{insert_sorted, sort_by}
use ubersdr_ntp.Prelude.Dict.{eq_key}
use ubersdr_ntp.Address.{sockaddr_in, sockaddr_in6}
use ubersdr_ntp.Address.Label.{byte_text}
use ubersdr_ntp.Server.Packet.{put32}
use ubersdr_ntp.Server.Serve.{received_at}
use ubersdr_ntp.Selector.Sample.{libm}
use ubersdr_ntp.Peer.{NtpPeer, NtpSourceConfig, Reject}
use ubersdr_ntp.Peer.Wire.{PeerHost}
use ubersdr_ntp.Peer.Connect.{Lookup, Resolved}
use ubersdr_ntp.Peer.Poll.{PollReads, Datagram, datagram}
use ubersdr_ntp.Peer.Loop.{PeerStep, RoundReads, a_round, made_active, asked_to_reacquire}
use ubersdr_ntp.Peer.Bounds.{IsBounded, run_steps-IsBounded}
use ubersdr_ntp.Peer.Handed.{poll_all-handed}
use ubersdr_ntp.Peer.Accepted.{IsTaken, poll_once-Taken, poll_once-failed}
use ubersdr_ntp.Peer.{shift_reach, new_peer, drop_timing, set_active, request_reacquire}
use ubersdr_ntp.Peer.Wire.{
  read32, printable_from, all_printable, dotted, refid_text, kiss_text, xor, fnv1a, refid_for_peer,
  request_packet, is_answer, request_poll, request_precision, from_short_format, eras_down, eras_up,
  nearest_era, from_ntp_time,
}
use ubersdr_ntp.Peer.Connect.{
  has_text, first_connecting, look_again, lookup_failed, connect_failed, note_lookup, move_to,
  connect_to, connect_peer, ensure_socket,
}
use ubersdr_ntp.Peer.Filter.{
  shift_in, valid_delays, best_sample, sum_squares, filter_jitter, clean_spread, is_spike, hand_on,
  gate, note_filter, shift_filter, filter_add,
}
use ubersdr_ntp.Peer.Poll.{
  is_local, is_stop, stop_for, refusal, ease_backoff, count_reply, next_seq, note_reply, count_sent,
  new_poll, back_off, take_kiss, accept, reading_of, take_answer, wait_reply, ask, poll_once,
}
use ubersdr_ntp.Peer.Loop.{
  note_poll, is_ready, go_idle, come_back, start_over, look_up_again, next_wait, note_interval,
  end_round, poll_round, round, run_steps, poll_all,
}

methods : Unit {0}
unfolding ◌+ℤ◌ ◌-ℤ◌ ◌*ℤ◌ ◌/ℤ◌ ◌%ℤ◌ insert_sorted sort_by eq_key byte_text put32 received_at accept
    all_printable ask back_off best_sample clean_spread come_back connect_failed connect_peer
    connect_to count_reply count_sent dotted drop_timing ease_backoff end_round ensure_socket
    eras_down eras_up filter_add filter_jitter first_connecting fnv1a from_ntp_time
    from_short_format gate go_idle hand_on has_text is_answer is_local is_ready is_spike is_stop
    kiss_text look_again look_up_again lookup_failed move_to nearest_era new_peer new_poll next_seq
    next_wait note_filter note_interval note_lookup note_poll note_reply poll_all poll_once
    poll_round printable_from read32 reading_of refid_for_peer refid_text refusal request_packet
    request_poll request_precision request_reacquire round run_steps set_active shift_filter
    shift_in shift_reach start_over stop_for sum_squares take_answer take_kiss valid_delays
    wait_reply xor
methods = tt

abbrev sec : ℕ → Micros
sec n = micros.decimal n 0

abbrev cfg : NtpSourceConfig Micros
cfg = record {
  enabled = true;
  poll_seconds = sec 64;
  iburst = true;
  max_root_distance_ms = sec 500_000;
  max_stratum = pos 15;
  extra_delay_ms = sec 0;
}

abbrev host : PeerHost Micros
host = record { log2 = λ x. sec 6; lround = λ x. pos 6; resolution = pos 1 }

abbrev peer : NtpPeer Micros
peer = new_peer cfg (10 ∷ []) false

abbrev address : Resolved
address = record { text = 49 ∷ []; addr = sockaddr_in (10 ∷ 0 ∷ 0 ∷ 9 ∷ []); connects = true }

abbrev lookup : Lookup Micros
lookup = record { now = sec 5; found = address ∷ []; ttl = pos 300 }

-- A reply of stratum 2 to the nonce 7, at 1000 s, which comes 20 ms after the request was sent.
abbrev time : List ℕ
time = 131 ∷ 170 ∷ 130 ∷ 104 ∷ 0 ∷ 0 ∷ 0 ∷ 0 ∷ []

abbrev answer : ℕ → Datagram Micros
answer stratum = record {
  bytes =
      (0x24 ∷ stratum ∷ 6 ∷ 236 ∷ replicate 8 0)
      ++ (10 ∷ 0 ∷ 0 ∷ 9 ∷ replicate 15 0)
      ++ (7 ∷ time)
      ++ time;
  read_at = sec 1000 +ℤ pos 20_000;
  stamps = [];
}

abbrev reads : ℕ → PollReads Micros
reads stratum = record {
  lookup = lookup;
  nonce = 7;
  t1 = sec 1000;
  sent = true;
  arrivals =
      datagram (record { bytes = []; read_at = sec 1000; stamps = [] })
      ∷ datagram (answer stratum)
      ∷ [];
  approx = sec 1000;
}

after_answer : (poll_once libm host peer (reads 2)).1 ≡ none
unfolding methods
after_answer = refl

answered : poll_once libm host peer (reads 2) ≡ ((poll_once libm host peer (reads 2)).0, none)
unfolding methods
answered = refl

handed_now : length (poll_once libm host peer (reads 2)).0.offsets ≡ 1
unfolding methods
handed_now = refl

refused :
    poll_once libm host peer (reads 16)
    ≡ ((poll_once libm host peer (reads 16)).0, some (Reject.stratum_past 16))
unfolding methods
refused = refl

-- FNV-1a of an address of sixteen zero bytes, and of an IPv4 address its own four bytes.
refid_for_peer_v6 : refid_for_peer (sockaddr_in6 (replicate 15 0 ++ (1 ∷ []))) ≡ 0x68691772
unfolding methods
refid_for_peer_v6 = refl

poll_once-Taken_example :
    (d : Datagram Micros) × IsTaken libm host cfg
      (10 ∷ [])
      []
      (reads 2)
      (poll_once libm host peer (reads 2)).0.offsets
      d
unfolding new_peer
poll_once-Taken_example =
    poll_once-Taken libm host peer (reads 2) (poll_once libm host peer (reads 2)).0 answered

poll_once-failed_example :
    ((poll_once libm host peer (reads 16)).0.offsets ≡ peer.offsets)
    × ((poll_once libm host peer (reads 16)).0.filter ≡ peer.filter)
poll_once-failed_example =
    poll_once-failed libm host peer (reads 16) (poll_once libm host peer (reads 16)).0
      (Reject.stratum_past 16) refused

abbrev round_reads : RoundReads Micros
round_reads = record { now = sec 6; again = lookup; poll = reads 2 }

abbrev steps : List (PeerStep Micros)
steps =
    a_round round_reads
    ∷ asked_to_reacquire
    ∷ a_round round_reads
    ∷ made_active false
    ∷ a_round round_reads
    ∷ made_active true
    ∷ a_round round_reads
    ∷ []

run_steps-IsBounded_example : IsBounded (run_steps libm host (new_peer cfg (10 ∷ []) false) steps)
run_steps-IsBounded_example = run_steps-IsBounded libm host cfg (10 ∷ []) false steps

poll_all-handed_example :
    let p = (poll_all libm host (new_peer cfg (10 ∷ []) false) (reads 2 ∷ [])).0 in
    let q = poll_all libm host p (reads 2 ∷ reads 2 ∷ reads 2 ∷ []) in
    q.1 + 3 * length p.offsets ≤ 3 * length q.0.offsets + 2
poll_all-handed_example =
    poll_all-handed libm host cfg (10 ∷ []) false (reads 2 ∷ []) (reads 2 ∷ reads 2 ∷ reads 2 ∷ [])
      (omega arith)
