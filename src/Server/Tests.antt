-- ===== src/Server/Tests.antt =====
-- The service at one client, with a limit of one answer at a time, in millionths.
use ubersdr_ntp.Prelude.{ℕ, ◌≡◌, refl, true, false, some, List, [], ◌∷◌, replicate, ◌++◌, arith}
use ubersdr_ntp.Prelude.Int.{pos, ◌+ℤ◌, ◌-ℤ◌, ◌*ℤ◌, ◌/ℤ◌, ◌%ℤ◌}
use ubersdr_ntp.Prelude.Micros.{Micros, micros}
use ubersdr_ntp.Prelude.Sort.{insert_sorted, sort_by}
use ubersdr_ntp.Prelude.Dict.{eq_key, lookup, insert, erase_if}
use ubersdr_ntp.Address.{SockAddr, sockaddr_in}
use ubersdr_ntp.Limiter.{RateLimiter, kod}
use ubersdr_ntp.Tally.{ClientTally}
use ubersdr_ntp.Selector.Combined.{Combined}
use ubersdr_ntp.Selector.Pass.{current}
use ubersdr_ntp.Selector.Strata.{Pass, run_passes}
use ubersdr_ntp.Selector.Sample.{libm, clock, snaps}
use ubersdr_ntp.Server.{NtpServer, Field, NtpConfig}
use ubersdr_ntp.Server.Serve.{Host, Reads}
use ubersdr_ntp.Server.Layout.{IsReply, IsKiss}
use ubersdr_ntp.Server.Honest.{IsClient, Outcome, serve_one-IsReply, serve_one-IsKiss}
use ubersdr_ntp.Server.Accounts.{Received, AddsUp, serve_all, serve_all-AddsUp}
use ubersdr_ntp.Server.Composed.{serve_one-current}
use ubersdr_ntp.Server.{bucket_of, clear_buckets, new_server, advance_to, count_field}
use ubersdr_ntp.Server.Packet.{
  put32, poll_byte, kod_packet, to_ntp_time, to_short_format, clock_precision, leap_of,
  stratum_byte, refid_bytes, reference_bytes, reply_packet,
}
use ubersdr_ntp.Server.Serve.{
  is_limited, is_request, received_at, send, drop_request, send_kod, count_answer, send_time,
  act_on, admit, serve_one,
}
use ubersdr_ntp.Limiter.{
  max_buckets, is_exempt, client_key, client_of, sweep, minute_sweep, add_bucket, check_new, refill,
  spend, check_known, check_client, check,
}
use ubersdr_ntp.Tally.{
  max_clients, slot, clear_slots, advance, sum_slots, sum, new_entry, bump, count, quiet_sweep,
  make_room, count_into, tally, record_request,
}
use ubersdr_ntp.Address.{ip_addr_of, mask_byte, mask_bytes, masked, contains, make_prefix}
use ubersdr_ntp.Address.Label.{
  any_contains, is_private, byte_text, network_label, is_known, public_label,
}
use ubersdr_ntp.Selector.{
  eligibility, candidate_of, gather_one, gather, is_secondary_configured, median_offset,
}
use ubersdr_ntp.Selector.Combined.{new_selector, utc_at}
use ubersdr_ntp.Selector.Residuals.{
  has_name, find_residual, find_reacquire, drop_refused, average, settle, residual_of,
  reacquire_wait, note_refused, note_residual, judge_one, judge_all, judge_class, judge_classes,
  class_delta_state, compare_classes,
}
use ubersdr_ntp.Selector.Standby.{
  is_usable, note_primary, leave_primary, leave_secondary, wants_secondary, decide,
  serving_candidates, standby_reasons,
}
use ubersdr_ntp.Selector.Agree.{
  best_from, regions_from, pick_from, pick_region, edges_of, edge_less, sorted_edges, best_of,
  regions_of, in_region, away, score_from, pick_of, in_any_region, keep_agreeing, agree,
}
use ubersdr_ntp.Selector.Answer.{
  less_key, refid_for, any_radio, lowest_from, stratum_of, any_primary, any_secondary, serving_of,
  all_leap_pending, path_half, weigh, sum_weights, spread_from, mean_of, average_of, newest_from,
  rate_sums, rate_bound_from, rate_spread_from, rate_of, tightest_from, radios, by_station,
  heaviest_from, station_of, radio_reference, upstream_reference, reference_of,
}
use ubersdr_ntp.Selector.Pass.{
  min_to_serve, serve, coast, never_served, fall_back, answer_from, prepare, combine,
}
use ubersdr_ntp.Peer.{NtpSourceConfig, new_peer}
use ubersdr_ntp.Peer.Wire.{PeerHost, request_packet, is_answer}
use ubersdr_ntp.Peer.Poll.{PollReads, Datagram, datagram, wait_reply}
use ubersdr_ntp.Peer.Composed.{IsSlowed, serve_one-is_answer, wait_reply-IsSlowed}
use ubersdr_ntp.Instants.{is_last_day_of_month, floor_div, floor_mod}
use ubersdr_ntp.Civil.{civil_from_days}

methods : Unit {0}
unfolding ◌+ℤ◌ ◌-ℤ◌ ◌*ℤ◌ ◌/ℤ◌ ◌%ℤ◌ eq_key lookup insert erase_if insert_sorted sort_by act_on
    add_bucket admit advance advance_to agree all_leap_pending answer_from any_contains any_primary
    any_radio any_secondary average average_of away best_from best_of bucket_of bump by_station
    byte_text candidate_of check check_client check_known check_new civil_from_days
    class_delta_state clear_buckets clear_slots client_key client_of clock_precision coast combine
    compare_classes contains count count_answer count_field count_into decide drop_refused
    drop_request edge_less edges_of eligibility fall_back find_reacquire find_residual floor_div
    floor_mod gather gather_one has_name heaviest_from in_any_region in_region ip_addr_of is_exempt
    is_known is_last_day_of_month is_limited is_private is_request is_secondary_configured is_usable
    judge_all judge_class judge_classes judge_one keep_agreeing kod_packet leap_of leave_primary
    leave_secondary less_key lowest_from make_prefix make_room mask_byte mask_bytes masked
    max_buckets max_clients mean_of median_offset min_to_serve minute_sweep network_label
    never_served new_entry new_selector new_server newest_from note_primary note_refused
    note_residual path_half pick_from pick_of pick_region poll_byte prepare public_label put32
    quiet_sweep radio_reference radios rate_bound_from rate_of rate_spread_from rate_sums
    reacquire_wait received_at record_request request_packet reference_bytes reference_of
    refid_bytes refid_for refill regions_from regions_of reply_packet residual_of score_from send
    send_kod send_time serve serve_one serving_candidates serving_of settle slot sorted_edges spend
    spread_from standby_reasons station_of stratum_byte stratum_of sum sum_slots sum_weights sweep
    tally tightest_from to_ntp_time to_short_format upstream_reference utc_at wants_secondary weigh
methods = tt

abbrev sec : ℕ → Micros
sec n = micros.decimal n 0

abbrev limiter : RateLimiter Micros
limiter = record {
  cfg = record {
    interval_sec = sec 2;
    burst = 1;
    kod = true;
    leak = sec 0;
    ipv4_prefix = 32;
    ipv6_prefix = 64;
  };
  exempt = [];
  buckets = [];
  last_sweep = sec 0;
}

abbrev no_clients : ClientTally Micros
no_clients = record { clients = []; last_sweep = sec 0 }

abbrev cfg : NtpConfig
cfg = record { answer_when_unsynchronised = true; honour_leap_warning = true }

abbrev host : Host Micros
host = record {
  is_v4_mapped = λ b. false;
  ntop = λ family b. b;
  log2 = λ a. pos 0 -ℤ sec 30;
  resolution = pos 1;
}

abbrev server : NtpServer Micros
server = new_server cfg limiter no_clients

abbrev passes : List (Pass Micros)
passes = record { host = pos 0; now = pos 1_001_000_000; snaps = snaps } ∷ []

abbrev served : Combined Micros
served = current (run_passes libm (new_selector (sec 3600) (sec 1) (pos 1) clock) passes)

abbrev reads : Micros → Combined Micros → Reads Micros
reads at c = record {
  at_request = at;
  at_ignored = at;
  now = at;
  at_send_error = at;
  at_outcome = at;
  at_detail = at;
  daemon_now = at;
  stamps = [];
  daemon_sent = at;
  current = c;
  draw = pos 0;
  sent = true;
}

abbrev from : SockAddr
from = sockaddr_in (8 ∷ 8 ∷ 4 ∷ 4 ∷ [])

-- A client's request of version 4, with a transmit time of its own.
abbrev request : List ℕ
request = (0x23 ∷ replicate 39 0) ++ (1 ∷ 2 ∷ 3 ∷ 4 ∷ 5 ∷ 6 ∷ 7 ∷ 8 ∷ [])

abbrev now : Micros
now = sec 1002

first_answered :
    (serve_one host server from request (reads now served)).1
    ≡ some (reply_packet cfg (clock_precision host.log2 host.resolution) served request now now)
unfolding methods
first_answered = refl

abbrev reply : List ℕ
reply = reply_packet cfg (clock_precision host.log2 host.resolution) served request now now

serve_one-IsReply_example : IsClient request × IsReply request reply
serve_one-IsReply_example =
    serve_one-IsReply host server from request (reads now served) reply first_answered

request_ok : is_request request ≡ true
unfolding is_request
request_ok = refl

within_limit :
    is_limited (admit host (count_field server Field.requests now) from (reads now served)).1
    ≡ false
unfolding methods
within_limit = refl

serve_one-current_example :
    Outcome cfg (reads now served) (serve_one host server from request (reads now served)).1
unfolding new_server
serve_one-current_example =
    serve_one-current libm (sec 3600) (sec 1) (pos 1) clock passes host server from request
      (reads now served) refl request_ok within_limit

-- The second request in a second is over the limit.
abbrev after_one : NtpServer Micros
after_one = (serve_one host server from request (reads now served)).0

over_limit : (admit host (count_field after_one Field.requests now) from (reads now served)).1 ≡ kod
unfolding methods
over_limit = refl

serve_one-IsKiss_example :
    (p : List ℕ) × ((serve_one host after_one from request (reads now served)).1 ≡ some p)
    × IsKiss request p
serve_one-IsKiss_example =
    serve_one-IsKiss host after_one from request (reads now served) request_ok over_limit

abbrev received : List (Received Micros)
received =
    record { from = from; buf = request; reads = reads now served }
    ∷ record { from = from; buf = request; reads = reads now served }
    ∷ record { from = from; buf = 0x1e ∷ []; reads = reads now served }
    ∷ []

serve_all-AddsUp_example :
    ((serve_all host server received).stats.requests ≡ 3)
    × AddsUp (serve_all host server received).stats
serve_all-AddsUp_example = serve_all-AddsUp host cfg limiter no_clients received (omega arith)

-- A peer of this service, whose request has the nonce 7.
abbrev peer_request : List ℕ
peer_request = request_packet 6 236 7

abbrev peer_reply : List ℕ
peer_reply =
    reply_packet cfg (clock_precision host.log2 host.resolution) served peer_request now now

peer_answered : (serve_one host server from peer_request (reads now served)).1 ≡ some peer_reply
unfolding methods
peer_answered = refl

serve_one-is_answer_example : is_answer 7 peer_reply ≡ true
serve_one-is_answer_example =
    serve_one-is_answer host server from (reads now served) 6 236 7 peer_reply (omega arith)
      peer_answered

abbrev peer_host : PeerHost Micros
peer_host = record { log2 = λ x. sec 6; lround = λ x. pos 6; resolution = pos 1 }

abbrev peer_cfg : NtpSourceConfig Micros
peer_cfg = record {
  enabled = true;
  poll_seconds = sec 64;
  iburst = true;
  max_root_distance_ms = sec 500;
  max_stratum = pos 15;
  extra_delay_ms = sec 0;
}

abbrev kiss : Datagram Micros
kiss = record {
  bytes = kod_packet (clock_precision host.log2 host.resolution) peer_request;
  read_at = now;
  stamps = [];
}

abbrev peer_reads : PollReads Micros
peer_reads = record {
  lookup = record { now = now; found = []; ttl = pos 0 };
  nonce = 7;
  t1 = now;
  sent = true;
  arrivals = datagram kiss ∷ [];
  approx = now;
}

peer_kissed : (serve_one host after_one from peer_request (reads now served)).1 ≡ some kiss.bytes
unfolding methods
peer_kissed = refl

wait_reply-IsSlowed_example :
    IsSlowed libm peer_host
      (new_peer peer_cfg [] false)
      kiss.bytes
      (wait_reply libm peer_host (new_peer peer_cfg [] false) peer_reads (datagram kiss ∷ []))
wait_reply-IsSlowed_example =
    wait_reply-IsSlowed libm peer_host host after_one from (reads now served) 6 236
      (new_peer peer_cfg [] false) peer_reads kiss [] (λ x y h. ground (arith, h)) (omega arith)
      over_limit peer_kissed
