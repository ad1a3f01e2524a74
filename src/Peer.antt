-- ===== src/Peer.antt =====
-- src/NtpClient.{h,cpp}: the state of an upstream NTP peer. Its children are the packets (Wire), the
-- name and the socket (Connect), the clock filter (Filter), one poll (Poll) and the poll loop (Loop).
-- The texts for the log and the status page are left out; a text that says why a poll failed is a
-- constructor. A lock makes each step of the polling thread one; only that thread polls.
pub mod Wire
pub mod Connect
pub mod Filter
pub mod Poll
pub mod Loop
pub mod Cases
pub mod Bounds
pub mod Handed
pub mod Accepted
pub mod Composed
pub mod Eras
mod Tests
use ubersdr_ntp.Prelude.{
  ℕ, ◌+◌, ◌*◌, ◌%◌, ◌^◌, Bool, true, false, List, [], ◌∷◌, Option, none, some, replicate,
  if◌then◌else◌,
}
use ubersdr_ntp.Prelude.Int.{ℤ, pos, negsuc}
use ubersdr_ntp.Prelude.Double.{Double, lit}
use ubersdr_ntp.Prelude.Dict.{Key}

abbrev pub burst_count : ℕ
burst_count = 6

abbrev pub max_quick_retries : ℕ
max_quick_retries = 2

abbrev pub spike_run_limit : ℕ
spike_run_limit = max_quick_retries + 1

abbrev pub reresolve_after_timeouts : ℕ
reresolve_after_timeouts = 4

abbrev pub backoff_recover_after : ℕ
backoff_recover_after = 8

abbrev pub filter_size : ℕ
filter_size = 8

-- The members of the configuration that a peer acts on.
pub record NtpSourceConfig (D : Type 0) : Type 0 where
  pub enabled : Bool
  pub poll_seconds : D
  pub iburst : Bool
  pub max_root_distance_ms : D
  pub max_stratum : ℤ
  pub extra_delay_ms : D

pub record Sample (D : Type 0) : Type 0 where
  pub offset_sec : D
  pub delay_sec : D
  pub dispersion_sec : D
  pub at_sec : D
  pub seq : ℕ
  pub valid : Bool

-- Why a poll failed: one constructor for each text that is left in `err` when it does.
pub data Reject (D : Type 0) : Type 0 where
  cannot_resolve cannot_reach send_failed no_reply poll_failed recv_failed : Reject D
  refused_us : Key → Reject D
  slower_poll : Reject D
  other_kiss : Key → Reject D
  unsynchronised : Reject D
  stratum_past : ℕ → Reject D
  zero_transmit : Reject D
  loop_to_us : Key → Reject D
  root_distance_past : D → Reject D

pub data LinkState : Type 0 where
  idle streaming backoff stopped : LinkState

-- The members of `NtpPeerInfo` that change.
pub record NtpPeerInfo (D : Type 0) : Type 0 where
  pub dns_ttl_sec : ℤ
  pub stratum : ℕ
  pub refid : Key
  pub leap : ℕ
  pub root_delay_sec : D
  pub root_dispersion_sec : D
  pub server_precision_sec : D
  pub poll_sec : D
  pub delay_sec : D
  pub filter_jitter_sec : D
  pub root_distance_sec : D
  pub reach : ℕ
  pub sent : ℕ
  pub received : ℕ
  pub rejected : ℕ
  pub spikes : ℕ
  pub last_reject_reason : Option (Reject D)
  pub address_refid : ℕ
  pub kiss_code : Key
  pub stopped : Bool

-- `offsets` are the readings given to the estimator since it was last cleared, the newest first.
pub record NtpPeer (D : Type 0) : Type 0 where
  pub cfg : NtpSourceConfig D
  pub local_addrs : List ℕ
  pub literal : Bool
  pub active : Bool
  pub was_inactive : Bool
  pub reacquire : Bool
  pub is_open : Bool
  pub resolved_text : Key
  pub resolved_at : D
  pub resolve_due_at : D
  pub resolve_failing : Bool
  pub consecutive_timeouts : ℕ
  pub retryable : Bool
  pub quick_retries : ℕ
  pub burst_left : ℕ
  pub backoff_poll_sec : D
  pub good_run : ℕ
  pub filter : List (Sample D)
  pub seq : ℕ
  pub handed_on : ℕ
  pub spike_run : ℕ
  pub offsets : List (D × D)
  pub link : LinkState
  pub leap_pending : Bool
  pub info : NtpPeerInfo D

-- `++` of a std::uint64_t.
abbrev pub count_up : ℕ → ℕ
count_up n = (n + 1) % 2 ^ 64

-- The reach register after a poll: a std::uint8_t, the newest poll in its lowest bit.
unfoldable pub shift_reach : ℕ → Bool → ℕ
shift_reach reach ok = (reach * 2 + (if ok then 1 else 0)) % 256

module _ {D : Type 0} ⦃f : Double D⦄ where
  abbrev pub no_sample : Sample D
  no_sample = record {
    offset_sec = lit 0 0;
    delay_sec = lit 0 0;
    dispersion_sec = lit 0 0;
    at_sec = lit 0 0;
    seq = 0;
    valid = false;
  }

  abbrev pub empty_filter : List (Sample D)
  empty_filter = replicate filter_size no_sample

  abbrev pub new_info : D → NtpPeerInfo D
  new_info poll = record {
    dns_ttl_sec = negsuc 0;
    stratum = 0;
    refid = [];
    leap = 0;
    root_delay_sec = lit 0 0;
    root_dispersion_sec = lit 0 0;
    server_precision_sec = lit 0 0;
    poll_sec = poll;
    delay_sec = lit 0 0;
    filter_jitter_sec = lit 0 0;
    root_distance_sec = lit 0 0;
    reach = 0;
    sent = 0;
    received = 0;
    rejected = 0;
    spikes = 0;
    last_reject_reason = none;
    address_refid = 0;
    kiss_code = [];
    stopped = false;
  }

  -- The constructor, with whether the server is an address literal.
  unfoldable pub new_peer : NtpSourceConfig D → List ℕ → Bool → NtpPeer D
  new_peer cfg local_addrs literal = record {
    cfg = cfg;
    local_addrs = local_addrs;
    literal = literal;
    active = true;
    was_inactive = false;
    reacquire = false;
    is_open = false;
    resolved_text = [];
    resolved_at = lit 0 0;
    resolve_due_at = lit 0 0;
    resolve_failing = false;
    consecutive_timeouts = 0;
    retryable = false;
    quick_retries = 0;
    burst_left = if cfg.iburst then burst_count else 0;
    backoff_poll_sec = lit 0 0;
    good_run = 0;
    filter = empty_filter;
    seq = 0;
    handed_on = 0;
    spike_run = 0;
    offsets = [];
    link = idle;
    leap_pending = false;
    info = new_info cfg.poll_seconds;
  }

  -- `closeSocket`.
  abbrev pub close_socket : NtpPeer D → NtpPeer D
  close_socket p = record p { is_open = false }

  -- `dropTiming`.
  unfoldable pub drop_timing : NtpPeer D → NtpPeer D
  drop_timing p = record p { filter = empty_filter; offsets = []; handed_on = 0 }

  -- `setActive` and `requestReacquire`, which other threads call.
  unfoldable pub set_active : NtpPeer D → Bool → NtpPeer D
  set_active p on = record p { active = on }

  unfoldable pub request_reacquire : NtpPeer D → NtpPeer D
  request_reacquire p = record p { reacquire = true }
