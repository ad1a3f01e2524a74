-- ===== src/Server.antt =====
-- src/NtpServer.{h,cpp}: the state of the NTP service, and its counters since the start and in a ring of
-- 60 minute buckets. Its children are the packets (Packet) and the answering of a request (Serve).
pub mod Packet
pub mod Serve
pub mod Layout
pub mod Honest
pub mod Accounts
pub mod Composed
mod Tests
use Prim.Native.Nat.{min}
use ubersdr_ntp.Prelude.{
  ℕ, zero, suc, ◌+◌, ◌%◌, ◌^◌, Bool, List, [], ◌∷◌, set, get_or, replicate, if◌then◌else◌,
}
use ubersdr_ntp.Prelude.Int.{ℤ, pos, pos_part, ◌+ℤ◌, ◌-ℤ◌, ◌%ℤ◌, leb_ℤ}
use ubersdr_ntp.Prelude.Double.{Double, div, neg, lt, floor, lit}
use ubersdr_ntp.Limiter.{RateLimiter}
use ubersdr_ntp.Tally.{ClientTally}

pub record NtpCounts : Type 0 where
  pub requests : ℕ
  pub answered : ℕ
  pub ignored : ℕ
  pub rate_limited : ℕ
  pub kod_sent : ℕ
  pub unsynchronised : ℕ
  pub send_errors : ℕ

abbrev pub no_counts : NtpCounts
no_counts = record {
  requests = 0;
  answered = 0;
  ignored = 0;
  rate_limited = 0;
  kod_sent = 0;
  unsynchronised = 0;
  send_errors = 0;
}

-- A member of `NtpCounts`, which `count` takes as a pointer.
pub data Field : Type 0 where
  requests answered ignored rate_limited kod_sent unsynchronised send_errors : Field

-- `++` of a std::uint64_t.
abbrev pub add_one : ℕ → ℕ
add_one n = (n + 1) % 2 ^ 64

abbrev pub bump_field : Field → NtpCounts → NtpCounts
bump_field Field.requests c = record c { requests = add_one c.requests }
bump_field Field.answered c = record c { answered = add_one c.answered }
bump_field Field.ignored c = record c { ignored = add_one c.ignored }
bump_field Field.rate_limited c = record c { rate_limited = add_one c.rate_limited }
bump_field Field.kod_sent c = record c { kod_sent = add_one c.kod_sent }
bump_field Field.unsynchronised c = record c { unsynchronised = add_one c.unsynchronised }
bump_field Field.send_errors c = record c { send_errors = add_one c.send_errors }

-- `kMinutes`.
abbrev pub minute_buckets : ℕ
minute_buckets = 60

-- The members of `NtpConfig` that `serve` reads.
pub record NtpConfig : Type 0 where
  pub answer_when_unsynchronised : Bool
  pub honour_leap_warning : Bool

pub record NtpServer (D : Type 0) : Type 0 where
  pub cfg : NtpConfig
  pub stats : NtpCounts
  pub limiter : RateLimiter D
  pub tally : ClientTally D
  pub minutes : List NtpCounts
  pub minute : ℤ

-- The bucket of a minute, which is never negative: it starts at 0 and only grows.
unfoldable pub bucket_of : ℤ → ℕ
bucket_of minute = pos_part (minute %ℤ pos minute_buckets)

-- The loop of `advanceMinutes` from minute k, with `left` rounds to go.
unfoldable pub clear_buckets : ℕ → ℤ → List NtpCounts → List NtpCounts
clear_buckets zero k xs = xs
clear_buckets (suc left) k xs = clear_buckets left (k +ℤ pos 1) (set xs (bucket_of k) no_counts)

module _ {D : Type 0} where
  unfoldable pub new_server : NtpConfig → RateLimiter D → ClientTally D → NtpServer D
  new_server cfg limiter tally = record {
    cfg = cfg;
    stats = no_counts;
    limiter = limiter;
    tally = tally;
    minutes = replicate minute_buckets no_counts;
    minute = pos 0;
  }

  -- `advanceMinutes`.
  unfoldable pub advance_to : NtpServer D → ℤ → NtpServer D
  advance_to s minute =
      let gap = min (pos_part (minute -ℤ s.minute)) minute_buckets in
      if leb_ℤ minute s.minute
      then s
      else record s { minutes = clear_buckets gap (s.minute +ℤ pos 1) s.minutes; minute = minute }

  -- The increments of `count`, after the buckets have moved on.
  abbrev pub count_here : NtpServer D → Field → NtpServer D
  count_here s field =
      let i = bucket_of s.minute in
      record s {
        stats = bump_field field s.stats;
        minutes = set s.minutes i (bump_field field (get_or s.minutes i no_counts));
      }

module _ {D : Type 0} ⦃f : Double D⦄ where
  -- The conversion to an integer, which rounds towards zero.
  abbrev pub truncate : D → ℤ
  truncate a = if lt a (lit 0 0) then pos 0 -ℤ floor (neg a) else floor a

  -- `count`, with what `monotonicNow` reads in it.
  unfoldable pub count_field : NtpServer D → Field → D → NtpServer D
  count_field s field now = count_here (advance_to s (truncate (div now (lit 60 0)))) field

-- The sum of the buckets in `stats`.
abbrev pub add_counts : NtpCounts → NtpCounts → NtpCounts
add_counts a b = record {
  requests = (a.requests + b.requests) % 2 ^ 64;
  answered = (a.answered + b.answered) % 2 ^ 64;
  ignored = (a.ignored + b.ignored) % 2 ^ 64;
  rate_limited = (a.rate_limited + b.rate_limited) % 2 ^ 64;
  kod_sent = (a.kod_sent + b.kod_sent) % 2 ^ 64;
  unsynchronised = (a.unsynchronised + b.unsynchronised) % 2 ^ 64;
  send_errors = (a.send_errors + b.send_errors) % 2 ^ 64;
}

unfoldable pub sum_counts : NtpCounts → List NtpCounts → NtpCounts
sum_counts total [] = total
sum_counts total (c ∷ cs) = sum_counts (add_counts total c) cs

module _ {D : Type 0} ⦃f : Double D⦄ where
  -- `stats` but for the busiest clients: the state after it, the totals, and the past hour.
  unfoldable pub stats_at : NtpServer D → D → NtpServer D × (NtpCounts × NtpCounts)
  stats_at s now =
      let moved = advance_to s (truncate (div now (lit 60 0))) in
      (moved, (moved.stats, sum_counts no_counts moved.minutes))
