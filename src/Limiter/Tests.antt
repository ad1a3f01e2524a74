-- ===== src/Limiter/Tests.antt =====
-- The limiter at one client that asks four times in a second, with a burst of two.
use ubersdr_ntp.Prelude.{ℕ, ◌≤◌, ◌-◌, ◌^◌, ◌≡◌, refl, true, [], ◌∷◌, replicate, arith}
use ubersdr_ntp.Prelude.Int.{negsuc, ◌*ℤ◌, ◌/ℤ◌}
use ubersdr_ntp.Prelude.Micros.{Micros, micros}
use ubersdr_ntp.Prelude.Dict.{eq_key, lookup, insert, erase_if}
use ubersdr_ntp.Address.{IpAddr, inet, mask_byte, mask_bytes, masked, contains}
use ubersdr_ntp.Limiter.{
  RateLimiter, Bucket, kod, drop, is_exempt, client_key, client_of, sweep, minute_sweep, add_bucket,
  check_new, refill, spend, check_known, check_client, check, tracked, max_buckets,
}
use ubersdr_ntp.Limiter.Bounds.{tracked-check}
use ubersdr_ntp.Limiter.Frame.{Keeps, check-Keeps}
use ubersdr_ntp.Limiter.Verdicts.{Spaced, kiss_interval, kiss_times, kiss_times-Spaced}

methods : Unit {0}
unfolding is_exempt client_key client_of sweep minute_sweep add_bucket check_new refill spend
    check_known check_client check eq_key lookup insert erase_if mask_byte mask_bytes masked
    contains ◌*ℤ◌ ◌/ℤ◌ max_buckets
methods = tt

abbrev sec : ℕ → Micros
sec n = micros.decimal n 0

abbrev limiter : RateLimiter Micros
limiter = record {
  cfg = record {
    interval_sec = sec 2;
    burst = 2;
    kod = true;
    leak = sec 0;
    ipv4_prefix = 32;
    ipv6_prefix = 64;
  };
  exempt = [];
  buckets = [];
  last_sweep = sec 0;
}

abbrev host : ℕ → IpAddr
host n = record { family = inet; bytes = 192 ∷ 0 ∷ 2 ∷ n ∷ replicate 12 0 }

abbrev twice : RateLimiter Micros
twice = (check (check limiter (host 1) (sec 10) (sec 0)).0 (host 1) (sec 10) (sec 0)).0

third_kod : (check twice (host 1) (sec 10) (sec 0)).1 ≡ kod
unfolding methods
third_kod = refl

fourth_drop : (check (check twice (host 1) (sec 10) (sec 0)).0 (host 1) (sec 11) (sec 0)).1 ≡ drop
unfolding methods
fourth_drop = refl

tracked-check_example : tracked (check twice (host 2) (sec 11) (sec 0)).0 ≤ max_buckets
unfolding methods
tracked-check_example = tracked-check twice (host 2) (sec 11) (sec 0) (omega arith)

check-Keeps_example :
    Keeps twice (check twice (host 2) (sec 11) (sec 0)).0 (sec 11) (client_key (host 1))
check-Keeps_example =
    check-Keeps twice (host 2) (client_key (host 1)) (sec 11) (sec 0) (unfold methods in (refl, tt))
      (unfold methods in refl)

abbrev bucket : Bucket Micros
bucket = record { tokens = sec 0; at = sec 10; kod_at = negsuc (10 ^ 24 - 1) }

kiss_times-Spaced_example :
    Spaced
      (kiss_interval twice)
      bucket.kod_at
      (kiss_times twice (host 1) ((sec 10, sec 0) ∷ (sec 11, sec 0) ∷ (sec 12, sec 0) ∷ []))
kiss_times-Spaced_example =
    kiss_times-Spaced ((sec 10, sec 0) ∷ (sec 11, sec 0) ∷ (sec 12, sec 0) ∷ []) twice (host 1)
      bucket (unfold methods in (refl, (refl, (refl, tt)))) (unfold methods in refl)
