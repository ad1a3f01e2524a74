-- ===== src/Limiter.antt =====
-- src/RateLimiter.{h,cpp}: the response limit of the NTP service, a token bucket for each client.
-- Over any floating point. The mutex is the serialisation of the calls; the random draw of a leak is
-- an argument, and so is the address, as `ipAddrOf` gives it.
pub mod Frame
pub mod Bounds
pub mod Verdicts
pub mod Unique
mod Tests
use ubersdr_ntp.Prelude.{
  ℕ, zero, suc, ◌+◌, Bool, true, false, not, ◌&&◌, ◌||◌, List, [], ◌∷◌, leb, Option, none, some,
  if◌then◌else◌, length,
}
use ubersdr_ntp.Prelude.Int.{ℤ, pos}
use ubersdr_ntp.Prelude.Double.{
  Double, add, sub, mul, div, lt, le, lit, from_int, dmin, dmax, infinity, neg,
}
use ubersdr_ntp.Prelude.Dict.{Key, lookup, insert, erase_if}
use ubersdr_ntp.Address.{is_inet, is_unspecified, IpAddr, IpPrefix, masked, contains}

pub record RateLimitConfig (D : Type 0) : Type 0 where
  pub interval_sec : D
  pub burst : ℕ
  pub kod : Bool
  pub leak : D
  pub ipv4_prefix : ℕ
  pub ipv6_prefix : ℕ

pub data RateVerdict : Type 0 where
  answer leak kod drop : RateVerdict

pub record Bucket (D : Type 0) : Type 0 where
  pub tokens : D
  pub at : D
  pub kod_at : D

-- The exempt prefixes are those of the configuration that parse.
pub record RateLimiter (D : Type 0) : Type 0 where
  pub cfg : RateLimitConfig D
  pub exempt : List IpPrefix
  pub buckets : List (Key × Bucket D)
  pub last_sweep : D

unfoldable pub max_buckets : ℕ
max_buckets = 100000

-- The test of the loop over the exempt prefixes.
unfoldable pub is_exempt : List IpPrefix → IpAddr → Bool
is_exempt [] a = false
is_exempt (p ∷ ps) a = contains p a || is_exempt ps a

-- 17 bytes: the family and the masked address.
unfoldable pub client_key : IpAddr → Key
client_key client = (if is_inet client.family then 4 else 6) ∷ client.bytes

module _ {D : Type 0} ⦃f : Double D⦄ where
  unfoldable pub client_of : RateLimitConfig D → IpAddr → IpAddr
  client_of cfg a = masked a (if is_inet a.family then cfg.ipv4_prefix else cfg.ipv6_prefix)

  abbrev pub burst_of : RateLimiter D → D
  burst_of l = from_int (pos l.cfg.burst)

  abbrev pub tracked : RateLimiter D → ℕ
  tracked l = length l.buckets

  -- How long an idle bucket takes to fill again.
  abbrev pub full_of : RateLimiter D → D
  full_of l = mul (burst_of l) l.cfg.interval_sec

  -- The erasing loop: every bucket idle for longer than a time goes, and the sweep is noted.
  unfoldable pub sweep : RateLimiter D → D → D → RateLimiter D
  sweep l now idle = record l {
    buckets = erase_if (λ k b. lt idle (sub now b.at)) l.buckets;
    last_sweep = now;
  }

  -- The sweep once a minute.
  unfoldable pub minute_sweep : RateLimiter D → D → RateLimiter D
  minute_sweep l now =
      if lt (lit 60 0) (sub now l.last_sweep) then sweep l now (dmax (lit 60 0) (full_of l)) else l

  unfoldable pub add_bucket : RateLimiter D → Key → D → RateLimiter D
  add_bucket l key now = record l {
    buckets =
        insert key (record { tokens = sub (burst_of l) (lit 1 0); at = now; kod_at = neg infinity })
          l.buckets;
  }

  -- A client without a bucket is answered, and tracked while there is room.
  unfoldable pub check_new : RateLimiter D → Key → D → RateLimiter D × RateVerdict
  check_new l key now =
      let swept = sweep l now (full_of l) in
      if leb max_buckets (tracked l)
      then if lt (sub now l.last_sweep) (lit 1 0)
        then (l, answer)
        else if leb max_buckets (tracked swept)
        then (swept, answer)
        else (add_bucket swept key now, answer)
      else (add_bucket l key now, answer)

  -- The bucket filled up to now.
  unfoldable pub refill : RateLimiter D → Bucket D → D → Bucket D
  refill l b now = record b {
    tokens = dmin (burst_of l) (add b.tokens (div (sub now b.at) l.cfg.interval_sec));
    at = now;
  }

  -- What becomes of a bucket that was filled up, and of the request.
  unfoldable pub spend : RateLimiter D → Bucket D → D → D → Bucket D × RateVerdict
  spend l b now draw =
      if le (lit 1 0) b.tokens
      then (record b { tokens = sub b.tokens (lit 1 0) }, answer)
      else if lt (lit 0 0) l.cfg.leak && lt draw l.cfg.leak
      then (b, RateVerdict.leak)
      else if l.cfg.kod && le (dmax (lit 1 0) l.cfg.interval_sec) (sub now b.kod_at)
      then (record b { kod_at = now }, RateVerdict.kod)
      else (b, drop)

  unfoldable pub check_known : RateLimiter D → Key → Bucket D → D → D → RateLimiter D × RateVerdict
  check_known l key b now draw =
      let (b', verdict) = spend l (refill l b now) now draw in
      (record l { buckets = insert key b' l.buckets }, verdict)

  unfoldable pub check_client : RateLimiter D → Key → D → D → RateLimiter D × RateVerdict
  check_client l key now draw = elim (lookup key l.buckets) [
    | none ↦ check_new l key now
    | some b ↦ check_known l key b now draw
  ]

  unfoldable pub check : RateLimiter D → IpAddr → D → D → RateLimiter D × RateVerdict
  check l addr now draw =
      if le l.cfg.interval_sec (lit 0 0)
      then (l, answer)
      else if is_unspecified addr.family
      then (l, answer)
      else if is_exempt l.exempt addr
      then (l, answer)
      else check_client (minute_sweep l now) (client_key (client_of l.cfg addr)) now draw
