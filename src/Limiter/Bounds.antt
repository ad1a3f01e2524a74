-- ===== src/Limiter/Bounds.antt =====
-- The table of buckets never grows past its cap.
use ubersdr_ntp.Prelude.{◌≤◌, ◌<◌, ◌≡◌, arith, some, Option-cases, inl, inr}
use ubersdr_ntp.Prelude.Double.{Double, lit, dmax}
use ubersdr_ntp.Prelude.Dict.{Key, lookup, length-insert, length-insert-some, length-erase_if-le}
use ubersdr_ntp.Address.{IpAddr}
use ubersdr_ntp.Limiter.{
  RateLimiter, Bucket, max_buckets, sweep, minute_sweep, add_bucket, check_new, check_known,
  check_client, check, tracked, full_of, client_key, client_of,
}

module _ {D : Type 0} ⦃f : Double D⦄ where
  tracked-sweep : (l : RateLimiter D) (now idle : D) → tracked (sweep l now idle) ≤ tracked l
  unfolding sweep
  tracked-sweep l now idle = length-erase_if-le _ l.buckets

  tracked-minute_sweep : (l : RateLimiter D) (now : D) → tracked (minute_sweep l now) ≤ tracked l
  unfolding minute_sweep
  tracked-minute_sweep l now = ground (arith, tracked-sweep l now (dmax (lit 60 0) (full_of l)))

  tracked-add_bucket :
      (l : RateLimiter D) (key : Key) (now : D)
      → tracked l < max_buckets
      → tracked (add_bucket l key now) ≤ max_buckets
  unfolding add_bucket
  tracked-add_bucket l key now h = omega (arith, length-insert key _ l.buckets)

  tracked-check_new :
      (l : RateLimiter D) (key : Key) (now : D)
      → tracked l ≤ max_buckets
      → tracked (check_new l key now).0 ≤ max_buckets
  unfolding check_new
  tracked-check_new l key now h = ground (
    arith,
    tracked-sweep l now (full_of l),
    tracked-add_bucket l key now,
    tracked-add_bucket (sweep l now (full_of l)) key now,
  )

  tracked-check_known :
      (l : RateLimiter D) (key : Key) (b : Bucket D) (now draw : D)
      → lookup key l.buckets ≡ some b
      → tracked (check_known l key b now draw).0 ≡ tracked l
  unfolding check_known
  tracked-check_known l key b now draw h = length-insert-some key _ b l.buckets h

  tracked-check_client :
      (l : RateLimiter D) (key : Key) (now draw : D)
      → tracked l ≤ max_buckets
      → tracked (check_client l key now draw).0 ≤ max_buckets
  unfolding check_client
  tracked-check_client l key now draw h = elim (Option-cases (lookup key l.buckets)) [
    | inl e ↦ rw (e, check_client) (tracked-check_new l key now h)
    | inr (b, e) ↦ rw (e, check_client) (rw (tracked-check_known l key b now draw e) h)
  ]

  -- Where no more than `kMaxBuckets` clients are tracked, no more are after any request at any time.
  pub tracked-check :
      (l : RateLimiter D) (a : IpAddr) (now draw : D)
      → tracked l ≤ max_buckets
      → tracked (check l a now draw).0 ≤ max_buckets
  unfolding check
  tracked-check l a now draw h = ground (
    arith,
    tracked-minute_sweep l now,
    tracked-check_client (minute_sweep l now) (client_key (client_of l.cfg a)) now draw,
  )
