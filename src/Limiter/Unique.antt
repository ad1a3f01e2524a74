-- ===== src/Limiter/Unique.antt =====
-- No client has two buckets, as no key of a std::unordered_map stands twice.
use ubersdr_ntp.Prelude.{leb, Bool-cases, Option-cases, inl, inr}
use ubersdr_ntp.Prelude.Double.{Double, lt, le, sub, lit}
use ubersdr_ntp.Prelude.Dict.{Key, lookup, UniqueKeys, UniqueKeys-erase_if, UniqueKeys-insert}
use ubersdr_ntp.Address.{IpAddr, is_unspecified}
use ubersdr_ntp.Limiter.{
  RateLimiter, max_buckets, tracked, full_of, sweep, minute_sweep, add_bucket, check_new,
  check_known, check_client, check, is_exempt,
}
use ubersdr_ntp.Limiter.Frame.{UniqueKeys-minute_sweep}

module _ {D : Type 0} ⦃f : Double D⦄ where
  UniqueKeys-check_new :
      (l : RateLimiter D) (key : Key) (now : D)
      → UniqueKeys l.buckets
      → UniqueKeys (check_new l key now).0.buckets
  unfolding check_new sweep add_bucket
  UniqueKeys-check_new l key now u =
      let swept = UniqueKeys-erase_if (λ k b. lt (full_of l) (sub now b.at)) l.buckets u in
      elim (Bool-cases (leb max_buckets (tracked l))) [
        | inr room ↦ rw room (UniqueKeys-insert key _ l.buckets u)
        | inl full ↦ rw full (elim (Bool-cases (lt (sub now l.last_sweep) (lit 1 0))) [
          | inl recent ↦ rw recent u
          | inr due ↦
              rw due (elim (Bool-cases (leb max_buckets (tracked (sweep l now (full_of l))))) [
                | inl still ↦ rw still swept
                | inr freed ↦ rw freed (UniqueKeys-insert key _ _ swept)
              ])
        ])
      ]

  UniqueKeys-check_client :
      (l : RateLimiter D) (key : Key) (now draw : D)
      → UniqueKeys l.buckets
      → UniqueKeys (check_client l key now draw).0.buckets
  unfolding check_client check_known
  UniqueKeys-check_client l key now draw u = elim (Option-cases (lookup key l.buckets)) [
    | inl e ↦ rw (e, check_client) (UniqueKeys-check_new l key now u)
    | inr (b, e) ↦ rw (e, check_client) (UniqueKeys-insert key _ l.buckets u)
  ]

  -- A request keeps the clients apart: where no key stands twice, none does after it.
  UniqueKeys-check :
      (l : RateLimiter D) (a : IpAddr) (now draw : D)
      → UniqueKeys l.buckets
      → UniqueKeys (check l a now draw).0.buckets
  unfolding check
  UniqueKeys-check l a now draw u = elim (Bool-cases (le l.cfg.interval_sec (lit 0 0))) [
    | inl off ↦ rw off u
    | inr on ↦ rw on (elim (Bool-cases (is_unspecified a.family)) [
      | inl unknown ↦ rw unknown u
      | inr known ↦ rw known (elim (Bool-cases (is_exempt l.exempt a)) [
        | inl exempt ↦ rw exempt u
        | inr limited ↦ rw limited (
            UniqueKeys-check_client (minute_sweep l now) _ now draw
              (UniqueKeys-minute_sweep l now u))
      ])
    ])
  ]
