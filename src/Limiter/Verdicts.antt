-- ===== src/Limiter/Verdicts.antt =====
-- What one client is told over a series of requests: when it is answered, and how often it is sent
-- a kiss-o'-death.
use ubersdr_ntp.Prelude.{
  ◌≡◌, ◌⊎◌, inl, inr, refl, ap, ◌∙◌, All, Bool-cases, false, true, arith, List, [], ◌∷◌, some,
}
use ubersdr_ntp.Prelude.Double.{Double, lt, le, sub, lit, dmax}
use ubersdr_ntp.Prelude.Dict.{Key, lookup, insert, lookup-insert_self}
use ubersdr_ntp.Limiter.{
  RateLimiter, Bucket, RateVerdict, answer, leak, kod, drop, refill, spend, check_known,
  check_client, minute_sweep, check, client_key, client_of, is_exempt,
}
use ubersdr_ntp.Address.{IpAddr, is_unspecified}

module _ {D : Type 0} ⦃f : Double D⦄ where
  -- The time of a request that was answered with a kiss-o'-death, before those of later ones.
  abbrev kiss_cons : RateVerdict → D → List D → List D
  kiss_cons kod now rest = now ∷ rest
  kiss_cons answer now rest = rest
  kiss_cons leak now rest = rest
  kiss_cons drop now rest = rest

  -- A client's requests, each a time and a draw: the times of the kisses that `check` sends it.
  pub kiss_times : RateLimiter D → IpAddr → List (D × D) → List D
  kiss_times l a [] = []
  kiss_times l a ((now, draw) ∷ rs) =
      let r = check l a now draw in kiss_cons r.1 now (kiss_times r.0 a rs)

  -- Times that follow one another by at least a distance, the first after `last`.
  abbrev pub Spaced : D → D → List D → Type 0
  Spaced distance last [] = Unit
  Spaced distance last (t ∷ ts) = (le distance (sub t last) ≡ true) × Spaced distance t ts

  abbrev pub kiss_interval : RateLimiter D → D
  kiss_interval l = dmax (lit 1 0) l.cfg.interval_sec

  -- What each verdict says of the bucket, and what it does to it.
  abbrev Verdicts : RateLimiter D → Bucket D → D → Bucket D × RateVerdict → Type 0
  Verdicts l b now (b', kod) =
      (l.cfg.kod ≡ true) × (le (kiss_interval l) (sub now b.kod_at) ≡ true) × (b'.kod_at ≡ now)
  Verdicts l b now (b', answer) = b'.kod_at ≡ b.kod_at
  Verdicts l b now (b', leak) = b'.kod_at ≡ b.kod_at
  Verdicts l b now (b', drop) = b'.kod_at ≡ b.kod_at

  spend-Verdicts :
      (l : RateLimiter D) (b : Bucket D) (now draw : D)
      → Verdicts l b now (spend l (refill l b now) now draw)
  unfolding spend refill
  spend-Verdicts l b now draw = ground arith

  Spaced-cons :
      (l : RateLimiter D) (b b' : Bucket D) (v : RateVerdict) (now : D) (rest : List D)
      → Verdicts l b now (b', v)
      → Spaced (kiss_interval l) b'.kod_at rest
      → Spaced (kiss_interval l) b.kod_at (kiss_cons v now rest)
  Spaced-cons l b b' kod now rest v h = (v.1, rw v.2 at h)
  Spaced-cons l b b' answer now rest v h = rw v at h
  Spaced-cons l b b' leak now rest v h = rw v at h
  Spaced-cons l b b' drop now rest v h = rw v at h

  -- No request comes a minute after the last sweep.
  abbrev pub NoneDue : RateLimiter D → List (D × D) → Type 0
  NoneDue l rs = All (λ r. lt (lit 60 0) (sub r.0 l.last_sweep) ≡ false) rs

  not_due :
      (l : RateLimiter D) (now : D)
      → lt (lit 60 0) (sub now l.last_sweep) ≡ false
      → minute_sweep l now ≡ l
  unfolding minute_sweep
  not_due l now soon = rw soon refl

  client_here :
      (l : RateLimiter D) (key : Key) (b : Bucket D) (now draw : D)
      → lookup key l.buckets ≡ some b
      → check_client l key now draw ≡ check_known l key b now draw
  unfolding check_client
  client_here l key b now draw here = rw (here, check_client) refl

  -- A request that is not limited is answered, and leaves the limiter as it was; another goes to the
  -- client's bucket.
  check-here :
      (l : RateLimiter D) (a : IpAddr) (b : Bucket D) (now draw : D)
      → lt (lit 60 0) (sub now l.last_sweep) ≡ false
      → lookup (client_key (client_of l.cfg a)) l.buckets ≡ some b
      → (check l a now draw ≡ (l, answer))
        ⊎ (check l a now draw ≡ check_known l (client_key (client_of l.cfg a)) b now draw)
  unfolding check
  check-here l a b now draw soon here = elim (Bool-cases (le l.cfg.interval_sec (lit 0 0))) [
    | inl off ↦ rw off (inl refl)
    | inr on ↦ rw on (elim (Bool-cases (is_unspecified a.family)) [
      | inl unknown ↦ rw unknown (inl refl)
      | inr known ↦ rw known (elim (Bool-cases (is_exempt l.exempt a)) [
        | inl exempt ↦ rw exempt (inl refl)
        | inr limited ↦ rw limited (
            inr (
              ap (λ m. check_client m (client_key (client_of l.cfg a)) now draw)
                (not_due l now soon)
              ∙ client_here l _ b now draw here))
      ])
    ])
  ]

  -- Of requests of one client that has a bucket, one after another and none of them a minute after the
  -- last sweep: `check` sends kisses-o'-death that are at least the interval, and a second, apart, the
  -- first of them that long after the one that the bucket remembers.
  pub kiss_times-Spaced :
      (rs : List (D × D)) (l : RateLimiter D) (a : IpAddr) (b : Bucket D)
      → NoneDue l rs
      → lookup (client_key (client_of l.cfg a)) l.buckets ≡ some b
      → Spaced (kiss_interval l) b.kod_at (kiss_times l a rs)
  unfolding kiss_times check_known
  kiss_times-Spaced [] l a b none_due here = tt
  kiss_times-Spaced ((now, draw) ∷ rs) l a b none_due here =
      elim (check-here l a b now draw none_due.0 here) [
        | inl free ↦ rw free (kiss_times-Spaced rs l a b none_due.1 here)
        | inr known ↦ rw known (
            Spaced-cons l b r.0 r.1 now _ (spend-Verdicts l b now draw) (
              kiss_times-Spaced rs (record l { buckets = insert key r.0 l.buckets }) a r.0
                none_due.1 (lookup-insert_self key r.0 l.buckets)))
      ]
    where
      key : Key
      key = client_key (client_of l.cfg a)

      r : Bucket D × RateVerdict
      r = spend l (refill l b now) now draw
