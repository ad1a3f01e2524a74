-- ===== src/Limiter/Frame.antt =====
-- One client's requests leave the buckets of the others alone.
use ubersdr_ntp.Prelude.{
  none, ◌≡◌, refl, sym, subst, ◌∙◌, ◌⊎◌, true, false, leb, some, Option-cases, Bool-cases, inl, inr,
}
use ubersdr_ntp.Prelude.Double.{Double, lt, le, sub, lit, dmax}
use ubersdr_ntp.Prelude.Dict.{
  Key, eq_key, lookup, lookup-insert_ne, lookup-erase_if, UniqueKeys, UniqueKeys-erase_if,
  lookup-erase_if-gone,
}
use ubersdr_ntp.Address.{IpAddr, is_unspecified}
use ubersdr_ntp.Limiter.{
  RateLimiter, Bucket, max_buckets, sweep, minute_sweep, add_bucket, check_new, check_known,
  check_client, check, is_exempt, client_key, client_of, full_of, tracked,
}

module _ {D : Type 0} ⦃f : Double D⦄ where
  -- A bucket that is the same after, or that was swept and is gone: idle for longer than it takes to
  -- fill, or than the longer of that and a minute.
  abbrev pub Keeps : RateLimiter D → RateLimiter D → D → Key → Type 0
  Keeps l l' now j =
      (lookup j l'.buckets ≡ lookup j l.buckets)
      ⊎ ((b : Bucket D) × (lookup j l.buckets ≡ some b)
          × (lookup j l'.buckets ≡ none)
          × ((lt (full_of l) (sub now b.at) ≡ true)
              ⊎ (lt (dmax (lit 60 0) (full_of l)) (sub now b.at) ≡ true)))

  sweep-Keeps :
      (l : RateLimiter D) (now idle : D) (j : Key)
      → UniqueKeys l.buckets
      → (lookup j (sweep l now idle).buckets ≡ lookup j l.buckets)
        ⊎ ((b : Bucket D) × (lookup j l.buckets ≡ some b)
            × (lookup j (sweep l now idle).buckets ≡ none)
            × (lt idle (sub now b.at) ≡ true))
  unfolding sweep
  sweep-Keeps l now idle j u = elim (lookup-erase_if (λ k b. lt idle (sub now b.at)) j l.buckets) [
    | inl same ↦ inl same
    | inr (b, e, idle_for) ↦ inr (b, e, lookup-erase_if-gone _ j b l.buckets u e idle_for, idle_for)
  ]

  full_sweep-Keeps :
      (l : RateLimiter D) (now : D) (j : Key)
      → UniqueKeys l.buckets
      → Keeps l (sweep l now (full_of l)) now j
  full_sweep-Keeps l now j u = elim (sweep-Keeps l now (full_of l) j u) [
    | inl same ↦ inl same
    | inr (b, e, gone, idle) ↦ inr (b, e, gone, inl idle)
  ]

  minute_sweep-Keeps :
      (l : RateLimiter D) (now : D) (j : Key)
      → UniqueKeys l.buckets
      → Keeps l (minute_sweep l now) now j
  unfolding minute_sweep
  minute_sweep-Keeps l now j u = elim (Bool-cases (lt (lit 60 0) (sub now l.last_sweep))) [
    | inl due ↦ rw due (elim (sweep-Keeps l now (dmax (lit 60 0) (full_of l)) j u) [
      | inl same ↦ inl same
      | inr (b, e, gone, idle) ↦ inr (b, e, gone, inr idle)
    ])
    | inr soon ↦ rw soon (inl refl)
  ]

  add_bucket-lookup :
      (l : RateLimiter D) (key j : Key) (now : D)
      → eq_key key j ≡ false
      → lookup j (add_bucket l key now).buckets ≡ lookup j l.buckets
  unfolding add_bucket
  add_bucket-lookup l key j now h = lookup-insert_ne j key _ l.buckets h

  Keeps-after :
      (l l' l'' : RateLimiter D) (now : D) (j : Key)
      → Keeps l l' now j
      → lookup j l''.buckets ≡ lookup j l'.buckets
      → Keeps l l'' now j
  Keeps-after l l' l'' now j (inl same) e = inl (e ∙ same)
  Keeps-after l l' l'' now j (inr (b, there, gone, idle)) e = inr (b, there, e ∙ gone, idle)

  check_new-Keeps :
      (l : RateLimiter D) (key j : Key) (now : D)
      → UniqueKeys l.buckets
      → eq_key key j ≡ false
      → Keeps l (check_new l key now).0 now j
  unfolding check_new
  check_new-Keeps l key j now u h = elim (Bool-cases (leb max_buckets (tracked l))) [
    | inr room ↦ rw room (inl (add_bucket-lookup l key j now h))
    | inl full ↦ rw full (elim (Bool-cases (lt (sub now l.last_sweep) (lit 1 0))) [
      | inl recent ↦ rw recent (inl refl)
      | inr due ↦ rw due (elim (Bool-cases (leb max_buckets (tracked (sweep l now (full_of l))))) [
        | inl still ↦ rw still (full_sweep-Keeps l now j u)
        | inr freed ↦ rw freed (
            Keeps-after l (sweep l now (full_of l)) (add_bucket (sweep l now (full_of l)) key now)
              now j (full_sweep-Keeps l now j u)
              (add_bucket-lookup (sweep l now (full_of l)) key j now h))
      ])
    ])
  ]

  Keeps-trans :
      (l l' l'' : RateLimiter D) (now : D) (j : Key)
      → full_of l' ≡ full_of l
      → Keeps l l' now j
      → Keeps l' l'' now j
      → Keeps l l'' now j
  Keeps-trans l l' l'' now j e k (inl same) = Keeps-after l l' l'' now j k same
  Keeps-trans l l' l'' now j e (inr (b, there, gone, idle)) (inr (c, there', gone', idle')) =
      inr (b, there, gone', idle)
  Keeps-trans l l' l'' now j e (inl same) (inr (b, there, gone, idle)) = inr (
    b,
    sym same ∙ there,
    gone,
    subst
        (λ full.
          (lt full (sub now b.at) ≡ true) ⊎ (lt (dmax (lit 60 0) full) (sub now b.at) ≡ true))
        e idle,
  )

  pub UniqueKeys-minute_sweep :
      (l : RateLimiter D) (now : D) → UniqueKeys l.buckets → UniqueKeys (minute_sweep l now).buckets
  unfolding minute_sweep sweep
  UniqueKeys-minute_sweep l now u = elim (Bool-cases (lt (lit 60 0) (sub now l.last_sweep))) [
    | inl due ↦ rw due (UniqueKeys-erase_if _ l.buckets u)
    | inr soon ↦ rw soon u
  ]

  full_of-minute_sweep : (l : RateLimiter D) (now : D) → full_of (minute_sweep l now) ≡ full_of l
  unfolding minute_sweep sweep
  full_of-minute_sweep l now = elim (Bool-cases (lt (lit 60 0) (sub now l.last_sweep))) [
    | inl due ↦ rw due refl
    | inr soon ↦ rw soon refl
  ]

  check_client-Keeps :
      (l : RateLimiter D) (key j : Key) (now draw : D)
      → UniqueKeys l.buckets
      → eq_key key j ≡ false
      → Keeps l (check_client l key now draw).0 now j
  unfolding check_client check_known
  check_client-Keeps l key j now draw u h = elim (Option-cases (lookup key l.buckets)) [
    | inl e ↦ rw (e, check_client) (check_new-Keeps l key j now u h)
    | inr (b, e) ↦ rw (e, check_client) (inl (lookup-insert_ne j key _ l.buckets h))
  ]

  -- Where no key stands twice: a request of one client leaves the bucket of every other as it was, or
  -- a sweep has taken it, and there is none after; such a bucket has been idle for longer than it takes
  -- to fill, or than the longer of that and a minute.
  pub check-Keeps :
      (l : RateLimiter D) (a : IpAddr) (j : Key) (now draw : D)
      → UniqueKeys l.buckets
      → eq_key (client_key (client_of l.cfg a)) j ≡ false
      → Keeps l (check l a now draw).0 now j
  unfolding check
  check-Keeps l a j now draw u h = elim (Bool-cases (le l.cfg.interval_sec (lit 0 0))) [
    | inl off ↦ rw off (inl refl)
    | inr on ↦ rw on (elim (Bool-cases (is_unspecified a.family)) [
      | inl unknown ↦ rw unknown (inl refl)
      | inr known ↦ rw known (elim (Bool-cases (is_exempt l.exempt a)) [
        | inl exempt ↦ rw exempt (inl refl)
        | inr limited ↦ rw limited (
            Keeps-trans l (minute_sweep l now)
              (check_client (minute_sweep l now) (client_key (client_of l.cfg a)) now draw).0 now j
              (full_of-minute_sweep l now) (minute_sweep-Keeps l now j u)
              (check_client-Keeps (minute_sweep l now) (client_key (client_of l.cfg a)) j now draw
                (UniqueKeys-minute_sweep l now u) h))
      ])
    ])
  ]
