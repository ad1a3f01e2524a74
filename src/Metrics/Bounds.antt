-- ===== src/Metrics/Bounds.antt =====
-- src/Metrics.cpp: the history never grows past its bounds, and its index never leads out of it.
use ubersdr_ntp.Prelude.{
  ℕ, zero, suc, ◌-◌, ◌≤◌, ◌<◌, ◌≡◌, inl, inr, refl, sym, ap, ◌∙◌, Bool, not, ◌||◌, List, [], ◌∷◌,
  ◌++◌, some, Option-cases, length, length-append, length-drop, length-set, get_elem?, set, All,
  All-map, All-append, All-set, All-get, some_inj, leb, if_lem, arith,
}
use ubersdr_ntp.Prelude.Double.{Double, lt}
use ubersdr_ntp.Prelude.Dict.{Key, eq_key, lookup, insert}
use ubersdr_ntp.Metrics.{
  MetricTier, MetricSeriesInfo, Series, MetricHistory, max_series, hour_buckets, day_buckets,
  add_to_tier, bucket_start, new_history, new_series, push_series, sample, add_at, add_sample,
}

-- A sample: of which series, when, and its value.
abbrev pub Sample : Type 0 → Type 0
Sample D = MetricSeriesInfo × (D × D)

-- The series at an index has an id.
abbrev pub Names : {D : Type 0} → List (Series D) → Key × ℕ → Type 0
Names es (k, i) = (e : Series _) × (get_elem? es i ≡ some e) × (e.info.id ≡ k)

abbrev pub IsTier : {D : Type 0} → ℕ → MetricTier D → Type 0
IsTier capacity t = (t.capacity ≡ capacity) × (length t.done ≤ capacity)

abbrev pub IsSeries : {D : Type 0} → Series D → Type 0
IsSeries e = IsTier hour_buckets e.hour × IsTier day_buckets e.day

-- A history in use: at most `kMaxSeries` series, each with an hour of minutes and a day of half hours at
-- most, and an index that leads to the series it names.
pub record WellFormed {D : Type 0} (h : MetricHistory D) : Type 0 where
  pub bounded : length h.series ≤ max_series
  pub tiers : All IsSeries h.series
  pub indexed : All (Names h.series) h.index

module _ {D : Type 0} where
  Names-append :
      (es : List (Series D)) (x : Series D) (p : Key × ℕ) → Names es p → Names (es ++ (x ∷ [])) p
  Names-append [] x (k, i) (e, at, id) = cc
  Names-append (y ∷ es) x (k, zero) n = n
  Names-append (y ∷ es) x (k, suc i) n = Names-append es x (k, i) n

  Names-pushed :
      (es : List (Series D)) (x : Series D) → Names (es ++ (x ∷ [])) (x.info.id, length es)
  Names-pushed [] x = (x, refl, refl)
  Names-pushed (y ∷ es) x = Names-pushed es x

  Names-set :
      (es : List (Series D)) (i : ℕ) (e e' : Series D) (p : Key × ℕ)
      → get_elem? es i ≡ some e
      → e'.info ≡ e.info
      → Names es p
      → Names (set es i e') p
  Names-set [] i e e' (k, j) at same n = n
  Names-set (x ∷ es) zero e e' (k, zero) at same (y, at', id) = (
    e',
    refl,
    ap (λ (info : MetricSeriesInfo). info.id) same
        ∙ ap (λ (s : Series D). s.info.id) (sym (some_inj at) ∙ some_inj at')
        ∙ id,
  )
  Names-set (x ∷ es) zero e e' (k, suc j) at same n = n
  Names-set (x ∷ es) (suc i) e e' (k, zero) at same n = n
  Names-set (x ∷ es) (suc i) e e' (k, suc j) at same n = Names-set es i e e' (k, j) at same n

All-insert :
    (P : Key × ℕ → Type 0) (k : Key) (i : ℕ) (m : List (Key × ℕ))
    → P (k, i)
    → All P m
    → All P (insert k i m)
unfolding insert
All-insert P k i [] p h = (p, tt)
All-insert P k i ((j, w) ∷ m) p h =
    if_lem (All P) (eq_key j k) _ _ (λ _. (p, h.1)) (λ _. (h.0, All-insert P k i m p h.1))

module _ {D : Type 0} ⦃f : Double D⦄ where
  add_to_tier-IsTier :
      (capacity : ℕ) (t : MetricTier D) (unix value : D)
      → IsTier capacity t
      → IsTier capacity (add_to_tier t unix value)
  unfolding add_to_tier
  add_to_tier-IsTier capacity t unix value h =
      if_lem (IsTier capacity) (not t.have_current || lt t.current.start (bucket_start t unix)) _ _
        (λ _. (
          h.0,
          if_lem (λ (xs : List _). length xs ≤ capacity) t.have_current _ _
              (λ _. omega (
                arith,
                h.0,
                length-drop (length (t.done ++ (t.current ∷ [])) - t.capacity)
                    (t.done ++ (t.current ∷ [])),
              ))
              (λ _. h.1),
        ))
        (λ _. h)

  add_at-WellFormed :
      (h : MetricHistory D) (i : ℕ) (unix value : D)
      → WellFormed h
      → WellFormed (add_at h i unix value)
  unfolding add_at
  add_at-WellFormed h i unix value w = elim (Option-cases (get_elem? h.series i)) [
    | inl out ↦ rw (add_at, out) w
    | inr at ↦
        rw (add_at, at.1)
          (record {
            bounded = omega (arith, w.bounded, length-set h.series i (sample at.0 unix value));
            tiers =
                let old = All-get IsSeries h.series i at.0 at.1 w.tiers in
                All-set IsSeries h.series i (sample at.0 unix value)
                  (
                    add_to_tier-IsTier hour_buckets at.0.hour unix value old.0,
                    add_to_tier-IsTier day_buckets at.0.day unix value old.1,
                  )
                  w.tiers;
            indexed =
                All-map (Names h.series) (Names (set h.series i (sample at.0 unix value))) h.index
                  (λ p n. Names-set h.series i at.0 (sample at.0 unix value) p at.1 refl n)
                  w.indexed;
          })
  ]

  push_series-WellFormed :
      (h : MetricHistory D) (info : MetricSeriesInfo)
      → length h.series < max_series
      → WellFormed h
      → WellFormed (push_series h info)
  push_series-WellFormed h info room w = record {
    bounded = omega (arith, room, length-append h.series (new_series info ∷ []));
    tiers = All-append IsSeries h.series _ w.tiers (((refl, omega arith), (refl, omega arith)), tt);
    indexed =
        All-insert (Names (h.series ++ (new_series info ∷ []))) info.id (length h.series) h.index
          (Names-pushed h.series (new_series info))
          (All-map (Names h.series) (Names (h.series ++ (new_series info ∷ []))) h.index
            (λ p n. Names-append h.series (new_series info) p n) w.indexed);
  }

  add_sample-WellFormed :
      (is_finite : D → Bool) (h : MetricHistory D) (info : MetricSeriesInfo) (unix value : D)
      → WellFormed h
      → WellFormed (add_sample is_finite h info unix value)
  unfolding add_sample
  add_sample-WellFormed is_finite h info unix value w =
      if_lem WellFormed (not (is_finite value) || not (is_finite unix)) _ _ (λ _. w)
        (λ _. elim (Option-cases (lookup info.id h.index)) [
          | inr known ↦ rw known.1 (add_at-WellFormed h known.0 unix value w)
          | inl unknown ↦ rw unknown (
              if_lem WellFormed (leb max_series (length h.series)) _ _ (λ _. w)
                (λ room.
                  add_at-WellFormed (push_series h info) (length h.series) unix value
                    (push_series-WellFormed h info (ground (arith, room)) w)))
        ])

  abbrev pub add_all : (D → Bool) → MetricHistory D → List (Sample D) → MetricHistory D
  add_all is_finite h [] = h
  add_all is_finite h ((info, (unix, value)) ∷ ss) =
      add_all is_finite (add_sample is_finite h info unix value) ss

  add_all-WellFormed_from :
      (is_finite : D → Bool) (ss : List (Sample D)) (h : MetricHistory D)
      → WellFormed h
      → WellFormed (add_all is_finite h ss)
  add_all-WellFormed_from is_finite [] h w = w
  add_all-WellFormed_from is_finite ((info, (unix, value)) ∷ ss) h w =
      add_all-WellFormed_from is_finite ss (add_sample is_finite h info unix value)
        (add_sample-WellFormed is_finite h info unix value w)

  -- After any samples, whatever the sources report, the history has at most `kMaxSeries` series, each of
  -- at most 60 done minutes and 48 done half hours, and every entry of its index is that of the series
  -- with its id.
  pub add_all-WellFormed :
      (is_finite : D → Bool) (ss : List (Sample D)) → WellFormed (add_all is_finite new_history ss)
  unfolding max_series
  add_all-WellFormed is_finite ss =
      add_all-WellFormed_from is_finite ss new_history
        (record { bounded = omega arith; tiers = tt; indexed = tt })
