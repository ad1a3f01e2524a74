-- ===== src/Selector/Regions.antt =====
-- src/Selector.cpp: `regions[pick]` exists, in whatever order the sort leaves the edges.
use ubersdr_ntp.Prelude.{
  ℕ, ◌+◌, ◌≤◌, ◌<◌, ◌≡◌, ◌⊎◌, refl, ap, subst, ◌∙◌, inl, inr, Bool, true, false, List, [], ◌∷◌,
  length, Bool-cases, arith, if◌then◌else◌,
}
use ubersdr_ntp.Prelude.Int.{ℤ, pos, ◌+ℤ◌, ◌≤ℤ◌, int_laws, parts_of_eq}
use ubersdr_ntp.Prelude.Double.{Double}
use ubersdr_ntp.Prelude.Sort.{insert_sorted, sort_by}
use ubersdr_ntp.Selector.{Candidate}
use ubersdr_ntp.Selector.Combined.{LastGood}
use ubersdr_ntp.Selector.Agree.{
  Edge, Region, is_opening, max_ℤ, best_from, regions_from, pick_from, pick_region, edges_of,
  edge_less, sorted_edges, best_of, regions_of, pick_of,
}

max_ℤ-ge : (a b : ℤ) → (a ≤ℤ max_ℤ a b) × (b ≤ℤ max_ℤ a b)
max_ℤ-ge a b = ground arith

module _ {D : Type 0} where
  sum_deltas : List (Edge D) → ℤ
  sum_deltas [] = pos 0
  sum_deltas (e ∷ es) = e.delta +ℤ sum_deltas es

  count_openings : List (Edge D) → ℕ
  count_openings [] = 0
  count_openings (e ∷ es) = (if is_opening e then 1 else 0) + count_openings es

  insert_sorted_lem :
      (less : Edge D → Edge D → Bool) (e : Edge D) (es : List (Edge D))
      → (sum_deltas (insert_sorted less e es) ≡ sum_deltas (e ∷ es))
        × (count_openings (insert_sorted less e es) ≡ count_openings (e ∷ es))
  unfolding insert_sorted sum_deltas count_openings
  insert_sorted_lem less e [] = (refl, refl)
  insert_sorted_lem less e (x ∷ xs) = elim (Bool-cases (less e x)) [
    | inl before ↦ rw before (refl, refl)
    | inr after ↦
        let ih = insert_sorted_lem less e xs in
        rw after (rw ih.0 (omega int_laws), omega (arith, ih.1))
  ]

  sort_by_lem :
      (less : Edge D → Edge D → Bool) (es : List (Edge D))
      → (sum_deltas (sort_by less es) ≡ sum_deltas es)
        × (count_openings (sort_by less es) ≡ count_openings es)
  unfolding sort_by sum_deltas count_openings
  sort_by_lem less [] = (refl, refl)
  sort_by_lem less (e ∷ es) =
      let ih = sort_by_lem less es in
      let i = insert_sorted_lem less e (sort_by less es) in
      (i.0 ∙ ap (λ s. e.delta +ℤ s) ih.0, omega (arith, i.1, ih.1))

  best_from-ge : (open_now best : ℤ) (es : List (Edge D)) → best ≤ℤ best_from open_now best es
  unfolding best_from
  best_from-ge o b [] = omega arith
  best_from-ge o b (e ∷ es) =
      ground
        (arith, best_from-ge (o +ℤ e.delta) (if is_opening e then max_ℤ b (o +ℤ e.delta) else b) es)

  -- The best is what it was, or it is reached at an opening, which begins a region.
  best_from-reached :
      (open_now best : ℤ) (es : List (Edge D))
      → (best_from open_now best es ≡ best)
        ⊎ (1 ≤ length (regions_from open_now (best_from open_now best es) es))
  unfolding best_from regions_from
  best_from-reached o b [] = inl refl
  best_from-reached o b (e ∷ es) = ground (
    arith,
    best_from-reached (o +ℤ e.delta) (if is_opening e then max_ℤ b (o +ℤ e.delta) else b) es,
  )

  opening_pos : (e : Edge D) → is_opening e ≡ true → pos 1 ≤ℤ e.delta
  opening_pos e h = ground arith

  closing_neg : (e : Edge D) → is_opening e ≡ false → e.delta ≤ℤ pos 0
  closing_neg e h = ground arith

  closings_fall : (es : List (Edge D)) → count_openings es ≡ 0 → sum_deltas es ≤ℤ pos 0
  unfolding sum_deltas count_openings
  closings_fall [] h = omega arith
  closings_fall (e ∷ es) h = elim (Bool-cases (is_opening e)) [
    | inl opens ↦ absurd (omega (arith, rw opens at h))
    | inr closes ↦
        omega (int_laws, closings_fall es (omega (arith, rw closes at h)), closing_neg e closes)
  ]

  -- An opening that leaves nothing open, with only closings after it.
  last_opening :
      (now_open : ℤ) (es : List (Edge D))
      → best_from now_open (max_ℤ (pos 0) now_open) es ≡ pos 0
      → count_openings es ≡ 0
      → now_open +ℤ sum_deltas es ≡ pos 0
      → now_open ≡ pos 0
  last_opening o es h c sum = omega (
    int_laws,
    parts_of_eq sum,
    parts_of_eq h,
    closings_fall es c,
    max_ℤ-ge (pos 0) o,
    best_from-ge o (max_ℤ (pos 0) o) es,
  )

  region_at :
      (open_now : ℤ) (e : Edge D) (es : List (Edge D))
      → is_opening e ≡ true
      → open_now +ℤ e.delta ≡ pos 0
      → 1 ≤ length (regions_from open_now (pos 0) (e ∷ es))
  unfolding regions_from
  region_at o e es opens zero_open = rw (opens, zero_open) (omega arith)

  regions_from-cons :
      (open_now best : ℤ) (e : Edge D) (es : List (Edge D))
      → length (regions_from (open_now +ℤ e.delta) best es)
        ≤ length (regions_from open_now best (e ∷ es))
  unfolding regions_from
  regions_from-cons o b e es = ground arith

  max_ℤ-zero :
      (a : ℤ) (es : List (Edge D))
      → best_from a (max_ℤ (pos 0) a) es ≡ pos 0
      → max_ℤ (pos 0) a ≡ pos 0
  max_ℤ-zero a es h =
      omega (int_laws, parts_of_eq h, max_ℤ-ge (pos 0) a, best_from-ge a (max_ℤ (pos 0) a) es)

  -- Where the best is 0 and all that opens closes again, some opening leaves nothing open.
  best_zero :
      (open_now : ℤ) (es : List (Edge D))
      → best_from open_now (pos 0) es ≡ pos 0
      → open_now +ℤ sum_deltas es ≡ pos 0
      → (count_openings es ≡ 0) ⊎ (1 ≤ length (regions_from open_now (pos 0) es))
  unfolding best_from sum_deltas count_openings
  best_zero o [] h sum = inl refl
  best_zero o (e ∷ es) h sum = elim (Bool-cases (is_opening e)) [
    | inr closes ↦
        elim (best_zero (o +ℤ e.delta) es (rw closes at h) (omega (int_laws, parts_of_eq sum))) [
          | inl none_open ↦ inl (rw closes (omega (arith, none_open)))
          | inr later ↦ inr (omega (arith, later, regions_from-cons o (pos 0) e es))
        ]
    | inl opens ↦
        let h' = rw opens at h in
        let h0 =
          subst (λ m. best_from (o +ℤ e.delta) m es ≡ pos 0) (max_ℤ-zero (o +ℤ e.delta) es h') h' in
        elim (best_zero (o +ℤ e.delta) es h0 (omega (int_laws, parts_of_eq sum))) [
          | inl none_open ↦ inr (
              region_at o e es opens
                (last_opening (o +ℤ e.delta) es h' none_open (omega (int_laws, parts_of_eq sum))))
          | inr later ↦ inr (omega (arith, later, regions_from-cons o (pos 0) e es))
        ]
  ]

  regions_found :
      (es : List (Edge D))
      → 1 ≤ count_openings es
      → sum_deltas es ≡ pos 0
      → 1 ≤ length (regions_from (pos 0) (best_from (pos 0) (pos 0) es) es)
  regions_found es some_open sum = elim (best_from-reached (pos 0) (pos 0) es) [
    | inr found ↦ found
    | inl e ↦ rw e (elim (best_zero (pos 0) es e (omega (int_laws, parts_of_eq sum))) [
      | inl none_open ↦ absurd (omega (arith, none_open))
      | inr found ↦ found
    ])
  ]

  pick_from-lt :
      (better : Region D → Region D → Bool) (i pick : ℕ) (best : Region D) (rs : List (Region D))
      → pick < i
      → pick_from better i pick best rs < i + length rs
  unfolding pick_from
  pick_from-lt better i pick best [] h = omega arith
  pick_from-lt better i pick best (r ∷ rs) h = elim (Bool-cases (better r best)) [
    | inl b ↦ rw b (omega (arith, pick_from-lt better (i + 1) i r rs (omega arith)))
    | inr b ↦ rw b (omega (arith, pick_from-lt better (i + 1) pick best rs (omega arith)))
  ]

  pick_region-lt-length :
      (better : Region D → Region D → Bool) (rs : List (Region D))
      → 1 ≤ length rs
      → pick_region better rs < length rs
  unfolding pick_region
  pick_region-lt-length better [] h = absurd (omega arith)
  pick_region-lt-length better (r ∷ rs) h =
      omega (arith, pick_from-lt better 1 0 r rs (omega arith))

module _ {D : Type 0} ⦃f : Double D⦄ where
  edges_of_lem :
      (cand : List (Candidate D))
      → (sum_deltas (edges_of cand) ≡ pos 0) × (count_openings (edges_of cand) ≡ length cand)
  unfolding edges_of sum_deltas count_openings
  edges_of_lem [] = (refl, refl)
  edges_of_lem (k ∷ ks) =
      let ih = edges_of_lem ks in (rw ih.0 (omega int_laws), omega (arith, ih.1))

  regions_of-found : (k : Candidate D) (ks : List (Candidate D)) → 1 ≤ length (regions_of (k ∷ ks))
  unfolding regions_of best_of sorted_edges
  regions_of-found k ks =
      let s = sort_by_lem edge_less (edges_of (k ∷ ks)) in
      let e = edges_of_lem (k ∷ ks) in regions_found _ (omega (arith, s.1, e.1)) (s.0 ∙ e.0)

  -- Of any candidates, whatever their offsets compare as, there is a region to keep: the index that the
  -- pass picks is one of a region.
  pub pick_of-lt-length :
      (good : LastGood D) (k : Candidate D) (ks : List (Candidate D)) (now : D)
      → pick_of good (k ∷ ks) now < length (regions_of (k ∷ ks))
  unfolding pick_of
  pick_of-lt-length good k ks now = pick_region-lt-length _ _ (regions_of-found k ks)
