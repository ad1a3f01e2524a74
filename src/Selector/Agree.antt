-- ===== src/Selector/Agree.antt =====
-- src/Selector.cpp: the largest set of candidates whose intervals share a point.
use ubersdr_ntp.Prelude.{
  ℕ, ◌+◌, Bool, false, ◌&&◌, ◌||◌, List, [], ◌∷◌, ◌++◌, get_or, if◌then◌else◌,
}
use ubersdr_ntp.Prelude.Int.{ℤ, pos, negsuc, ◌+ℤ◌, ltb_ℤ, eqb_ℤ}
use ubersdr_ntp.Prelude.Double.{Double, add, sub, mul, div, lt, le, lit}
use ubersdr_ntp.Prelude.Dict.{Key, insert}
use ubersdr_ntp.Prelude.Sort.{sort_by}
use ubersdr_ntp.Selector.{Candidate, Reason, outside_majority, no_majority}
use ubersdr_ntp.Selector.Combined.{LastGood}

pub record Edge (D : Type 0) : Type 0 where
  pub at : D
  pub delta : ℤ

pub record Region (D : Type 0) : Type 0 where
  pub lo : D
  pub hi : D

-- The survivors, and what becomes of the others.
pub record Agreed (D : Type 0) : Type 0 where
  pub survivors : List (Candidate D)
  pub rejected_names : List Key
  pub not_used_reasons : List (Key × Reason D)

abbrev pub max_ℤ : ℤ → ℤ → ℤ
max_ℤ a b = if ltb_ℤ a b then b else a

-- `e.delta > 0`.
abbrev pub is_opening : {D : Type 0} → Edge D → Bool
is_opening e = ltb_ℤ (pos 0) e.delta

module _ {D : Type 0} where
  -- The first sweep: `best`, with `open` so far.
  unfoldable pub best_from : ℤ → ℤ → List (Edge D) → ℤ
  best_from open_now best [] = best
  best_from open_now best (e ∷ es) =
      let now_open = open_now +ℤ e.delta in
      best_from now_open (if is_opening e then max_ℤ best now_open else best) es

  -- The edge after this one, or this one where it is the last.
  abbrev pub next_at : Edge D → List (Edge D) → D
  next_at e [] = e.at
  next_at e (e' ∷ es) = e'.at

  -- The second sweep: `regions`.
  unfoldable pub regions_from : ℤ → ℤ → List (Edge D) → List (Region D)
  regions_from open_now best [] = []
  regions_from open_now best (e ∷ es) =
      let now_open = open_now +ℤ e.delta in
      let rest = regions_from now_open best es in
      if is_opening e && eqb_ℤ now_open best
      then record { lo = e.at; hi = next_at e es } ∷ rest
      else rest

  -- `for (i = 1; ...) if (better(i, pick)) pick = i;` from index i.
  unfoldable pub pick_from : (Region D → Region D → Bool) → ℕ → ℕ → Region D → List (Region D) → ℕ
  pick_from better i pick best [] = pick
  pick_from better i pick best (r ∷ rs) =
      let b = better r best in
      pick_from better (i + 1) (if b then i else pick) (if b then r else best) rs

  unfoldable pub pick_region : (Region D → Region D → Bool) → List (Region D) → ℕ
  pick_region better [] = 0
  pick_region better (r ∷ rs) = pick_from better 1 0 r rs

module _ {D : Type 0} ⦃f : Double D⦄ where
  abbrev pub no_region : Region D
  no_region = record { lo = lit 0 0; hi = lit 0 0 }

  unfoldable pub edges_of : List (Candidate D) → List (Edge D)
  edges_of [] = []
  edges_of (k ∷ ks) =
      record { at = sub k.offset k.dist; delta = pos 1 }
      ∷ record { at = add k.offset k.dist; delta = negsuc 0 }
      ∷ edges_of ks

  -- `a.at != b.at ? a.at < b.at : a.delta < b.delta`.
  unfoldable pub edge_less : Edge D → Edge D → Bool
  edge_less a b = if le a.at b.at && le b.at a.at then ltb_ℤ a.delta b.delta else lt a.at b.at

  unfoldable pub sorted_edges : List (Candidate D) → List (Edge D)
  sorted_edges cand = sort_by edge_less (edges_of cand)

  unfoldable pub best_of : List (Candidate D) → ℤ
  best_of cand = best_from (pos 0) (pos 0) (sorted_edges cand)

  unfoldable pub regions_of : List (Candidate D) → List (Region D)
  regions_of cand = regions_from (pos 0) (best_of cand) (sorted_edges cand)

  unfoldable pub in_region : Candidate D → Region D → Bool
  in_region k r = le (sub k.offset k.dist) r.lo && le r.lo (add k.offset k.dist)

  -- How far a region is from the served time carried on.
  unfoldable pub away : D → Region D → D
  away ref r = if lt ref r.lo then sub r.lo ref else if lt r.hi ref then sub ref r.hi else lit 0 0

  abbrev pub weight_of : Candidate D → D
  weight_of k = div k.weight (mul k.quality k.quality)

  unfoldable pub score_from : D → List (Candidate D) → Region D → D
  score_from w [] r = w
  score_from w (k ∷ ks) r = score_from (if in_region k r then add w (weight_of k) else w) ks r

  unfoldable pub pick_of : LastGood D → List (Candidate D) → D → ℕ
  pick_of good cand now =
      let ref = add good.offset (mul good.rate (sub now good.at)) in
      let score = score_from (lit 0 0) cand in
      pick_region
        (if good.have_last
          then (λ r best. lt (away ref r) (away ref best))
          else (λ r best. lt (score best) (score r)))
        (regions_of cand)

  unfoldable pub in_any_region : Candidate D → List (Region D) → Bool
  in_any_region k [] = false
  in_any_region k (r ∷ rs) = in_region k r || in_any_region k rs

  -- The loop that keeps the candidates in the region picked.
  unfoldable pub keep_agreeing :
      Bool → ℤ → List (Region D) → Region D → Agreed D → List (Candidate D) → Agreed D
  keep_agreeing have_last best regions picked a [] = a
  keep_agreeing have_last best regions picked a (k ∷ ks) =
      keep_agreeing have_last best regions picked
        (if in_region k picked then record a { survivors = a.survivors ++ (k ∷ []) } else record a {
          rejected_names = a.rejected_names ++ (k.s.name ∷ []);
          not_used_reasons =
              insert k.s.name
                (if in_any_region k regions
                  then no_majority k.offset k.dist best have_last
                  else outside_majority k.offset k.dist best)
                a.not_used_reasons;
        })
        ks

  -- One candidate is the answer, as it is; of more, those that agree.
  unfoldable pub agree : LastGood D → D → Agreed D → List (Candidate D) → Agreed D
  agree good now a [] = a
  agree good now a (k ∷ []) = record a { survivors = k ∷ [] }
  agree good now a (k ∷ k' ∷ ks) =
      let cand = k ∷ k' ∷ ks in
      keep_agreeing good.have_last (best_of cand) (regions_of cand)
        (get_or (regions_of cand) (pick_of good cand now) no_region) a cand
