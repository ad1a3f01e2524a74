-- ===== src/Selector/Traced.antt =====
-- src/Selector.cpp: the stratum, the leap warning and the offset of a pass, described apart from its loops.
use ubersdr_ntp.Prelude.{
  ◌≡◌, refl, ap, sym, ◌∙◌, Bool, ◌⊎◌, inl, inr, true, false, List, [], ◌∷◌, map, All, arith,
  Bool-cases, if◌then◌else◌,
}
use ubersdr_ntp.Prelude.Int.{ℤ, pos, ◌+ℤ◌, ◌≤ℤ◌, ltb_ℤ, +ℤ_parts}
use ubersdr_ntp.Prelude.Double.{Double, add, mul, div, lt, lit}
use ubersdr_ntp.Selector.{Candidate}
use ubersdr_ntp.Selector.Agree.{weight_of}
use ubersdr_ntp.Selector.Answer.{
  is_radio, clamp, max_stratum, lowest_from, stratum_of, all_leap_pending, weigh, sum_weights,
  mean_of, average_of,
}

abbrev BelowOr : ℤ → ℤ → Type 0
BelowOr l m = (l ≤ℤ pos 0) ⊎ (l ≤ℤ m)

BelowOr-trans : (l m n : ℤ) → BelowOr l m → BelowOr m n → BelowOr l n
BelowOr-trans l m n h k = ground (arith, h, k)

abbrev stratum_above : ℤ → ℤ
stratum_above l = clamp (l +ℤ pos 1) (pos 1) max_stratum

above_source :
    (l m : ℤ) → BelowOr l m → (stratum_above l ≤ℤ pos 1) ⊎ (stratum_above l ≤ℤ (m +ℤ pos 1))
above_source l m h = ground (arith, +ℤ_parts l (pos 1), +ℤ_parts m (pos 1), h)

at_least : (l m : ℤ) → ltb_ℤ (pos 15) (l +ℤ pos 1) ≡ false → m ≡ l → (m +ℤ pos 1) ≤ℤ stratum_above l
at_least l m h e = rw e (ground (arith, h))

last_stratum : (l : ℤ) → ltb_ℤ (pos 15) (l +ℤ pos 1) ≡ true → stratum_above l ≡ pos 15
last_stratum l h = ground (arith, h)

module _ {D : Type 0} where
  -- Some candidate meets a predicate.
  abbrev pub Some : (Candidate D → Type 0) → List (Candidate D) → Type 0
  Some P [] = ⊥
  Some P (k ∷ ks) = P k ⊎ Some P ks

  -- The stratum of a source: 0 of a radio clock, else what the upstream server says.
  abbrev pub source_stratum : Candidate D → ℤ
  source_stratum k = if is_radio k.s.kind then pos 0 else k.s.ntp.stratum

  -- One more than the lowest stratum, from 1 to 15.
  pub record IsStratum (ks : List (Candidate D)) (stratum : ℤ) : Type 0 where
    pub from_one : pos 1 ≤ℤ stratum
    pub to_last : stratum ≤ℤ pos 15
    pub not_above : All (λ k. (stratum ≤ℤ pos 1) ⊎ (stratum ≤ℤ (source_stratum k +ℤ pos 1))) ks
    pub not_below : (stratum ≡ pos 15) ⊎ Some (λ k. (source_stratum k +ℤ pos 1) ≤ℤ stratum) ks

  -- The warning is given by all, or not given and one of them does not give it.
  abbrev pub IsWarning : List (Candidate D) → Bool → Type 0
  IsWarning ks warns =
      ((warns ≡ true) × All (λ k. k.s.leap_pending ≡ true) ks)
      ⊎ ((warns ≡ false) × Some (λ k. k.s.leap_pending ≡ false) ks)

  pub all_leap_pending-IsWarning : (ks : List (Candidate D)) → IsWarning ks (all_leap_pending ks)
  unfolding all_leap_pending
  all_leap_pending-IsWarning [] = inl (refl, tt)
  all_leap_pending-IsWarning (k ∷ ks) = elim (Bool-cases k.s.leap_pending) [
    | inr none ↦ rw none (inr (refl, inl refl))
    | inl warns ↦ rw warns (elim (all_leap_pending-IsWarning ks) [
      | inl (e, all) ↦ inl (e, (refl, all))
      | inr (e, one) ↦ inr (e, inr one)
    ])
  ]

  abbrev next_lowest : ℤ → Candidate D → ℤ
  next_lowest lowest k =
      if is_radio k.s.kind
      then pos 0
      else if ltb_ℤ k.s.ntp.stratum lowest
      then k.s.ntp.stratum
      else lowest

  next_lowest_lem :
      (lowest : ℤ) (k : Candidate D)
      → let n = next_lowest lowest k in
        ((n ≤ℤ pos 0) ⊎ (n ≤ℤ lowest))
        × ((n ≤ℤ pos 0) ⊎ (n ≤ℤ source_stratum k))
        × ((n ≡ lowest) ⊎ (source_stratum k ≡ n))
  next_lowest_lem lowest k = ground arith

  Lowest : ℤ → List (Candidate D) → ℤ → Type 0
  Lowest lowest ks l =
      BelowOr l lowest
      × All (λ k. BelowOr l (source_stratum k)) ks
      × ((l ≡ lowest) ⊎ Some (λ k. source_stratum k ≡ l) ks)

  lowest_from-Lowest :
      (lowest : ℤ) (ks : List (Candidate D)) → Lowest lowest ks (lowest_from lowest ks)
  unfolding lowest_from Lowest
  lowest_from-Lowest lowest [] = (ground arith, tt, inl refl)
  lowest_from-Lowest lowest (k ∷ ks) =
      let n = next_lowest lowest k in
      let l = lowest_from n ks in
      let step = next_lowest_lem lowest k in
      let ih = lowest_from-Lowest n ks in
      (
        BelowOr-trans l n lowest ih.0 step.0,
        (BelowOr-trans l n (source_stratum k) ih.0 step.1, ih.1),
        elim ih.2 [
          | inr later ↦ inr (inr later)
          | inl e ↦ elim step.2 [ inl same ↦ inl (e ∙ same) | inr here ↦ inr (inl (here ∙ sym e)) ]
        ],
      )

  All-weaken :
      {P Q : Candidate D → Type 0} (ks : List (Candidate D))
      → ((k : Candidate D) → P k → Q k)
      → All P ks
      → All Q ks
  All-weaken [] h a = tt
  All-weaken (k ∷ ks) h a = (h k a.0, All-weaken ks h a.1)

  Some-weaken :
      {P Q : Candidate D → Type 0} (ks : List (Candidate D))
      → ((k : Candidate D) → P k → Q k)
      → Some P ks
      → Some Q ks
  Some-weaken [] h e = e
  Some-weaken (k ∷ ks) h (inl here) = inl (h k here)
  Some-weaken (k ∷ ks) h (inr later) = inr (Some-weaken ks h later)

  pub stratum_of-IsStratum : (ks : List (Candidate D)) → IsStratum ks (stratum_of ks)
  unfolding stratum_of Lowest ◌+ℤ◌
  stratum_of-IsStratum ks =
      let l = lowest_from (pos 16) ks in
      let h = lowest_from-Lowest (pos 16) ks in
      record {
        from_one = ground arith;
        to_last = ground arith;
        not_above = All-weaken ks (λ k b. above_source l (source_stratum k) b) h.1;
        not_below = elim h.2 [
          | inl none ↦ inl (ap stratum_above none)
          | inr one ↦ elim (Bool-cases (ltb_ℤ (pos 15) (l +ℤ pos 1))) [
            | inl last ↦ inl (last_stratum l last)
            | inr below ↦ inr (Some-weaken ks (λ k e. at_least l (source_stratum k) below e) one)
          ]
        ];
      }

module _ {D : Type 0} ⦃f : Double D⦄ where
  -- The sum of some numbers, from the first on.
  abbrev pub sum_from : D → List D → D
  sum_from total [] = total
  sum_from total (x ∷ xs) = sum_from (add total x) xs

  -- The mean of the offsets by their weights; where no weight is above zero, the first offset.
  pub record IsMean (k : Candidate D) (ks : List (Candidate D)) (mean : D) : Type 0 where
    pub weighed :
        lt (lit 0 0) (sum_from (lit 0 0) (map weight_of (k ∷ ks))) ≡ true
        → mean
          ≡ div
              (sum_from (lit 0 0) (map (λ (j : Candidate D). mul (weight_of j) j.offset) (k ∷ ks)))
              (sum_from (lit 0 0) (map weight_of (k ∷ ks)))
    pub weightless :
        lt (lit 0 0) (sum_from (lit 0 0) (map weight_of (k ∷ ks))) ≡ false → mean ≡ k.offset

  sum_weights-sum_from :
      (total : D) (ks : List (Candidate D))
      → sum_weights total ks ≡ sum_from total (map weight_of ks)
  unfolding sum_weights
  sum_weights-sum_from total [] = refl
  sum_weights-sum_from total (k ∷ ks) = sum_weights-sum_from (add total (weight_of k)) ks

  weigh-sum_from :
      (total : D) (ks : List (Candidate D))
      → weigh (λ j. j.offset) total ks
        ≡ sum_from total (map (λ (j : Candidate D). mul (weight_of j) j.offset) ks)
  unfolding weigh
  weigh-sum_from total [] = refl
  weigh-sum_from total (k ∷ ks) = weigh-sum_from (add total (mul (weight_of k) k.offset)) ks

  pub average_of-IsMean :
      (k : Candidate D) (ks : List (Candidate D)) → IsMean k ks (average_of k ks).offset
  unfolding average_of mean_of
  average_of-IsMean k ks =
      let w = sum_weights-sum_from (lit 0 0) (k ∷ ks) in
      let t = weigh-sum_from (lit 0 0) (k ∷ ks) in
      record { weighed = λ e. rw (w, e, t) refl; weightless = λ e. rw (w, e) refl }
