-- ===== src/Selector/Serves.antt =====
-- src/Selector.cpp: what a synchronised result promises, and what never goes into one.
use ubersdr_ntp.Prelude.{
  ◌≡◌, ◌∙◌, ap, ◌≢◌, ◌⊎◌, inl, inr, refl, sym, subst, true, false, List, [], ◌∷◌, map, length, All,
  if_lem, arith,
}
use ubersdr_ntp.Prelude.Int.{pos, ◌≤ℤ◌, leb_ℤ}
use ubersdr_ntp.Prelude.Double.{Double, add, sub, mul, le}
use ubersdr_ntp.Prelude.Dict.{Key}
use ubersdr_ntp.Prelude.Libm.{Libm}
use ubersdr_ntp.Selector.{Candidate, SourceSnapshot}
use ubersdr_ntp.Selector.Combined.{Combined, Selector}
use ubersdr_ntp.Selector.Residuals.{Judged, judge_classes, has_name}
use ubersdr_ntp.Selector.Answer.{stratum_of}
use ubersdr_ntp.Selector.Traced.{
  IsMean, IsStratum, IsWarning, average_of-IsMean, stratum_of-IsStratum, all_leap_pending-IsWarning,
}
use ubersdr_ntp.Selector.Refusals.{
  NoneRefused, Noted, NotUsed, drop_refused-NoneRefused, All-serving_candidates, All-agree,
  judge_classes-AllNoted, Noted-NotUsed,
}
use ubersdr_ntp.Selector.Pass.{
  Prepared, min_to_serve, serve, coast, never_served, fall_back, answer_from, prepare, combine,
}

pub stratum_of-bounds :
    {D : Type 0} (ks : List (Candidate D)) → (pos 1 ≤ℤ stratum_of ks) × (stratum_of ks ≤ℤ pos 15)
unfolding stratum_of
stratum_of-bounds ks = ground arith

All-names :
    {D : Type 0} (refused : List Key) (ks : List (Candidate D))
    → NoneRefused refused ks
    → All (λ n. has_name refused n ≡ false) (map (λ (j : Candidate D). j.s.name) ks)
All-names refused [] h = tt
All-names refused (k ∷ ks) h = (h.0, All-names refused ks h.1)

module _ {D : Type 0} ⦃f : Double D⦄ (libm : Libm D) (host now : D) (sel : Selector D) where
  -- The offset is the mean of those of the survivors, of which there is one.
  abbrev pub IsServed : List (Candidate D) → D → Type 0
  IsServed [] offset = ⊥
  IsServed (k ∷ ks) offset = IsMean k ks offset

  -- The time is that of enough survivors, with their mean offset, stratum and warning.
  pub record Fresh (p : Prepared D) (c : Combined D) : Type 0 where
    pub enough : min_to_serve p.selector p.cand ≤ℤ pos (length p.survivors)
    pub used_is : c.used ≡ length p.survivors
    pub some_used : p.survivors ≢ []
    pub time_is : c.at_sec ≡ now
    pub offset_is : IsServed p.survivors c.offset_sec
    pub stratum_is : IsStratum p.survivors c.stratum
    pub leap_is : IsWarning p.survivors c.leap_pending

  -- The time is the last good one, carried on at its rate for no longer than the coast limit, with the
  -- stratum of before and no warning.
  pub record Coasts (c : Combined D) : Type 0 where
    pub had : sel.last_good.have_last ≡ true
    pub time_is : c.at_sec ≡ now
    pub offset_is :
        c.offset_sec ≡ add sel.last_good.offset (mul sel.last_good.rate (sub now sel.last_good.at))
    pub stratum_is : c.stratum ≡ sel.last.stratum
    pub leap_is : c.leap_pending ≡ false
    pub within : le (sub now sel.last_good.at) sel.coast_seconds ≡ true
    pub used_is : c.used ≡ 0

  fall_back-synchronised :
      (p : Prepared D)
      → p.selector.last_good ≡ sel.last_good
      → p.selector.coast_seconds ≡ sel.coast_seconds
      → p.selector.last.stratum ≡ sel.last.stratum
      → p.combined.used ≡ 0
      → p.combined.leap_pending ≡ false
      → (fall_back host now p).1.synchronised ≡ true
      → ((fall_back host now p).1.valid ≡ true) × Coasts (fall_back host now p).1
  unfolding fall_back coast never_served
  fall_back-synchronised p g s r u w h = ground (arith, g, s, r, u, w)

  -- What the part of a pass that chooses leaves for the end of it.
  prepare-state :
      (snaps : List (SourceSnapshot D))
      → let p : Prepared D = prepare libm now sel snaps in
        (p.selector.last_good ≡ sel.last_good)
        × (p.selector.coast_seconds ≡ sel.coast_seconds)
        × (p.combined.used ≡ 0)
        × (p.selector.last.stratum ≡ sel.last.stratum)
        × (p.combined.leap_pending ≡ false)
        × (p.combined.used_names ≡ [])
  unfolding prepare
  prepare-state snaps = (refl, refl, refl, refl, refl, refl)

  -- The names that a pass refuses are with none of its survivors, and the residuals note each.
  prepare-NoneRefused :
      (snaps : List (SourceSnapshot D))
      → let p : Prepared D = prepare libm now sel snaps in
        (refused : List Key) × All (Noted refused) p.combined.residuals
        × NoneRefused refused p.survivors
  unfolding prepare
  prepare-NoneRefused snaps =
      let j : Judged D = judge_classes libm now sel.residual_avg sel.reacquire _ _ in
      (
        j.refused,
        judge_classes-AllNoted libm now sel.residual_avg sel.reacquire _ _,
        All-agree _ sel.last_good now _ _
            (All-serving_candidates _ sel.clock _ _ _
              (drop_refused-NoneRefused j.refused j.why _ _ tt)
              (drop_refused-NoneRefused j.refused j.why _ _ tt))
            tt,
      )

  fall_back-names :
      (p : Prepared D)
      → ((fall_back host now p).1.used_names ≡ p.combined.used_names)
        × ((fall_back host now p).1.residuals ≡ p.combined.residuals)
  unfolding fall_back coast never_served
  fall_back-names p = ground arith

  serve_names :
      (c : Combined D) (s : Selector D) (x : Candidate D) (xs : List (Candidate D))
      → ((serve libm host now s c x xs).used_names ≡ map (λ (j : Candidate D). j.s.name) (x ∷ xs))
        × ((serve libm host now s c x xs).residuals ≡ c.residuals)
  unfolding serve
  serve_names c s x xs = (refl, refl)

  NotUsed-fall_back :
      (p : Prepared D) (refused : List Key)
      → p.combined.used_names ≡ []
      → All (Noted refused) p.combined.residuals
      → All (NotUsed (fall_back host now p).1.used_names) (fall_back host now p).1.residuals
  NotUsed-fall_back p refused u h =
      let n = fall_back-names p in
      rw (n.0, n.1, u) (Noted-NotUsed refused [] p.combined.residuals h tt)

  NotUsed-answer_from :
      (p : Prepared D) (refused : List Key) (ks : List (Candidate D))
      → p.combined.used_names ≡ []
      → All (Noted refused) p.combined.residuals
      → NoneRefused refused ks
      → All
          (NotUsed (answer_from libm host now p ks).1.used_names)
          (answer_from libm host now p ks).1.residuals
  unfolding answer_from
  NotUsed-answer_from p refused [] u h k = NotUsed-fall_back p refused u h
  NotUsed-answer_from p refused (x ∷ xs) u h k =
      let n = serve_names p.combined p.selector x xs in
      if_lem (λ (r : Selector D × Combined D). All (NotUsed r.1.used_names) r.1.residuals)
        (leb_ℤ (min_to_serve p.selector p.cand) (pos (length (x ∷ xs)))) _ _
        (λ _.
          rw (n.0, n.1)
            (Noted-NotUsed refused _ p.combined.residuals h (All-names refused (x ∷ xs) k)))
        (λ _. NotUsed-fall_back p refused u h)

  answer_from-synchronised :
      (p : Prepared D)
      → p.selector.last_good ≡ sel.last_good
      → p.selector.coast_seconds ≡ sel.coast_seconds
      → p.selector.last.stratum ≡ sel.last.stratum
      → p.combined.used ≡ 0
      → p.combined.leap_pending ≡ false
      → (ks : List (Candidate D)) → p.survivors ≡ ks
      → (answer_from libm host now p ks).1.synchronised ≡ true
      → ((answer_from libm host now p ks).1.valid ≡ true)
        × (Fresh p (answer_from libm host now p ks).1 ⊎ Coasts (answer_from libm host now p ks).1)
  unfolding answer_from serve
  answer_from-synchronised p g s r u w [] e h =
      let b = fall_back-synchronised p g s r u w h in (b.0, inr b.1)
  answer_from-synchronised p g s r u w (x ∷ xs) e h =
      if_lem
        (λ (r : Selector D × Combined D).
          r.1.synchronised ≡ true → (r.1.valid ≡ true) × (Fresh p r.1 ⊎ Coasts r.1))
        (leb_ℤ (min_to_serve p.selector p.cand) (pos (length (x ∷ xs)))) _ _
        (λ enough _. (
          refl,
          inl record {
            enough =
                subst (λ ks. min_to_serve p.selector p.cand ≤ℤ pos (length ks)) (sym e)
                  (ground arith);
            used_is = ap length (sym e);
            some_used = λ empty. ground (arith, sym e ∙ empty);
            time_is = refl;
            offset_is = rw e (average_of-IsMean x xs);
            stratum_is = rw e (stratum_of-IsStratum (x ∷ xs));
            leap_is = rw e (all_leap_pending-IsWarning (x ∷ xs));
          },
        ))
        (λ _ h'. let b = fall_back-synchronised p g s r u w h' in (b.0, inr b.1)) h

  -- No source that a pass marks as refused has a part in its answer: for every residual that the result
  -- reports, either it is not marked as refused or its name is not among the names used.
  pub combine-NotUsed :
      (snaps : List (SourceSnapshot D))
      → All
          (NotUsed (combine libm host now sel snaps).1.used_names)
          (combine libm host now sel snaps).1.residuals
  unfolding combine
  combine-NotUsed snaps =
      let st = prepare-state snaps in
      let r = prepare-NoneRefused snaps in
      NotUsed-answer_from (prepare libm now sel snaps) r.0 _ st.5 r.1 r.2

  -- A result that claims to be synchronised is valid and for the time of the pass, and is one of two
  -- things. Either it is the time of at least as many agreeing sources as the class that serves must
  -- have, and of one at least: the offset is the mean of theirs by their weights (the first one's where
  -- no weight is above zero); the stratum is one more than their lowest, a radio clock's being 0, from 1
  -- to 15; and there is a leap warning exactly if all of them give it. Or it is the last good time,
  -- which the selector has, carried on at its rate, no further than the coast limit, with the stratum of
  -- the result before and no leap warning.
  pub combine-synchronised :
      (snaps : List (SourceSnapshot D))
      → (combine libm host now sel snaps).1.synchronised ≡ true
      → ((combine libm host now sel snaps).1.valid ≡ true)
        × (Fresh (prepare libm now sel snaps) (combine libm host now sel snaps).1
            ⊎ Coasts (combine libm host now sel snaps).1)
  unfolding combine
  combine-synchronised snaps h =
      let st = prepare-state snaps in
      answer_from-synchronised (prepare libm now sel snaps) st.0 st.1 st.3 st.2 st.4 _ refl h
