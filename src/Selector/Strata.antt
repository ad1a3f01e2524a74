-- ===== src/Selector/Strata.antt =====
-- src/Selector.cpp: the stratum of the time served, over any run of the selector.
use ubersdr_ntp.Prelude.{
  ◌≡◌, ◌⊎◌, inl, inr, refl, sym, ◌∙◌, true, false, List, [], ◌∷◌, length, if_lem, false-true, arith,
}
use ubersdr_ntp.Prelude.Int.{ℤ, pos, ◌≤ℤ◌, leb_ℤ}
use ubersdr_ntp.Prelude.Double.{Double}
use ubersdr_ntp.Prelude.Libm.{Libm}
use ubersdr_ntp.Selector.{Candidate, SourceSnapshot, ClockConfig}
use ubersdr_ntp.Selector.Combined.{Combined, Selector, new_selector}
use ubersdr_ntp.Selector.Pass.{
  Prepared, min_to_serve, serve, coast, never_served, fall_back, answer_from, prepare, combine,
  current,
}
use ubersdr_ntp.Selector.Serves.{stratum_of-bounds}

-- What a pass reads: the difference of the host's clocks, the time, and the snapshots.
pub record Pass (D : Type 0) : Type 0 where
  pub host : D
  pub now : D
  pub snaps : List (SourceSnapshot D)

abbrev pub IsServable : ℤ → Type 0
IsServable stratum = (pos 1 ≤ℤ stratum) × (stratum ≤ℤ pos 15)

module _ {D : Type 0} ⦃f : Double D⦄ (libm : Libm D) where
  -- The state after passes, one after another.
  abbrev pub run_passes : Selector D → List (Pass D) → Selector D
  run_passes sel [] = sel
  run_passes sel (p ∷ ps) = run_passes (combine libm p.host p.now sel p.snaps).0 ps

  abbrev Settled : Selector D → Type 0
  Settled sel =
      ((sel.last_good.have_last ≡ false) × (sel.last.synchronised ≡ false))
      ⊎ IsServable sel.last.stratum

  fall_back-Settled :
      (host now : D) (p : Prepared D) → Settled p.selector → Settled (fall_back host now p).0
  unfolding fall_back coast never_served
  fall_back-Settled host now p h = ground arith

  answer_from-Settled :
      (host now : D) (p : Prepared D) (ks : List (Candidate D))
      → Settled p.selector
      → Settled (answer_from libm host now p ks).0
  unfolding answer_from serve
  answer_from-Settled host now p [] h = fall_back-Settled host now p h
  answer_from-Settled host now p (k ∷ ks) h =
      if_lem (λ (x : Selector D × Combined D). Settled x.0)
        (leb_ℤ (min_to_serve p.selector p.cand) (pos (length (k ∷ ks)))) _ _
        (λ _. inr (stratum_of-bounds (k ∷ ks))) (λ _. fall_back-Settled host now p h)

  combine-Settled :
      (sel : Selector D) (p : Pass D)
      → Settled sel
      → Settled (combine libm p.host p.now sel p.snaps).0
  unfolding combine prepare
  combine-Settled sel p h = answer_from-Settled p.host p.now (prepare libm p.now sel p.snaps) _ h

  run_passes-Settled :
      (ps : List (Pass D)) (sel : Selector D) → Settled sel → Settled (run_passes sel ps)
  run_passes-Settled [] sel h = h
  run_passes-Settled (p ∷ ps) sel h =
      run_passes-Settled ps (combine libm p.host p.now sel p.snaps).0 (combine-Settled sel p h)

  -- After any passes from a new selector, a time that claims to be synchronised has a stratum from 1 to
  -- 15, coasting included.
  pub current-IsServable :
      (coast_seconds coast_drift_ppm : D) (min_sources : ℤ) (clock : ClockConfig D)
      (ps : List (Pass D))
      → (current (
          run_passes
            (new_selector coast_seconds coast_drift_ppm min_sources clock)
            ps)).synchronised
        ≡ true
      → IsServable
          (current
            (run_passes (new_selector coast_seconds coast_drift_ppm min_sources clock) ps)).stratum
  unfolding new_selector
  current-IsServable coast_seconds coast_drift_ppm min_sources clock ps h =
      elim (run_passes-Settled ps (new_selector coast_seconds coast_drift_ppm min_sources clock)
        (inl (refl, refl))) [ inl none_yet ↦ false-true (sym none_yet.1 ∙ h) | inr ok ↦ ok ]
