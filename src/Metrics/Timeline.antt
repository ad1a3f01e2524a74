-- ===== src/Metrics/Timeline.antt =====
-- src/Metrics.cpp: the timeline of states holds the changes and no more.
use ubersdr_ntp.Prelude.{
  ℕ, zero, suc, ◌-◌, ◌≤◌, ◌<◌, ◌≡◌, refl, ap, ◌∙◌, true, false, List, [], ◌∷◌, ◌++◌, some, length,
  length-drop, drop, if_lem, arith,
}
use ubersdr_ntp.Prelude.Double.{Double, sub, lt}
use ubersdr_ntp.Prelude.Dict.{Key, eq_key, eq_key_refl}
use ubersdr_ntp.Metrics.{
  Span, max_changes, keep_newest, last_of, stamp, is_state, drop_unreached, set_state, keep_sec,
}

-- Each state differs from the one before it.
abbrev pub Alternates : {D : Type 0} → List (Span D) → Type 0
Alternates [] = Unit
Alternates (s ∷ []) = Unit
Alternates (s ∷ t ∷ ss) = (eq_key s.state t.state ≡ false) × Alternates (t ∷ ss)

-- A timeline in use: at most `kMaxChanges` changes, each to another state.
pub record IsTimeline {D : Type 0} (ss : List (Span D)) : Type 0 where
  pub bounded : length ss ≤ max_changes
  pub alternates : Alternates ss

module _ {D : Type 0} ⦃f : Double D⦄ where
  Alternates-append :
      (ss : List (Span D)) (s : Span D)
      → is_state (last_of ss) s.state ≡ false
      → Alternates ss
      → Alternates (ss ++ (s ∷ []))
  Alternates-append [] s h a = tt
  Alternates-append (t ∷ []) s h a = (h, tt)
  Alternates-append (t ∷ u ∷ ss) s h a = (a.0, Alternates-append (u ∷ ss) s h a.1)

  last_of-append : (ss : List (Span D)) (s : Span D) → last_of (ss ++ (s ∷ [])) ≡ some s
  last_of-append [] s = refl
  last_of-append (t ∷ []) s = refl
  last_of-append (t ∷ u ∷ ss) s = last_of-append (u ∷ ss) s

  Alternates-drop : (n : ℕ) (ss : List (Span D)) → Alternates ss → Alternates (drop n ss)
  Alternates-drop zero ss a = a
  Alternates-drop (suc n) [] a = a
  Alternates-drop (suc zero) (s ∷ []) a = tt
  Alternates-drop (suc (suc n)) (s ∷ []) a = tt
  Alternates-drop (suc n) (s ∷ t ∷ ss) a = Alternates-drop n (t ∷ ss) a.1

  last_of-drop : (n : ℕ) (ss : List (Span D)) → n < length ss → last_of (drop n ss) ≡ last_of ss
  last_of-drop zero ss h = refl
  last_of-drop (suc n) [] h = absurd (omega (arith, h))
  last_of-drop (suc n) (s ∷ []) h = absurd (omega (arith, h))
  last_of-drop (suc n) (s ∷ t ∷ ss) h = last_of-drop n (t ∷ ss) (omega (arith, h))

  -- Dropping what no window reaches leaves a last part of the timeline that is not empty.
  drop_unreached_lem :
      (from : D) (ss : List (Span D))
      → Alternates ss
      → Alternates (drop_unreached from ss) × (last_of (drop_unreached from ss) ≡ last_of ss)
  unfolding drop_unreached
  drop_unreached_lem from [] a = (a, refl)
  drop_unreached_lem from (s ∷ []) a = (a, refl)
  drop_unreached_lem from (s ∷ t ∷ ss) a =
      let rest = drop_unreached_lem from (t ∷ ss) a.1 in
      if_lem (λ (us : List (Span D)). Alternates us × (last_of us ≡ last_of (t ∷ ss)))
        (lt t.start from) _ _ (λ _. rest) (λ _. (a, refl))

  last_some : (ss : List (Span D)) (s : Span D) → last_of ss ≡ some s → 0 < length ss
  last_some [] s h = cc
  last_some (t ∷ ss) s h = omega arith

  keep_newest_lem :
      (ss : List (Span D)) (s : Span D)
      → Alternates ss
      → last_of ss ≡ some s
      → IsTimeline (keep_newest max_changes ss) × (last_of (keep_newest max_changes ss) ≡ some s)
  unfolding max_changes
  keep_newest_lem ss s a l = (
    record {
      bounded = omega (arith, length-drop (length ss - max_changes) ss);
      alternates = Alternates-drop (length ss - max_changes) ss a;
    },
    last_of-drop (length ss - max_changes) ss (omega (arith, last_some ss s l)) ∙ l,
  )

  -- Recording a state keeps the timeline one, with no more than `kMaxChanges` changes and each to another
  -- state, and makes the state the newest.
  pub set_state-IsTimeline :
      (ss : List (Span D)) (unix : D) (state : Key)
      → IsTimeline ss
      → IsTimeline (set_state ss unix state)
        × (is_state (last_of (set_state ss unix state)) state ≡ true)
  unfolding set_state
  set_state-IsTimeline ss unix state h =
      if_lem (λ (us : List (Span D)). IsTimeline us × (is_state (last_of us) state ≡ true))
        (is_state (last_of ss) state) _ _ (λ same. (h, same))
        (λ other.
          let s : Span D = record { start = stamp (last_of ss) unix; state = state } in
          let d =
            drop_unreached_lem (sub s.start keep_sec) (ss ++ (s ∷ []))
              (Alternates-append ss s other h.alternates) in
          let k = keep_newest_lem _ s d.0 (d.1 ∙ last_of-append ss s) in
          (k.0, ap (λ o. is_state o state) k.1 ∙ eq_key_refl state))
