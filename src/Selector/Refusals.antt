-- ===== src/Selector/Refusals.antt =====
-- src/Selector.cpp: no source that a pass refuses is part of its answer.
use ubersdr_ntp.Prelude.{
  All-append, ℕ, ◌≡◌, ◌⊎◌, inl, inr, sym, subst, ◌∙◌, false-true, Bool-cases, arith, refl, Bool,
  true, false, List, [], ◌∷◌, All, if_lem,
}
use ubersdr_ntp.Prelude.Int.{ℤ}
use ubersdr_ntp.Prelude.Double.{Double}
use ubersdr_ntp.Prelude.Dict.{Key, eq_key, eq_key-eq, eq_key_refl}
use ubersdr_ntp.Prelude.Libm.{Libm}
use ubersdr_ntp.Selector.{Candidate, Reason, ClockConfig}
use ubersdr_ntp.Selector.Combined.{
  SourceResidual, ReacquireState, ResidualState, Failover, LastGood, is_always,
}
use ubersdr_ntp.Selector.Residuals.{
  Judged, Kept, drop_refused, has_name, note_refused, note_residual, judge_one, judge_all,
  judge_class, judge_classes,
}
use ubersdr_ntp.Selector.Standby.{serving_candidates}
use ubersdr_ntp.Selector.Agree.{Agreed, Region, agree, keep_agreeing, in_region}

-- None of the candidates is refused.
abbrev pub NoneRefused : {D : Type 0} → List Key → List (Candidate D) → Type 0
NoneRefused refused cand = All (λ (k : Candidate _). has_name refused k.s.name ≡ false) cand

module _ {D : Type 0} ⦃f : Double D⦄ where
  pub drop_refused-NoneRefused :
      (refused : List Key) (why : List (Key × Reason D)) (cs : List (Candidate D)) (k : Kept D)
      → NoneRefused refused k.cand
      → NoneRefused refused (drop_refused refused why k cs).cand
  unfolding drop_refused
  drop_refused-NoneRefused refused why [] k h = h
  drop_refused-NoneRefused refused why (c ∷ cs) k h = drop_refused-NoneRefused refused why cs _ (
      if_lem (λ (k' : Kept D). NoneRefused refused k'.cand) (has_name refused c.s.name) _ _ (λ _. h)
        (λ e.
          All-append (λ (j : Candidate D). has_name refused j.s.name ≡ false) k.cand (c ∷ []) h
            (e, tt)))

  module _ (P : Candidate D → Type 0) where
    pub All-serving_candidates :
        (clock : ClockConfig D) (fo : Failover D) (ps ss : List (Candidate D))
        → All P ps
        → All P ss
        → All P (serving_candidates clock fo ps ss)
    unfolding serving_candidates
    All-serving_candidates clock fo ps ss h k =
        if_lem (All P) (is_always clock.secondary) _ _ (λ _. All-append P ps ss h k)
          (λ _. if_lem (All P) fo.on_secondary _ _ (λ _. k) (λ _. h))

    All-keep_agreeing :
        (have_last : Bool) (best : ℤ) (regions : List (Region D)) (picked : Region D)
        (ks : List (Candidate D)) (a : Agreed D)
        → All P ks
        → All P a.survivors
        → All P (keep_agreeing have_last best regions picked a ks).survivors
    unfolding keep_agreeing
    All-keep_agreeing hl best regions picked [] a h s = s
    All-keep_agreeing hl best regions picked (k ∷ ks) a h s =
        All-keep_agreeing hl best regions picked ks _ h.1 (
          if_lem (λ (a' : Agreed D). All P a'.survivors) (in_region k picked) _ _
            (λ _. All-append P a.survivors (k ∷ []) s (h.0, tt)) (λ _. s))

    pub All-agree :
        (good : LastGood D) (now : D) (a : Agreed D) (cand : List (Candidate D))
        → All P cand
        → All P a.survivors
        → All P (agree good now a cand).survivors
    unfolding agree
    All-agree good now a [] h s = s
    All-agree good now a (k ∷ []) h s = h
    All-agree good now a (k ∷ k' ∷ ks) h s =
        All-keep_agreeing good.have_last _ _ _ (k ∷ k' ∷ ks) a h s

-- A name among those met is not among those that none of them is.
has_name-apart :
    (refused used : List Key) (x : Key)
    → All (λ n. has_name refused n ≡ false) used
    → has_name refused x ≡ true
    → has_name used x ≡ false
unfolding has_name
has_name-apart refused [] x h r = refl
has_name-apart refused (u ∷ us) x h r = elim (Bool-cases (eq_key u x)) [
  | inl e ↦ false-true (sym (subst (λ n. has_name refused n ≡ false) (eq_key-eq u x e) h.0) ∙ r)
  | inr e ↦ rw e (has_name-apart refused us x h.1 r)
]

-- A residual is of a source that is refused only if its name is noted.
abbrev pub Noted : {D : Type 0} → List Key → SourceResidual D → Type 0
Noted refused r = (r.refused ≡ false) ⊎ (has_name refused r.name ≡ true)

abbrev pub AllNoted : {D : Type 0} → Judged D → Type 0
AllNoted j = All (Noted j.refused) j.residuals

has_name-more :
    (a : Key) (refused : List Key) (x : Key)
    → has_name refused x ≡ true
    → has_name (a ∷ refused) x ≡ true
unfolding has_name
has_name-more a refused x h = elim (Bool-cases (eq_key a x)) [ inl e ↦ rw e refl | inr e ↦ rw e h ]

has_name_self : (a : Key) (refused : List Key) → has_name (a ∷ refused) a ≡ true
unfolding has_name
has_name_self a refused = rw (eq_key_refl a) refl

Noted-more :
    {D : Type 0} (a : Key) (refused : List Key) (rs : List (SourceResidual D))
    → All (Noted refused) rs
    → All (Noted (a ∷ refused)) rs
Noted-more a refused [] h = tt
Noted-more a refused (r ∷ rs) h = (
  elim h.0 [
    | inl no_refusal ↦ inl no_refusal
    | inr named ↦ inr (has_name-more a refused r.name named)
  ],
  Noted-more a refused rs h.1,
)

module _ {D : Type 0} ⦃f : Double D⦄ (libm : Libm D) where
  note_refused-names :
      (j : Judged D) (r : SourceResidual D) (rq : ReacquireState D) (now : D)
      → ((note_refused libm j r rq now).refused ≡ r.name ∷ j.refused)
        × ((note_refused libm j r rq now).residuals ≡ j.residuals)
  unfolding note_refused
  note_refused-names j r rq now = ground arith

  note_residual-AllNoted :
      (j : Judged D) (r : SourceResidual D) (rq : ReacquireState D) (now : D)
      → AllNoted j
      → AllNoted (note_residual libm j r rq now)
        × Noted (note_residual libm j r rq now).refused r
        × ((note_residual libm j r rq now).residuals ≡ j.residuals)
  unfolding note_residual
  note_residual-AllNoted j r rq now h =
      let n = note_refused-names j r rq now in
      if_lem (λ (j' : Judged D). AllNoted j' × Noted j'.refused r × (j'.residuals ≡ j.residuals))
        r.refused _ _
        (λ e. (
          subst (λ rs. All (Noted (note_refused libm j r rq now).refused) rs) (sym n.1)
              (subst (λ names. All (Noted names) j.residuals) (sym n.0)
                (Noted-more r.name j.refused j.residuals h)),
          inr (
              subst (λ names. has_name names r.name ≡ true) (sym n.0)
                (has_name_self r.name j.refused)),
          n.1,
        ))
        (λ e. (h, inl e, refl))

  judge_one-AllNoted :
      (consensus : D) (peers : ℕ) (now : D) (j : Judged D) (k : Candidate D)
      → AllNoted j
      → AllNoted (judge_one libm consensus peers now j k)
  unfolding judge_one
  judge_one-AllNoted consensus peers now j k h =
      let n = note_residual-AllNoted j _ _ now h in
      All-append (Noted _) j.residuals _ (subst (All (Noted _)) n.2 n.0) (n.1, tt)

  judge_all-AllNoted :
      (consensus : D) (peers : ℕ) (now : D) (ks : List (Candidate D)) (j : Judged D)
      → AllNoted j
      → AllNoted (judge_all libm consensus peers now j ks)
  unfolding judge_all
  judge_all-AllNoted consensus peers now [] j h = h
  judge_all-AllNoted consensus peers now (k ∷ ks) j h =
      judge_all-AllNoted consensus peers now ks _ (judge_one-AllNoted consensus peers now j k h)

  pub judge_classes-AllNoted :
      (now : D) (avg : List (Key × ResidualState D)) (rq : List (Key × ReacquireState D))
      (ps ss : List (Candidate D))
      → AllNoted (judge_classes libm now avg rq ps ss)
  unfolding judge_classes judge_class
  judge_classes-AllNoted now avg rq ps ss =
      judge_all-AllNoted _ _ now ss _ (judge_all-AllNoted _ _ now ps _ tt)

abbrev pub NotUsed : {D : Type 0} → List Key → SourceResidual D → Type 0
NotUsed used r = (r.refused ≡ false) ⊎ (has_name used r.name ≡ false)

pub Noted-NotUsed :
    {D : Type 0} (refused used : List Key) (rs : List (SourceResidual D))
    → All (Noted refused) rs
    → All (λ n. has_name refused n ≡ false) used
    → All (NotUsed used) rs
Noted-NotUsed refused used [] h k = tt
Noted-NotUsed refused used (r ∷ rs) h k = (
  elim h.0 [
    | inl no_refusal ↦ inl no_refusal
    | inr named ↦ inr (has_name-apart refused used r.name k named)
  ],
  Noted-NotUsed refused used rs h.1 k,
)
