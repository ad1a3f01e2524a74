-- ===== src/Selector/Residuals.antt =====
-- src/Selector.cpp: each candidate against the median of its class, and which are refused for it.
use ubersdr_ntp.Prelude.{
  ℕ, ◌+◌, ◌-◌, leb, Bool, true, false, not, ◌&&◌, ◌||◌, List, [], ◌∷◌, ◌++◌, none, some, length,
  if◌then◌else◌,
}
use ubersdr_ntp.Prelude.Int.{pos}
use ubersdr_ntp.Prelude.Double.{Double, add, sub, mul, div, abs, neg, lt, le, lit, from_int, dmin}
use ubersdr_ntp.Prelude.Dict.{Key, eq_key, lookup, insert, erase_if}
use ubersdr_ntp.Prelude.Libm.{Libm}
use ubersdr_ntp.Selector.{Candidate, Reason, reacquiring, reacquiring_in, median_offset, is_empty}
use ubersdr_ntp.Selector.Combined.{
  SourceResidual, ResidualState, ReacquireState, ClassDelta, ClassDeltaState, no_class_delta,
  new_class_delta,
}

-- What the judging of both classes leaves: `refused`, `refusalWhy` and what it adds to `c`.
pub record Judged (D : Type 0) : Type 0 where
  pub avg : List (Key × ResidualState D)
  pub reacquire : List (Key × ReacquireState D)
  pub refused : List Key
  pub why : List (Key × Reason D)
  pub reacquire_names : List Key
  pub residuals : List (SourceResidual D)

pub record Kept (D : Type 0) : Type 0 where
  pub cand : List (Candidate D)
  pub rejected_names : List Key
  pub not_used_reasons : List (Key × Reason D)

unfoldable pub has_name : List Key → Key → Bool
has_name [] k = false
has_name (j ∷ js) k = eq_key j k || has_name js k

abbrev pub min_peers_to_judge : ℕ
min_peers_to_judge = 2

module _ {D : Type 0} ⦃f : Double D⦄ where
  abbrev pub residual_tau_sec : D
  residual_tau_sec = lit 300 0

  abbrev pub residual_settle_sec : D
  residual_settle_sec = lit 120 0

  abbrev pub reacquire_after_sec : D
  reacquire_after_sec = lit 300 0

  abbrev pub reacquire_max_sec : D
  reacquire_max_sec = lit 3600 0

  abbrev pub max_disagreement_sec : D
  max_disagreement_sec = lit 30 3

  unfoldable pub find_residual : Key → List (Key × ResidualState D) → ResidualState D
  find_residual name avg = elim (lookup name avg) [
    | some r ↦ r
    | none ↦ record {
      averaged_sec = lit 0 0;
      last_at_sec = lit 0 0;
      first_at_sec = lit 0 0;
      refusal_logged = false;
      seeded = false;
    }
  ]

  unfoldable pub find_reacquire : Key → List (Key × ReacquireState D) → ReacquireState D
  find_reacquire name reacquire = elim (lookup name reacquire) [
    | some r ↦ r
    | none ↦ record { refused_since_sec = lit 0 0; count = 0 }
  ]

  -- A name without a reason gets the map's empty one.
  unfoldable pub drop_refused :
      List Key → List (Key × Reason D) → Kept D → List (Candidate D) → Kept D
  drop_refused refused why k [] = k
  drop_refused refused why k (c ∷ cs) =
      drop_refused refused why
        (if has_name refused c.s.name
          then record k {
            rejected_names = k.rejected_names ++ (c.s.name ∷ []);
            not_used_reasons = elim (lookup c.s.name why) [
              | some reason ↦ insert c.s.name reason k.not_used_reasons
              | none ↦ k.not_used_reasons
            ];
          }
          else record k { cand = k.cand ++ (c ∷ []) })
        cs

  module _ (libm : Libm D) where
    -- How far an average moves towards a new value in dt.
    abbrev pub alpha : D → D
    alpha dt = sub (lit 1 0) (libm.exp (div (neg dt) residual_tau_sec))

    -- The average of a source that has enough peers; `lastAtSec` is set for every source.
    unfoldable pub average : ResidualState D → D → D → ResidualState D
    average ra instant now =
        let dt = sub now ra.last_at_sec in
        if not ra.seeded
        then record ra { seeded = true; averaged_sec = instant; first_at_sec = now }
        else if lt (lit 0 0) dt
        then record ra {
          averaged_sec = add ra.averaged_sec (mul (alpha dt) (sub instant ra.averaged_sec));
        }
        else ra

    unfoldable pub settle : ResidualState D → D → D → ℕ → ResidualState D
    settle ra instant now peers =
        record (if leb min_peers_to_judge peers then average ra instant now else ra) {
          last_at_sec = now;
        }

    unfoldable pub residual_of : Candidate D → D → ℕ → ResidualState D → D → SourceResidual D
    residual_of k consensus peers ra now =
        let instant = sub k.offset consensus in
        let averaged = if ra.seeded then ra.averaged_sec else instant in
        let settled = if ra.seeded then sub now ra.first_at_sec else lit 0 0 in
        let judged = leb min_peers_to_judge peers && le residual_settle_sec settled in
        record {
          name = k.s.name;
          instant_sec = instant;
          averaged_sec = averaged;
          peers = peers;
          refused = judged && lt max_disagreement_sec (abs averaged);
          judged = judged;
          settled_for_sec = settled;
          kind = k.s.kind;
        }

    unfoldable pub reacquire_wait : ℕ → D
    reacquire_wait count =
        dmin (mul reacquire_after_sec (libm.pow (lit 2 0) (from_int (pos count)))) reacquire_max_sec

    -- A refused source: how long it has been so, and whether it is to start from scratch.
    unfoldable pub note_refused : Judged D → SourceResidual D → ReacquireState D → D → Judged D
    note_refused j r rq now =
        let since = if le rq.refused_since_sec (lit 0 0) then now else rq.refused_since_sec in
        let wait = reacquire_wait rq.count in
        let refused_for = sub now since in
        if le wait refused_for
        then record j {
          refused = r.name ∷ j.refused;
          reacquire =
              insert r.name (record { refused_since_sec = lit 0 0; count = rq.count + 1 })
                j.reacquire;
          reacquire_names = j.reacquire_names ++ (r.name ∷ []);
          why = insert r.name (reacquiring r.averaged_sec r.kind) j.why;
        }
        else record j {
          refused = r.name ∷ j.refused;
          reacquire = insert r.name (record rq { refused_since_sec = since }) j.reacquire;
          why = insert r.name (reacquiring_in r.averaged_sec r.kind (sub wait refused_for)) j.why;
        }

    unfoldable pub note_residual : Judged D → SourceResidual D → ReacquireState D → D → Judged D
    note_residual j r rq now = if r.refused then note_refused j r rq now else record j {
      reacquire =
          insert r.name (if r.judged then record { refused_since_sec = lit 0 0; count = 0 } else rq)
            j.reacquire;
    }

    unfoldable pub judge_one : D → ℕ → D → Judged D → Candidate D → Judged D
    judge_one consensus peers now j k =
        let ra = settle (find_residual k.s.name j.avg) (sub k.offset consensus) now peers in
        let r = residual_of k consensus peers ra now in
        let noted = note_residual j r (find_reacquire k.s.name j.reacquire) now in
        record noted {
          avg =
              insert k.s.name
                (record ra {
                  refusal_logged = if r.refused || r.judged then r.refused else ra.refusal_logged;
                })
                j.avg;
          residuals = j.residuals ++ (r ∷ []);
        }

    unfoldable pub judge_all : D → ℕ → D → Judged D → List (Candidate D) → Judged D
    judge_all consensus peers now j [] = j
    judge_all consensus peers now j (k ∷ ks) =
        judge_all consensus peers now (judge_one consensus peers now j k) ks

    -- `judgeClass`.
    unfoldable pub judge_class : D → Judged D → List (Candidate D) → Judged D
    judge_class now j cand = judge_all (median_offset cand) (length cand - 1) now j cand

    -- Both classes, after which a source that starts from scratch has no average left.
    unfoldable pub judge_classes :
        D
        → List (Key × ResidualState D)
        → List (Key × ReacquireState D)
        → List (Candidate D)
        → List (Candidate D)
        → Judged D
    judge_classes now avg reacquire primary_cand secondary_cand =
        let start : Judged D = record {
          avg = avg;
          reacquire = reacquire;
          refused = [];
          why = [];
          reacquire_names = [];
          residuals = [];
        } in
        let j = judge_class now (judge_class now start primary_cand) secondary_cand in
        record j { avg = erase_if (λ k _. has_name j.reacquire_names k) j.avg }

    -- The difference between the classes, and its average.
    unfoldable pub class_delta_state : ClassDeltaState D → D → D → ClassDeltaState D
    class_delta_state d instant now =
        let dt = sub now d.last_at_sec in
        if not d.seeded
        then record { seeded = true; averaged_sec = instant; first_at_sec = now; last_at_sec = now }
        else record d {
          averaged_sec =
              if lt (lit 0 0) dt
              then add d.averaged_sec (mul (alpha dt) (sub instant d.averaged_sec))
              else d.averaged_sec;
          last_at_sec = now;
        }

    unfoldable pub compare_classes :
        ClassDeltaState D
        → D
        → List (Candidate D)
        → List (Candidate D)
        → ClassDeltaState D × ClassDelta D
    compare_classes d now primary_cand secondary_cand =
        let instant = sub (median_offset primary_cand) (median_offset secondary_cand) in
        let d' = class_delta_state d instant now in
        if not (is_empty primary_cand) && not (is_empty secondary_cand)
        then (
          d',
          record {
            valid = true;
            instant_sec = instant;
            averaged_sec = d'.averaged_sec;
            have_average = true;
            settled_for_sec = sub now d'.first_at_sec;
            primary_sources = length primary_cand;
            secondary_sources = length secondary_cand;
          },
        )
        else (new_class_delta, no_class_delta)
