-- ===== src/Continuity/Tests.antt =====
-- `judge` at concrete readings: a receiver that locks, then hears a time four minutes off.
use ubersdr_ntp.Prelude.{◌⊎◌, ℕ, ◌≡◌, refl, true, false, List, [], ◌∷◌}
use ubersdr_ntp.Prelude.Int.{◌*ℤ◌, ◌/ℤ◌}
use ubersdr_ntp.Prelude.Micros.{Micros, micros}
use ubersdr_ntp.Continuity.{
  adopted, init, agrees, note_pending, start_history, span, judge_first, judge_jump, jump_of,
  is_near, is_leap_step, judge,
}
use ubersdr_ntp.Continuity.Runs.{Event, reading, logs}
use ubersdr_ntp.Continuity.Judge.{HistoryAfter}
use ubersdr_ntp.Continuity.Replaced.{MayReplace, judge-replaced}

methods : Unit {0}
unfolding init agrees note_pending start_history span judge_first judge_jump jump_of is_near
    is_leap_step judge ◌*ℤ◌ ◌/ℤ◌
methods = tt

abbrev sec : ℕ → Micros
sec n = micros.decimal n 0

abbrev locking : List (Event Micros)
locking = reading (sec 0) (sec 0) false ∷ reading (sec 0) (sec 60) false ∷ []

abbrev misread : List (Event Micros)
misread =
    reading (sec 0) (sec 0) false
    ∷ reading (sec 0) (sec 60) false
    ∷ reading (sec 0) (sec 120) false
    ∷ reading (sec 240) (sec 180) false
    ∷ reading (sec 240) (sec 300) false
    ∷ reading (sec 240) (sec 420) false
    ∷ reading (sec 240) (sec 540) false
    ∷ reading (sec 240) (sec 660) false
    ∷ []

later_adopted : (judge (logs (init, []) misread).0 (sec 240) (sec 780) false).1.outcome ≡ adopted
unfolding methods
later_adopted = refl

judge-replaced_example :
    let s = logs (init, []) misread in
    let c = (judge s.0 (sec 240) (sec 780) false).0 in
    HistoryAfter false s.0 c (sec 240) (sec 780)
    ⊎ (HistoryAfter true s.0 c (sec 240) (sec 780) × MayReplace s.0 s.1 (sec 240) (sec 780) false)
judge-replaced_example = judge-replaced misread (sec 240) (sec 780) false
