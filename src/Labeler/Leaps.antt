-- ===== src/Labeler/Leaps.antt =====
-- src/Pps.cpp: when PpsLabeler names a leap second, and how it counts.
use ubersdr_ntp.Prelude.{Bool, true, false, ◌&&◌, ◌≡◌, refl, ◌∙◌, arith, if◌then◌else◌}
use ubersdr_ntp.Prelude.Int.{ℤ, pos, ◌+ℤ◌, ◌-ℤ◌, ◌*ℤ◌, ◌≤ℤ◌, eqb_ℤ-eq}
use ubersdr_ntp.Civil.Calendar.{days_in_month}
use ubersdr_ntp.Instants.{floor_mod}
use ubersdr_ntp.Instants.LastDay.{date_at, is_last_day_of_month_iff}
use ubersdr_ntp.Labeler.{
  PpsLabel, PpsLabeler, leap_armed_sec, expected, is_armed, is_expected, count_on, next,
}

-- The day of a POSIX second is the last of its month.
abbrev pub EndsMonth : ℤ → Type 0
EndsMonth posix = let t = date_at (posix *ℤ pos 1000) in t.day ≡ days_in_month t.year t.month

-- A leap second may stand before this second: a midnight, a month ends before it, and a warning was
-- seen no longer than two hours ago.
pub record MayLeap (announced_at posix : ℤ) : Type 0 where
  pub midnight : floor_mod posix (pos 86400) ≡ pos 0
  pub month_ends : EndsMonth (posix -ℤ pos 1)
  pub announced : pos 0 ≤ℤ announced_at
  pub recently : posix -ℤ announced_at ≤ℤ leap_armed_sec

is_armed-MayLeap : (l : PpsLabeler) → is_armed l ≡ true → MayLeap l.leap_announced_at (expected l)
unfolding is_armed
is_armed-MayLeap l h = record {
  midnight = eqb_ℤ-eq _ _ (ground arith);
  month_ends = (is_last_day_of_month_iff _).0 (ground arith);
  announced = ground arith;
  recently = ground arith;
}

-- A pulse counted on to a leap second.
record Leaps (l : PpsLabeler) (named : PpsLabel) : Type 0 where
  armed : is_armed l ≡ true
  after_none : l.last.leap ≡ false
  counted : named.posix ≡ expected l

count_on-Leaps :
    (l : PpsLabeler) (served : ℤ)
    → (count_on l served).1.leap ≡ true
    → Leaps l (count_on l served).1
unfolding count_on
count_on-Leaps l served h = ground arith

-- The state that a pulse is counted on from: a warning is noted.
abbrev pub noted : PpsLabeler → ℤ → Bool → PpsLabeler
noted l served leap_pending = record l {
  leap_announced_at = if leap_pending then served else l.leap_announced_at;
}

expected-noted : (l : PpsLabeler) (served : ℤ) (p : Bool) → expected (noted l served p) ≡ expected l
unfolding expected
expected-noted l served p = refl

next-Leaps :
    (l : PpsLabeler) (served : ℤ) (p c : Bool)
    → (next l served p c).1.leap ≡ true
    → (l.have ≡ true) × (c ≡ true) × Leaps (noted l served p) (next l served p c).1
unfolding next
next-Leaps l served p c h = ground (arith, count_on-Leaps (noted l served p) served)

count_on-announced :
    (l : PpsLabeler) (served : ℤ) → (count_on l served).0.leap_announced_at ≡ l.leap_announced_at
unfolding count_on
count_on-announced l served = ground arith

next-announced :
    (l : PpsLabeler) (served : ℤ) (p c : Bool)
    → (next l served p c).0.leap_announced_at ≡ (noted l served p).leap_announced_at
unfolding next
next-announced l served p c = ground (arith, count_on-announced (noted l served p) served)

expected-plain : (l : PpsLabeler) → l.last.leap ≡ false → expected l ≡ l.last.posix +ℤ pos 1
unfolding expected
expected-plain l h = ground arith

-- A second is named a leap second only straight after the second before it, not after another leap
-- second, and where one may stand: before the midnight that begins a month, within two hours of a
-- warning.
pub next-MayLeap :
    (l : PpsLabeler) (served : ℤ) (p c : Bool)
    → (next l served p c).1.leap ≡ true
    → (l.have ≡ true)
      × (c ≡ true)
      × (l.last.leap ≡ false)
      × ((next l served p c).1.posix ≡ l.last.posix +ℤ pos 1)
      × MayLeap (next l served p c).0.leap_announced_at (next l served p c).1.posix
next-MayLeap l served p c h =
    let n = next-Leaps l served p c h in
    (
      n.0,
      n.1,
      n.2.after_none,
      n.2.counted ∙ expected-plain (noted l served p) n.2.after_none,
      rw (next-announced l served p c, n.2.counted) (is_armed-MayLeap (noted l served p) n.2.armed),
    )

count_on-expected :
    (l : PpsLabeler) (served : ℤ)
    → (count_on l served).0.resyncs ≡ l.resyncs
    → ((count_on l served).1.posix ≡ expected l)
      × ((l.last.leap && (count_on l served).1.leap) ≡ false)
unfolding count_on
count_on-expected l served h = ground arith

-- A pulse one second after the last one is named the next second, the same one where the last was the
-- leap second before it, unless a resync is counted; and no leap second follows another.
pub next-expected :
    (l : PpsLabeler) (served : ℤ) (p : Bool)
    → l.have ≡ true
    → (next l served p true).0.resyncs ≡ l.resyncs
    → ((next l served p true).1.posix ≡ expected l)
      × ((l.last.leap && (next l served p true).1.leap) ≡ false)
unfolding next count_on is_armed expected is_expected
next-expected l served p have h =
    let r = count_on-expected (noted l served p) served (rw have at h) in rw have r
