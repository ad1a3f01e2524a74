-- ===== src/Clocks/Capture.antt =====
-- src/SampleClock.{h,cpp}: `CaptureClock`, the capture stamps of a stream. std::lower_bound, a binary
-- search over marks in order, is the scan for the first mark that is not before the sample.
use ubersdr_ntp.Prelude.{List, [], ◌∷◌, ◌++◌, Option, none, some, if◌then◌else◌}
use ubersdr_ntp.Prelude.Int.{ℤ, pos, ◌-ℤ◌, leb_ℤ, ltb_ℤ, eqb_ℤ}
use ubersdr_ntp.Prelude.Double.{Double, add, sub, mul, div, abs, lt, le, lit, from_int}
use ubersdr_ntp.Server.{truncate}

pub record Mark (D : Type 0) : Type 0 where
  pub sample : ℤ
  pub sec : D

-- The marks are in the order of their samples, the oldest first.
pub record CaptureClock (D : Type 0) : Type 0 where
  pub rate : ℤ
  pub marks : List (Mark D)

module _ {D : Type 0} where
  unfoldable pub new_capture_clock : ℤ → CaptureClock D
  new_capture_clock rate = record { rate = rate; marks = [] }

  unfoldable pub set_capture_rate : CaptureClock D → ℤ → CaptureClock D
  set_capture_rate c rate = record c {
    rate = rate;
    marks = if eqb_ℤ rate c.rate then c.marks else [];
  }

  unfoldable pub reset_marks : CaptureClock D → CaptureClock D
  reset_marks c = record c { marks = [] }

  unfoldable pub last_mark : Mark D → List (Mark D) → Mark D
  last_mark m [] = m
  last_mark m (n ∷ ms) = last_mark n ms

  -- What is left of the marks where a sample does not come after the newest: nothing.
  unfoldable pub marks_before : ℤ → List (Mark D) → List (Mark D)
  marks_before first_sample [] = []
  marks_before first_sample (m ∷ ms) =
      if leb_ℤ first_sample (last_mark m ms).sample then [] else m ∷ ms

  -- The loop that drops the oldest marks, but for the newest one.
  unfoldable pub drop_marks : ℤ → ℤ → List (Mark D) → List (Mark D)
  drop_marks first_sample keep [] = []
  drop_marks first_sample keep (m ∷ []) = m ∷ []
  drop_marks first_sample keep (m ∷ n ∷ ms) =
      let rest = drop_marks first_sample keep (n ∷ ms) in
      if ltb_ℤ keep (first_sample -ℤ m.sample) then rest else m ∷ n ∷ ms

module _ {D : Type 0} ⦃f : Double D⦄ where
  unfoldable pub observe_mark : CaptureClock D → ℤ → D → CaptureClock D
  observe_mark c first_sample capture_sec =
      let marks : List (Mark D) =
        marks_before first_sample c.marks
        ++ (record { sample = first_sample; sec = capture_sec } ∷ []) in
      let kept : D = mul (lit 900 0) (from_int c.rate) in
      record c {
        marks =
            if leb_ℤ c.rate (pos 0) then marks else drop_marks first_sample (truncate kept) marks;
      }

  -- How far a sample is past a mark.
  abbrev pub past : D → Mark D → D
  past sample m = sub sample (from_int m.sample)

  -- The mark at the lower bound or the one before it, whichever is nearer.
  unfoldable pub nearer : D → Mark D → Mark D → Mark D
  nearer sample prev m = if le (past sample prev) (sub (from_int m.sample) sample) then prev else m

  unfoldable pub nearest_from : D → Mark D → List (Mark D) → Mark D
  nearest_from sample prev [] = prev
  nearest_from sample prev (m ∷ ms) =
      let later = nearest_from sample m ms in
      if lt (from_int m.sample) sample then later else nearer sample prev m

  unfoldable pub nearest_mark : D → List (Mark D) → Option (Mark D)
  nearest_mark sample [] = none
  nearest_mark sample (m ∷ ms) =
      let later = nearest_from sample m ms in
      some (if lt (from_int m.sample) sample then later else m)

  -- `kMaxExtrapolateSec`.
  abbrev pub max_extrapolate_sec : D
  max_extrapolate_sec = lit 2 0

  abbrev pub dist_sec : ℤ → D → Mark D → D
  dist_sec rate sample m = div (past sample m) (from_int rate)

  unfoldable pub time_from : ℤ → D → Mark D → Option D
  time_from rate sample m =
      if lt max_extrapolate_sec (abs (dist_sec rate sample m))
      then none
      else some (add m.sec (dist_sec rate sample m))

  -- `hostTimeAt`.
  unfoldable pub capture_time_at : CaptureClock D → D → Option D
  capture_time_at c sample = elim (nearest_mark sample c.marks) [
    | none ↦ none
    | some m ↦ (if leb_ℤ c.rate (pos 0) then none else time_from c.rate sample m)
  ]

  -- `spanSec`.
  unfoldable pub marks_span : CaptureClock D → D
  marks_span c = elim c.marks [
    | [] ↦ lit 0 0
    | m ∷ ms ↦
        (if leb_ℤ c.rate (pos 0)
          then lit 0 0
          else div (from_int ((last_mark m ms).sample -ℤ m.sample)) (from_int c.rate))
  ]

-- The calls that change a capture clock.
pub data CaptureCall (D : Type 0) : Type 0 where
  capture_rate_set : ℤ → CaptureCall D
  marks_reset : CaptureCall D
  mark_seen : ℤ → D → CaptureCall D

module _ {D : Type 0} ⦃f : Double D⦄ where
  abbrev pub capture_call : CaptureClock D → CaptureCall D → CaptureClock D
  capture_call c (capture_rate_set rate) = set_capture_rate c rate
  capture_call c marks_reset = reset_marks c
  capture_call c (mark_seen first_sample capture_sec) = observe_mark c first_sample capture_sec

  unfoldable pub capture_calls : CaptureClock D → List (CaptureCall D) → CaptureClock D
  capture_calls c [] = c
  capture_calls c (x ∷ xs) = capture_calls (capture_call c x) xs
