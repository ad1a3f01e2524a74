-- ===== src/Clocks/Ordered.antt =====
-- src/SampleClock.cpp: the marks of a capture clock, and the time that it gives.
use ubersdr_ntp.Prelude.{◌≡◌, true, List, [], ◌∷◌, ◌++◌, if_lem, arith}
use ubersdr_ntp.Prelude.Int.{ℤ, pos, ◌-ℤ◌, ltb_ℤ, leb_ℤ, eqb_ℤ}
use ubersdr_ntp.Prelude.Double.{Double}
use ubersdr_ntp.Clocks.Capture.{
  Mark, CaptureClock, new_capture_clock, set_capture_rate, reset_marks, last_mark, marks_before,
  drop_marks, observe_mark, CaptureCall, capture_rate_set, marks_reset, mark_seen, capture_call,
  capture_calls,
}

module _ {D : Type 0} where
  -- Each mark's sample comes after the one before it.
  abbrev pub IsAscending : List (Mark D) → Type 0
  IsAscending [] = Unit
  IsAscending (m ∷ []) = Unit
  IsAscending (m ∷ n ∷ ms) = (ltb_ℤ m.sample n.sample ≡ true) × IsAscending (n ∷ ms)

  append-IsAscending :
      (m : Mark D) (ms : List (Mark D)) (x : Mark D)
      → IsAscending (m ∷ ms)
      → ltb_ℤ (last_mark m ms).sample x.sample ≡ true
      → IsAscending (m ∷ ms ++ (x ∷ []))
  unfolding last_mark
  append-IsAscending m [] x h k = (k, tt)
  append-IsAscending m (n ∷ ms) x h k = (h.0, append-IsAscending n ms x h.1 k)

  drop_marks-IsAscending :
      (first_sample keep : ℤ) (ms : List (Mark D))
      → IsAscending ms
      → IsAscending (drop_marks first_sample keep ms)
  unfolding drop_marks
  drop_marks-IsAscending first_sample keep [] h = tt
  drop_marks-IsAscending first_sample keep (m ∷ []) h = tt
  drop_marks-IsAscending first_sample keep (m ∷ n ∷ ms) h =
      if_lem IsAscending (ltb_ℤ keep (first_sample -ℤ m.sample)) _ _
        (λ _. drop_marks-IsAscending first_sample keep (n ∷ ms) h.1) (λ _. h)

  observed-IsAscending :
      (x : Mark D) (ms : List (Mark D))
      → IsAscending ms
      → IsAscending (marks_before x.sample ms ++ (x ∷ []))
  unfolding marks_before
  observed-IsAscending x [] h = tt
  observed-IsAscending x (m ∷ ms) h =
      if_lem (λ (ns : List (Mark D)). IsAscending (ns ++ (x ∷ [])))
        (leb_ℤ x.sample (last_mark m ms).sample) _ _ (λ _. tt)
        (λ e. append-IsAscending m ms x h (ground (arith, e)))

module _ {D : Type 0} ⦃f : Double D⦄ where
  observe_mark-IsAscending :
      (c : CaptureClock D) (first_sample : ℤ) (capture_sec : D)
      → IsAscending c.marks
      → IsAscending (observe_mark c first_sample capture_sec).marks
  unfolding observe_mark
  observe_mark-IsAscending c first_sample capture_sec h =
      let seen =
        observed-IsAscending (record { sample = first_sample; sec = capture_sec }) c.marks h in
      if_lem IsAscending (leb_ℤ c.rate (pos 0)) _ _ (λ _. seen)
        (λ _. drop_marks-IsAscending first_sample _ _ seen)

  capture_call-IsAscending :
      (c : CaptureClock D) (x : CaptureCall D)
      → IsAscending c.marks
      → IsAscending (capture_call c x).marks
  unfolding set_capture_rate reset_marks
  capture_call-IsAscending c (capture_rate_set rate) h =
      if_lem IsAscending (eqb_ℤ rate c.rate) _ _ (λ _. h) (λ _. tt)
  capture_call-IsAscending c marks_reset h = tt
  capture_call-IsAscending c (mark_seen n t) h = observe_mark-IsAscending c n t h

  calls-IsAscending :
      (xs : List (CaptureCall D)) (c : CaptureClock D)
      → IsAscending c.marks
      → IsAscending (capture_calls c xs).marks
  unfolding capture_calls
  calls-IsAscending [] c h = h
  calls-IsAscending (x ∷ xs) c h =
      calls-IsAscending xs (capture_call c x) (capture_call-IsAscending c x h)

  -- Over any stamps, changes of the rate and resets, the marks are in the strict order of their samples,
  -- as the binary search for the nearest needs.
  pub capture_calls-IsAscending :
      (rate : ℤ) (xs : List (CaptureCall D))
      → IsAscending (capture_calls (new_capture_clock rate) xs).marks
  unfolding new_capture_clock
  capture_calls-IsAscending rate xs = calls-IsAscending xs (new_capture_clock rate) tt
