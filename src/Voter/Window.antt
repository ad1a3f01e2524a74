-- ===== src/Voter/Window.antt =====
-- src/clock/TimeFrameVoter.cpp: the sliding window holds the newest frames.
use ubersdr_ntp.Prelude.{
  ℕ, ◌+◌, ◌-◌, ◌≤◌, List, [], ◌∷◌, ◌++◌, length, drop, length-drop, length-append, ◌≡◌, refl, ap,
  ◌∙◌, sym, arith, zero, suc,
}
use mathlib.Core.List.{append-nil, append_assoc}
use ubersdr_ntp.Voter.{TimeFrameVoter, Config, Frame, add_frame}

-- The last n of a list.
abbrev pub newest : {A : Type 0} → ℕ → List A → List A
newest n xs = drop (length xs - n) xs

module _ {A : Type 0} where
  drop-append : (m : ℕ) (xs ys : List A) → m ≤ length xs → drop m (xs ++ ys) ≡ drop m xs ++ ys
  drop-append zero xs ys h = refl
  drop-append (suc m) [] ys h = absurd (omega arith)
  drop-append (suc m) (x ∷ xs) ys h = drop-append m xs ys (omega arith)

  drop_all : (m : ℕ) → drop {A = A} m [] ≡ []
  drop_all zero = refl
  drop_all (suc m) = refl

  drop-drop : (n m k : ℕ) (xs : List A) → k ≡ n + m → drop m (drop n xs) ≡ drop k xs
  drop-drop zero m k xs e = ap (λ j. drop j xs) (omega arith)
  drop-drop (suc n) m k [] e = drop_all m ∙ sym (drop_all k)
  drop-drop (suc n) m zero (x ∷ xs) e = absurd (omega arith)
  drop-drop (suc n) m (suc k) (x ∷ xs) e = drop-drop n m k xs (omega arith)

  newest-append : (w : ℕ) (a b : List A) → newest w (newest w a ++ b) ≡ newest w (a ++ b)
  newest-append w a b =
      ap (newest w) (sym (drop-append (length a - w) a b (omega arith)))
      ∙ drop-drop (length a - w) _ _ (a ++ b)
          (omega (arith, length-append a b, length-drop (length a - w) (a ++ b)))

module _ {F : Type 0} where
  -- The frames that the window holds after several minutes.
  abbrev pub add_frames : TimeFrameVoter F → List (Frame F) → TimeFrameVoter F
  add_frames v [] = v
  add_frames v (f ∷ fs) = add_frames (add_frame v f) fs

  add_frames_from :
      (fs a : List (Frame F)) (v : TimeFrameVoter F)
      → v.frames ≡ newest v.cfg.window a
      → (add_frames v fs).frames ≡ newest v.cfg.window (a ++ fs)
  unfolding add_frame
  add_frames_from [] a v h = h ∙ ap (newest v.cfg.window) (sym (append-nil a))
  add_frames_from (f ∷ fs) a v h =
      add_frames_from fs (a ++ (f ∷ [])) (add_frame v f)
        (ap (λ xs. newest v.cfg.window (xs ++ (f ∷ []))) h ∙ newest-append v.cfg.window a (f ∷ []))
      ∙ ap (newest v.cfg.window) (append_assoc a (f ∷ []) fs)

  -- From an empty window on, the frames held are the last of those added, as many as the window takes.
  pub add_frames_lem :
      (cfg : Config F) (fs : List (Frame F))
      → (add_frames (record { cfg = cfg; frames = [] }) fs).frames ≡ newest cfg.window fs
  add_frames_lem cfg fs =
      add_frames_from fs [] (record { cfg = cfg; frames = [] }) (sym (drop_all _))
