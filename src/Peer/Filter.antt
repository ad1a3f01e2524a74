-- ===== src/Peer/Filter.antt =====
-- src/NtpClient.cpp: `filterAdd`, the clock filter.
use ubersdr_ntp.Prelude.{
  ℕ, ◌+◌, ◌-◌, ◌/◌, ◌==◌, Bool, true, not, ◌||◌, List, [], ◌∷◌, Option, none, some, get_or, length,
  take, ltb, if◌then◌else◌,
}
use ubersdr_ntp.Prelude.Int.{pos}
use ubersdr_ntp.Prelude.Double.{Double, add, sub, mul, div, lt, lit, from_int, dmax}
use ubersdr_ntp.Prelude.Sort.{sort_by}
use ubersdr_ntp.Prelude.Libm.{Libm}
use ubersdr_ntp.Peer.{NtpPeer, NtpPeerInfo, Sample, filter_size, spike_run_limit, count_up}

module _ {D : Type 0} where
  -- The shift of the register: the newest in front, the oldest off the end.
  unfoldable pub shift_in : Sample D → List (Sample D) → List (Sample D)
  shift_in s filter = s ∷ take (filter_size - 1) filter

  -- The delays of the register's samples.
  unfoldable pub valid_delays : List (Sample D) → List D
  valid_delays [] = []
  valid_delays (s ∷ rest) =
      let delays = valid_delays rest in if s.valid then s.delay_sec ∷ delays else delays

module _ {D : Type 0} ⦃f : Double D⦄ where
  -- The loop for the smallest round trip, with the best so far.
  unfoldable pub best_sample : Option (Sample D) → List (Sample D) → Option (Sample D)
  best_sample best [] = best
  best_sample none (s ∷ rest) = best_sample (if s.valid then some s else none) rest
  best_sample (some b) (s ∷ rest) =
      best_sample
        (if not s.valid then some b else if lt s.delay_sec b.delay_sec then some s else some b) rest

  -- The loop for the jitter: the sum of the squares of the distances to the best, and of how many.
  unfoldable pub sum_squares : Sample D → List (Sample D) → D → ℕ → D × ℕ
  sum_squares best [] ss n = (ss, n)
  sum_squares best (s ∷ rest) ss n =
      let d = sub s.offset_sec best.offset_sec in
      if not s.valid || s.seq == best.seq
      then sum_squares best rest ss n
      else sum_squares best rest (add ss (mul d d)) (n + 1)

  unfoldable pub filter_jitter : Libm D → Sample D → List (Sample D) → D
  filter_jitter libm best filter =
      let (ss, n) = sum_squares best filter (lit 0 0) 0 in
      if ltb 0 n then libm.sqrt (div ss (from_int (pos n))) else lit 0 0

  -- How far the lower quartile of the delays is above the best.
  unfoldable pub clean_spread : Sample D → List (Sample D) → D
  clean_spread best filter =
      let delays = sort_by lt (valid_delays filter) in
      sub (get_or delays (length delays / 4) (lit 0 0)) best.delay_sec

  -- Whether a sample's round trip is too far above the best in the register: `excess` and `allowed`.
  unfoldable pub is_spike : Sample D → Sample D → List (Sample D) → Bool
  is_spike best fresh filter =
      lt
        (dmax (dmax (mul (lit 2 0) (lit 1 3)) best.delay_sec)
          (mul (lit 3 0) (clean_spread best filter)))
        (sub fresh.delay_sec best.delay_sec)

  -- A sample dropped as a spike, which leaves the poll to be tried again soon.
  abbrev pub drop_spike : NtpPeer D → NtpPeer D
  drop_spike p =
      let info : NtpPeerInfo D = p.info in
      record p {
        spike_run = p.spike_run + 1;
        retryable = true;
        info = record info { spikes = count_up info.spikes };
      }

  -- A sample handed on to the estimator.
  unfoldable pub hand_on : NtpPeer D → Sample D → NtpPeer D
  hand_on p fresh =
      if ltb p.handed_on fresh.seq
      then record p {
        spike_run = 0;
        handed_on = fresh.seq;
        offsets = (fresh.at_sec, fresh.offset_sec) ∷ p.offsets;
      }
      else record p { spike_run = 0 }

  unfoldable pub gate : NtpPeer D → Sample D → Sample D → NtpPeer D
  gate p best fresh =
      if is_spike best fresh p.filter
      then if ltb (p.spike_run + 1) spike_run_limit then drop_spike p else hand_on p fresh
      else hand_on p fresh

  -- The figures of the register, which go to the status.
  unfoldable pub note_filter : Libm D → NtpPeer D → Sample D → NtpPeer D
  note_filter libm p best =
      let info : NtpPeerInfo D = p.info in
      record p {
        info = record info {
          filter_jitter_sec = filter_jitter libm best p.filter;
          delay_sec = best.delay_sec;
          root_distance_sec =
              add
                (add (div (add info.root_delay_sec best.delay_sec) (lit 2 0))
                  info.root_dispersion_sec)
                best.dispersion_sec;
        };
      }

  unfoldable pub shift_filter : NtpPeer D → Sample D → NtpPeer D
  shift_filter p s = record p { filter = shift_in s p.filter }

  unfoldable pub filter_add : Libm D → NtpPeer D → Sample D → NtpPeer D
  filter_add libm p s =
      let shifted = shift_filter p s in
      elim (best_sample none shifted.filter) [
        | none ↦ shifted
        | some best ↦ gate (note_filter libm shifted best) best s
      ]
