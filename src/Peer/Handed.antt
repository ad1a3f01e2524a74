-- ===== src/Peer/Handed.antt =====
-- src/NtpClient.cpp: the spike gate cannot starve the estimator.
use ubersdr_ntp.Prelude.{
  Bool, ℕ, ◌+◌, ◌*◌, ◌^◌, ◌≤◌, ◌<◌, ◌≡◌, refl, sym, subst, ap, true, List, [], ◌∷◌, Option, none,
  some, length, take, arith,
}
use ubersdr_ntp.Prelude.Double.{Double}
use ubersdr_ntp.Prelude.Libm.{Libm}
use ubersdr_ntp.Peer.{
  NtpPeer, NtpSourceConfig, new_peer, Sample, Reject, close_socket, spike_run_limit,
}
use ubersdr_ntp.Peer.Wire.{PeerHost}
use ubersdr_ntp.Peer.Connect.{
  Lookup, ensure_socket, connect_peer, lookup_failed, connect_failed, note_lookup, move_to,
  connect_to,
}
use ubersdr_ntp.Peer.Filter.{
  shift_in, best_sample, hand_on, gate, note_filter, shift_filter, filter_add,
}
use ubersdr_ntp.Peer.Poll.{
  PollReads, Reading, take_kiss, stop_for, back_off, ease_backoff, count_reply, next_seq,
  note_reply, sample_of, accept, count_sent, new_poll, time_out, poll_once,
}
use ubersdr_ntp.Peer.Loop.{accepted_in, poll_all}
use ubersdr_ntp.Peer.Cases.{filter_add_lem, take_answer_lem, wait_reply_lem, poll_once_lem}

-- Twice the readings that are with the estimator, and that once more, and the spikes that were dropped
-- since the newest of them: a count that each accepted sample brings up.
abbrev credit : {D : Type 0} → NtpPeer D → ℕ
credit p = 3 * length p.offsets + p.spike_run

-- The state between polls: what was handed on is not newer than the newest sample.
record IsOrdered {D : Type 0} (p : NtpPeer D) : Type 0 where
  handed_in : p.handed_on ≤ p.seq
  spike_in : p.spike_run < spike_run_limit

-- From p to q, with so many more samples accepted.
record Advances {D : Type 0} (n : ℕ) (p q : NtpPeer D) : Type 0 where
  credit_is : credit p + n ≤ credit q
  seq_is : q.seq ≡ p.seq + n
  ordered : IsOrdered q

module _ {D : Type 0} ⦃f : Double D⦄ where
  best_sample-some : (b : Sample D) (xs : List (Sample D)) → best_sample (some b) xs ≡ none → ⊥
  unfolding best_sample
  best_sample-some b [] h = cc
  best_sample-some b (x ∷ xs) h = ground (arith, best_sample-some b xs, best_sample-some x xs)

  shifted-some :
      (p : NtpPeer D) (s : Sample D)
      → s.valid ≡ true
      → best_sample none (shift_filter p s).filter ≡ none
      → ⊥
  unfolding shift_filter shift_in best_sample
  shifted-some p s ok h = ground (arith, best_sample-some s (take 7 p.filter))

  -- What the filter makes of the newest sample.
  abbrev Gated : NtpPeer D → NtpPeer D → Type 0
  Gated p q = (credit p + 1 ≤ credit q) × IsOrdered q × (q.seq ≡ p.seq)

  gate-Gated :
      (p : NtpPeer D) (b s : Sample D)
      → p.handed_on < s.seq
      → s.seq ≡ p.seq
      → p.spike_run < spike_run_limit
      → Gated p (gate p b s)
  unfolding gate hand_on
  gate-Gated p b s newer e h = ground arith

  noted-Gated :
      (libm : Libm D) (p : NtpPeer D) (b s : Sample D) (q : NtpPeer D)
      → Gated (note_filter libm (shift_filter p s) b) q
      → Gated p q
  unfolding note_filter shift_filter
  noted-Gated libm p b s q h = h

  filter_add-Gated :
      (libm : Libm D) (p : NtpPeer D) (s : Sample D)
      → s.valid ≡ true
      → p.handed_on < s.seq
      → s.seq ≡ p.seq
      → p.spike_run < spike_run_limit
      → Gated p (filter_add libm p s)
  unfolding note_filter shift_filter
  filter_add-Gated libm p s ok newer e h =
      filter_add_lem libm p s (Gated p) (λ none_best. absurd (shifted-some p s ok none_best))
        (λ b. gate-Gated (note_filter libm (shift_filter p s) b) b s newer e h)

  -- Another state with the same samples.
  record Same (p q : NtpPeer D) : Type 0 where
    offsets_is : q.offsets ≡ p.offsets
    spike_is : q.spike_run ≡ p.spike_run
    handed_is : q.handed_on ≡ p.handed_on
    seq_is : q.seq ≡ p.seq

  accept-Same :
      (p : NtpPeer D) (buf : List ℕ) (m : Reading D)
      → p.seq + 1 < 2 ^ 64
      → let q = next_seq (note_reply (ease_backoff (count_reply p)) buf m) in
        (q.offsets ≡ p.offsets)
        × (q.spike_run ≡ p.spike_run)
        × (q.handed_on ≡ p.handed_on)
        × (q.seq ≡ p.seq + 1)
  unfolding next_seq note_reply ease_backoff count_reply
  accept-Same p buf m room = ground arith

  accept-Advances :
      (libm : Libm D) (p : NtpPeer D) (buf : List ℕ) (m : Reading D) (t4 : D)
      → IsOrdered p
      → p.seq + 1 < 2 ^ 64
      → Advances 1 p (accept libm p buf m t4)
  unfolding accept
  accept-Advances libm p buf m t4 h room =
      let q = next_seq (note_reply (ease_backoff (count_reply p)) buf m) in
      let same = accept-Same p buf m room in
      let gated : Gated q (accept libm p buf m t4) =
        filter_add-Gated libm q (sample_of q.seq m t4) refl (ground (arith, h, same)) refl
          (ground (arith, h, same)) in
      ground (arith, h, same, gated)

  -- What leaves the samples as they are.
  record IsSame (p q : NtpPeer D) : Type 0 where
    offsets_is : q.offsets ≡ p.offsets
    spike_is : q.spike_run ≡ p.spike_run
    handed_is : q.handed_on ≡ p.handed_on
    seq_is : q.seq ≡ p.seq

  take_kiss-IsSame :
      (libm : Libm D) (p : NtpPeer D) (buf : List ℕ) → IsSame p (take_kiss libm p buf).0
  unfolding take_kiss stop_for back_off
  take_kiss-IsSame libm p buf = ground arith

  take_kiss-accepted_in :
      (libm : Libm D) (p : NtpPeer D) (buf : List ℕ) → accepted_in (take_kiss libm p buf).1 ≡ 0
  unfolding take_kiss
  take_kiss-accepted_in libm p buf = ground arith

  ensure_socket-IsSame :
      (p : NtpPeer D) (l : Lookup D) → IsSame p (count_sent (ensure_socket (new_poll p) l).0)
  unfolding ensure_socket connect_peer lookup_failed connect_failed note_lookup move_to connect_to
      count_sent new_poll
  ensure_socket-IsSame p l = ground arith

  asked-IsSame : (p : NtpPeer D) (l : Lookup D) → IsSame p (ensure_socket (new_poll p) l).0
  unfolding ensure_socket connect_peer lookup_failed connect_failed note_lookup move_to connect_to
      new_poll
  asked-IsSame p l = ground arith

  Advances-zero : (p q : NtpPeer D) → IsSame p q → IsOrdered p → Advances 0 p q
  Advances-zero p q s h = ground (arith, ap length s.offsets_is)

  Advances-one : (p q r : NtpPeer D) (n : ℕ) → IsSame p q → Advances n q r → Advances n p r
  Advances-one p q r n s h = ground (arith, ap length s.offsets_is)

  Advances-add :
      (p q r : NtpPeer D) (m n : ℕ) → Advances m p q → Advances n q r → Advances (m + n) p r
  Advances-add p q r m n g h = ground arith

  IsSame-then : (p q r : NtpPeer D) → IsSame p q → IsSame q r → IsSame p r
  IsSame-then p q r g h = ground arith

  accepted_in-le : (o : Option (Reject D)) → accepted_in o ≤ 1
  accepted_in-le o = ground arith

  Advances-close : (n : ℕ) (p q : NtpPeer D) → Advances n p q → Advances n p (close_socket q)
  Advances-close n p q h = ground arith

  Advances-late : (n : ℕ) (p q : NtpPeer D) → Advances n p q → Advances n p (time_out q)
  Advances-late n p q h = ground arith

module _ {D : Type 0} ⦃f : Double D⦄ (libm : Libm D) (host : PeerHost D) where
  poll_once-Advances :
      (p : NtpPeer D) (r : PollReads D)
      → IsOrdered p
      → p.seq + 1 < 2 ^ 64
      → let x = poll_once libm host p r in Advances (accepted_in x.1) p x.0
  poll_once-Advances p r h room =
      let s = asked-IsSame p r.lookup in
      let t = ensure_socket-IsSame p r.lookup in
      let q = count_sent (ensure_socket (new_poll p) r.lookup).0 in
      let opened = Advances-zero p _ s h in
      let asked = Advances-zero p q t h in
      poll_once_lem libm host p r (λ x. Advances (accepted_in x.1) p x.0) (λ _. opened)
        (λ _. Advances-close 0 p _ opened)
        (wait_reply_lem libm host q r r.arrivals (λ x. Advances (accepted_in x.1) p x.0)
          (Advances-late 0 p q asked) (λ _. Advances-close 0 p q asked)
          (λ d _.
            take_answer_lem libm host q r d (λ x. Advances (accepted_in x.1) p x.0)
              (λ _.
                subst (λ n. Advances n p (take_kiss libm q d.bytes).0)
                  (sym (take_kiss-accepted_in libm q d.bytes))
                  (Advances-zero p _ (IsSame-then p q _ t (take_kiss-IsSame libm q d.bytes)) h))
              (λ _. asked)
              (λ _ _.
                Advances-one p q _ 1 t
                  (accept-Advances libm q d.bytes _ _ asked.ordered (ground (arith, asked))))))

  poll_all-Advances :
      (rs : List (PollReads D)) (p : NtpPeer D)
      → IsOrdered p
      → p.seq + length rs < 2 ^ 64
      → let x = poll_all libm host p rs in (x.1 ≤ length rs) × Advances x.1 p x.0
  unfolding poll_all
  poll_all-Advances [] p h room = ground arith
  poll_all-Advances (r ∷ rs) p h room =
      let x = poll_once libm host p r in
      let first = poll_once-Advances p r h (ground arith) in
      let atmost = accepted_in-le x.1 in
      let later = poll_all-Advances rs x.0 first.ordered (ground (arith, first, atmost)) in
      (ground (arith, atmost, later.0), Advances-add p x.0 _ (accepted_in x.1) _ first later.1)

  new_peer-IsOrdered :
      (cfg : NtpSourceConfig D) (local_addrs : List ℕ) (literal : Bool)
      → (new_peer cfg local_addrs literal).seq ≡ 0 × IsOrdered (new_peer cfg local_addrs literal)
  unfolding new_peer
  new_peer-IsOrdered cfg local_addrs literal = ground arith

  -- After any polls of a new peer, of the next ones that are accepted at least one in three gives its
  -- reading to the estimator, but for two: three times the readings that it has more are at least the
  -- accepted ones less two. There are fewer than 2^64 polls in all.
  pub poll_all-handed :
      (cfg : NtpSourceConfig D) (local_addrs : List ℕ) (literal : Bool)
      (before rs : List (PollReads D))
      → length before + length rs < 2 ^ 64
      → let p = (poll_all libm host (new_peer cfg local_addrs literal) before).0 in
        let q = poll_all libm host p rs in q.1 + 3 * length p.offsets ≤ 3 * length q.0.offsets + 2
  poll_all-handed cfg local_addrs literal before rs room =
      let start = new_peer-IsOrdered cfg local_addrs literal in
      let first =
        poll_all-Advances before (new_peer cfg local_addrs literal) start.1
          (ground (arith, start.0)) in
      let later = poll_all-Advances rs _ first.1.ordered (ground (arith, start.0, first)) in
      ground (arith, first, later)
