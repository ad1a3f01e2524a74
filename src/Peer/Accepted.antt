-- ===== src/Peer/Accepted.antt =====
-- src/NtpClient.cpp: what an accepted poll has met, and what a failed one leaves alone.
use ubersdr_ntp.Prelude.{
  ℕ, ◌/◌, ◌%◌, ◌^◌, ◌==◌, ◌≤◌, ◌≡◌, ◌≢◌, ◌⊎◌, subst, ap, true, false, List, [], ◌∷◌, Option, none,
  some, length, All, arith, get_or,
}
use ubersdr_ntp.Prelude.Int.{pos, ◌≤ℤ◌}
use ubersdr_ntp.Prelude.Double.{Double, mul, lt, lit}
use ubersdr_ntp.Prelude.Libm.{Libm}
use ubersdr_ntp.Server.Layout.{leap_field, version_field, mode_field, stratum_field}
use ubersdr_ntp.Server.Serve.{received_at}
use ubersdr_ntp.Peer.{NtpPeer, NtpSourceConfig, Reject, close_socket}
use ubersdr_ntp.Peer.Wire.{PeerHost, read32, is_answer}
use ubersdr_ntp.Peer.Connect.{
  Lookup, ensure_socket, connect_peer, lookup_failed, connect_failed, note_lookup, move_to,
  connect_to,
}
use ubersdr_ntp.Peer.Filter.{hand_on, gate, note_filter, shift_filter}
use ubersdr_ntp.Peer.Poll.{
  Arrival, Datagram, PollReads, Reading, is_local, refusal, take_kiss, stop_for, back_off,
  ease_backoff, count_reply, next_seq, note_reply, accept, reading_of, take_answer, count_sent,
  new_poll, time_out, poll_once,
}
use ubersdr_ntp.Peer.Cases.{
  Some, here, there, IsAnswer, is_the_answer, filter_add_lem, take_answer_lem, wait_reply_lem,
  poll_once_lem,
}

-- An answer to the request with a nonce.
pub record EchoesNonce (nonce : ℕ) (buf : List ℕ) : Type 0 where
  pub long : 48 ≤ length buf
  pub mode_is : mode_field buf ≡ 4
  pub version_in : (3 ≤ version_field buf) × (version_field buf ≤ 4)
  pub nonce_is : (read32 buf 24 ≡ nonce / 2 ^ 32) × (read32 buf 28 ≡ nonce % 2 ^ 32)

-- The time of a server that is good enough, and that is not synchronised to this host.
pub record IsGood {D : Type 0} ⦃f : Double D⦄ (cfg : NtpSourceConfig D) (local_addrs : List ℕ)
    (m : Reading D) (buf : List ℕ) : Type 0 where
  pub stratum_in : (1 ≤ stratum_field buf) × (pos (stratum_field buf) ≤ℤ cfg.max_stratum)
  pub leap_is : leap_field buf ≢ 3
  pub transmit_is : (read32 buf 40 ≢ 0) ⊎ (read32 buf 44 ≢ 0)
  pub no_loop : (stratum_field buf ≡ 1) ⊎ All (λ a. a ≢ read32 buf 12) local_addrs
  pub distance_is : lt (mul cfg.max_root_distance_ms (lit 1 3)) m.root_distance ≡ false

is_answer-EchoesNonce :
    (nonce : ℕ) (buf : List ℕ) → is_answer nonce buf ≡ true → EchoesNonce nonce buf
unfolding is_answer
is_answer-EchoesNonce nonce buf h = ground arith

is_local-All : (r : ℕ) (xs : List ℕ) → is_local r xs ≡ false → All (λ a. a ≢ r) xs
unfolding is_local
is_local-All r [] h = tt
is_local-All r (a ∷ rest) h = ground (arith, is_local-All r rest)

module _ {D : Type 0} ⦃f : Double D⦄ where
  refusal-IsGood :
      (cfg : NtpSourceConfig D) (local_addrs buf : List ℕ) (m : Reading D)
      → (get_or buf 1 0 == 0) ≡ false
      → refusal cfg local_addrs buf m ≡ none
      → IsGood cfg local_addrs m buf
  unfolding refusal
  refusal-IsGood cfg local_addrs buf m some_stratum h =
      ground (arith, is_local-All (read32 buf 12) local_addrs)

  accept-offsets :
      (libm : Libm D) (p : NtpPeer D) (buf : List ℕ) (m : Reading D) (t4 : D)
      → let q = accept libm p buf m t4 in
        (q.offsets ≡ p.offsets) ⊎ (q.offsets ≡ (t4, m.offset) ∷ p.offsets)
  unfolding accept next_seq note_reply ease_backoff count_reply note_filter shift_filter gate
      hand_on
  accept-offsets libm p buf m t4 =
      filter_add_lem libm _ _
        (λ q. (q.offsets ≡ p.offsets) ⊎ (q.offsets ≡ (t4, m.offset) ∷ p.offsets))
        (λ _. ground arith) (λ b. ground arith)

  -- The same configuration and samples.
  record IsUntouched (p q : NtpPeer D) : Type 0 where
    cfg_is : q.cfg ≡ p.cfg
    addrs_is : q.local_addrs ≡ p.local_addrs
    offsets_is : q.offsets ≡ p.offsets
    filter_is : q.filter ≡ p.filter

  ensure_socket-IsUntouched :
      (p : NtpPeer D) (l : Lookup D) → IsUntouched p (ensure_socket (new_poll p) l).0
  unfolding ensure_socket connect_peer lookup_failed connect_failed note_lookup move_to connect_to
      new_poll
  ensure_socket-IsUntouched p l = ground arith

  count_sent-IsUntouched : (p q : NtpPeer D) → IsUntouched p q → IsUntouched p (count_sent q)
  unfolding count_sent
  count_sent-IsUntouched p q h = ground arith

  take_kiss-IsUntouched :
      (libm : Libm D) (p q : NtpPeer D) (buf : List ℕ)
      → IsUntouched p q
      → IsUntouched p (take_kiss libm q buf).0
  unfolding take_kiss stop_for back_off
  take_kiss-IsUntouched libm p q buf h = ground arith

  close_socket-IsUntouched : (p q : NtpPeer D) → IsUntouched p q → IsUntouched p (close_socket q)
  close_socket-IsUntouched p q h = ground arith

  time_out-IsUntouched : (p q : NtpPeer D) → IsUntouched p q → IsUntouched p (time_out q)
  time_out-IsUntouched p q h = ground arith

  take_kiss-some : (libm : Libm D) (p : NtpPeer D) (buf : List ℕ) → (take_kiss libm p buf).1 ≢ none
  unfolding take_kiss
  take_kiss-some libm p buf = ground arith

  -- The receipt of an answer, and what it measures.
  abbrev pub receipt : Datagram D → D
  receipt d = received_at d.read_at d.stamps

module _ {D : Type 0} ⦃f : Double D⦄ (libm : Libm D) (host : PeerHost D) where
  abbrev pub measured : NtpSourceConfig D → PollReads D → Datagram D → Reading D
  measured cfg r d = reading_of libm host cfg d.bytes r.t1 (receipt d) r.approx

  -- An answer that a peer takes, of the configuration and the readings so far, and those after it.
  pub record IsTaken (cfg : NtpSourceConfig D) (local_addrs : List ℕ) (offsets : List (D × D))
      (r : PollReads D) (offsets' : List (D × D)) (d : Datagram D) : Type 0 where
    pub arrived : Some (IsAnswer r.nonce d) r.arrivals
    pub echoes : EchoesNonce r.nonce d.bytes
    pub good : IsGood cfg local_addrs (measured cfg r d) d.bytes
    pub offsets_in :
        (offsets' ≡ offsets) ⊎ (offsets' ≡ (receipt d, (measured cfg r d).offset) ∷ offsets)

  answered-EchoesNonce :
      (nonce : ℕ) (d : Datagram D) (as' : List (Arrival D))
      → Some (IsAnswer nonce d) as'
      → EchoesNonce nonce d.bytes
  answered-EchoesNonce nonce d _ (here _ _ (is_the_answer e)) =
      is_answer-EchoesNonce nonce d.bytes e
  answered-EchoesNonce nonce d _ (there _ rest h) = answered-EchoesNonce nonce d rest h

  abbrev Taken : NtpPeer D → PollReads D → NtpPeer D → Type 0
  Taken p r q = (d : Datagram D) × IsTaken p.cfg p.local_addrs p.offsets r q.offsets d

  take_answer-Taken :
      (p : NtpPeer D) (r : PollReads D) (d : Datagram D)
      → Some (IsAnswer r.nonce d) r.arrivals
      → (take_answer libm host p r d).1 ≡ none
      → Taken p r (take_answer libm host p r d).0
  take_answer-Taken p r d answer =
      take_answer_lem libm host p r d (λ x. x.1 ≡ none → Taken p r x.0)
        (λ _ e. absurd (take_kiss-some libm p d.bytes e)) (λ why e. cc)
        (λ e e' _. (
          d,
          record {
            arrived = answer;
            echoes = answered-EchoesNonce r.nonce d r.arrivals answer;
            good = refusal-IsGood p.cfg p.local_addrs d.bytes (measured p.cfg r d) e e';
            offsets_in = accept-offsets libm p d.bytes (measured p.cfg r d) (receipt d);
          },
        ))

  Taken-untouched :
      (p q : NtpPeer D) (r : PollReads D) (x : NtpPeer D)
      → IsUntouched p q
      → Taken q r x
      → Taken p r x
  Taken-untouched p q r x same (d, h) = (
    d,
    subst (λ o. IsTaken p.cfg p.local_addrs o r x.offsets d) same.offsets_is
        (subst (λ a. IsTaken p.cfg a q.offsets r x.offsets d) same.addrs_is
          (subst (λ c. IsTaken c q.local_addrs q.offsets r x.offsets d) same.cfg_is h)),
  )

  -- A poll that succeeds has taken one of the datagrams that arrived: at least 48 bytes in server mode,
  -- of version 3 or 4, which echo the poll's random nonce; of a stratum from 1 to the configured limit,
  -- synchronised, with a transmit time that is not zero, and above stratum 1 with a reference that is no
  -- address of this host; of a root distance within the configured limit. What the estimator is given,
  -- if anything, is the offset of that datagram at its receipt.
  pub poll_once-Taken :
      (p : NtpPeer D) (r : PollReads D) (q : NtpPeer D)
      → poll_once libm host p r ≡ (q, none)
      → (d : Datagram D) × IsTaken p.cfg p.local_addrs p.offsets r q.offsets d
  poll_once-Taken p r q e =
      let opened = ensure_socket-IsUntouched p r.lookup in
      let sent = count_sent (ensure_socket (new_poll p) r.lookup).0 in
      let asked = count_sent-IsUntouched p _ opened in
      subst (λ x. Taken p r x) (ap (λ (x : NtpPeer D × Option (Reject D)). x.0) e)
        (poll_once_lem libm host p r (λ x. x.1 ≡ none → Taken p r x.0) (λ _ h. cc) (λ _ h. cc)
          (wait_reply_lem libm host sent r r.arrivals (λ x. x.1 ≡ none → Taken p r x.0) (λ h. cc)
            (λ _ h. cc)
            (λ d answer h.
              Taken-untouched p sent r (take_answer libm host sent r d).0 asked
                (take_answer-Taken sent r d answer h)))
          (ap (λ (x : NtpPeer D × Option (Reject D)). x.1) e))

  -- A poll that fails, for whatever reason, gives the estimator nothing and leaves the clock filter as
  -- it was.
  pub poll_once-failed :
      (p : NtpPeer D) (r : PollReads D) (q : NtpPeer D) (why : Reject D)
      → poll_once libm host p r ≡ (q, some why)
      → (q.offsets ≡ p.offsets) × (q.filter ≡ p.filter)
  poll_once-failed p r q why e =
      let opened = ensure_socket-IsUntouched p r.lookup in
      let asked = count_sent-IsUntouched p _ opened in
      let untouched : IsUntouched p q =
        subst (λ x. IsUntouched p x) (ap (λ (x : NtpPeer D × Option (Reject D)). x.0) e)
          (poll_once_lem libm host p r (λ x. x.1 ≡ some why → IsUntouched p x.0) (λ _ h. opened)
            (λ _ h. close_socket-IsUntouched p _ opened)
            (wait_reply_lem libm host _ r r.arrivals (λ x. x.1 ≡ some why → IsUntouched p x.0)
              (λ h. time_out-IsUntouched p _ asked) (λ _ h. close_socket-IsUntouched p _ asked)
              (λ d _.
                take_answer_lem libm host _ r d (λ x. x.1 ≡ some why → IsUntouched p x.0)
                  (λ _ h. take_kiss-IsUntouched libm p _ d.bytes asked) (λ _ h. asked)
                  (λ _ _ h. cc)))
            (ap (λ (x : NtpPeer D × Option (Reject D)). x.1) e)) in
      (untouched.offsets_is, untouched.filter_is)
