-- ===== src/Peer/Cases.antt =====
-- src/NtpClient.cpp: the ways a poll can go, each with what is known where it goes that way.
use ubersdr_ntp.Prelude.{
  ℕ, ◌==◌, ◌≡◌, true, false, not, List, [], ◌∷◌, Option, none, some, get_or, inl, inr, if_lem,
  Bool-cases, Option-cases,
}
use ubersdr_ntp.Prelude.Double.{Double}
use ubersdr_ntp.Prelude.Libm.{Libm}
use ubersdr_ntp.Server.Serve.{received_at}
use ubersdr_ntp.Peer.{NtpPeer, Reject, Sample, close_socket}
use ubersdr_ntp.Peer.Wire.{PeerHost, is_answer}
use ubersdr_ntp.Peer.Connect.{ensure_socket}
use ubersdr_ntp.Peer.Filter.{best_sample, gate, note_filter, shift_filter, filter_add}
use ubersdr_ntp.Peer.Poll.{
  Arrival, datagram, poll_error, recv_error, Datagram, PollReads, take_kiss, reading_of, refusal,
  accept, take_answer, time_out, wait_reply, count_sent, new_poll, ask, poll_once,
}

-- Something that arrived meets the predicate.
pub data Some {A : Type 0} (P : A → Type 0) : List A → Type 0 where
  here : (x : A) (xs : List A) → P x → Some P (x ∷ xs)
  there : (x : A) (xs : List A) → Some P xs → Some P (x ∷ xs)

-- A datagram that is taken as the answer.
pub data IsAnswer {D : Type 0} (nonce : ℕ) (d : Datagram D) : Arrival D → Type 0 where
  is_the_answer : is_answer nonce d.bytes ≡ true → IsAnswer nonce d (datagram d)

module _ {D : Type 0} ⦃f : Double D⦄ where
  pub filter_add_lem :
      (libm : Libm D) (p : NtpPeer D) (s : Sample D) (Q : NtpPeer D → Type 0)
      → let shifted = shift_filter p s in
        (best_sample none shifted.filter ≡ none → Q shifted)
        → ((b : Sample D) → Q (gate (note_filter libm shifted b) b s))
        → Q (filter_add libm p s)
  unfolding filter_add
  filter_add_lem libm p s Q h k = elim (Option-cases (best_sample none (shift_filter p s).filter)) [
    | inl e ↦ rw (filter_add, e) (h e)
    | inr (b, e) ↦ rw (filter_add, e) (k b)
  ]

abbrev Result : Type 0 → Type 0
Result D = NtpPeer D × Option (Reject D)

module _ {D : Type 0} ⦃f : Double D⦄ (libm : Libm D) (host : PeerHost D) where
  pub take_answer_lem :
      (p : NtpPeer D) (r : PollReads D) (d : Datagram D) (Q : Result D → Type 0)
      → let t4 = received_at d.read_at d.stamps in
        let m = reading_of libm host p.cfg d.bytes r.t1 t4 r.approx in
        ((get_or d.bytes 1 0 == 0) ≡ true → Q (take_kiss libm p d.bytes))
        → ((why : Reject D) → Q (p, some why))
        → ((get_or d.bytes 1 0 == 0) ≡ false
            → refusal p.cfg p.local_addrs d.bytes m ≡ none
            → Q (accept libm p d.bytes m t4, none))
        → Q (take_answer libm host p r d)
  unfolding take_answer
  take_answer_lem p r d Q kissed refused accepted =
      let t4 = received_at d.read_at d.stamps in
      let m = reading_of libm host p.cfg d.bytes r.t1 t4 r.approx in
      elim (Bool-cases (get_or d.bytes 1 0 == 0)) [
        | inl e ↦ rw (take_answer, e) (kissed e)
        | inr e ↦
            rw (take_answer, e)
              (elim (Option-cases (refusal p.cfg p.local_addrs d.bytes m)) [
                | inl e' ↦ rw e' (accepted e e')
                | inr (why, e') ↦ rw e' (refused why)
              ])
      ]

  pub wait_reply_lem :
      (p : NtpPeer D) (r : PollReads D) (arrivals : List (Arrival D)) (Q : Result D → Type 0)
      → Q (time_out p, some Reject.no_reply)
      → ((why : Reject D) → Q (close_socket p, some why))
      → ((d : Datagram D) → Some (IsAnswer r.nonce d) arrivals → Q (take_answer libm host p r d))
      → Q (wait_reply libm host p r arrivals)
  unfolding wait_reply
  wait_reply_lem p r [] Q late closed answered = late
  wait_reply_lem p r (poll_error ∷ rest) Q late closed answered = closed Reject.poll_failed
  wait_reply_lem p r (recv_error ∷ rest) Q late closed answered = closed Reject.recv_failed
  wait_reply_lem p r (datagram d ∷ rest) Q late closed answered =
      if_lem Q (is_answer r.nonce d.bytes) _ _
        (λ e. answered d (here (datagram d) rest (is_the_answer e)))
        (λ e.
          wait_reply_lem p r rest Q late closed
            (λ d' answer. answered d' (there (datagram d) rest answer)))

  pub poll_once_lem :
      (p : NtpPeer D) (r : PollReads D) (Q : Result D → Type 0)
      → let q = (ensure_socket (new_poll p) r.lookup).0 in
        ((why : Reject D) → Q (q, some why))
        → ((why : Reject D) → Q (close_socket q, some why))
        → Q (wait_reply libm host (count_sent q) r r.arrivals)
        → Q (poll_once libm host p r)
  unfolding poll_once ask
  poll_once_lem p r Q failed closed waited =
      elim (Option-cases (ensure_socket (new_poll p) r.lookup).1) [
        | inl e ↦
            rw (poll_once, e)
              (if_lem Q (not r.sent) _ _ (λ _. closed Reject.send_failed) (λ _. waited))
        | inr (why, e) ↦ rw (poll_once, e) (failed why)
      ]
