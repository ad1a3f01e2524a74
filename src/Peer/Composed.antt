-- ===== src/Peer/Composed.antt =====
-- src/NtpClient.cpp with src/NtpServer.cpp: a peer that polls this program's own service.
use ubersdr_ntp.Prelude.{
  ℕ, zero, suc, ◌+◌, ◌/◌, ◌%◌, ◌^◌, ◌<◌, ◌≡◌, refl, sym, ap, subst, some_inj, ◌∙◌, ◌⊎◌, inl, inr,
  Bool-cases, true, false, List, [], ◌∷◌, Option, some, get_or, take, drop, arith,
}
use ubersdr_ntp.Prelude.Int.{pos}
use ubersdr_ntp.Prelude.Double.{Double, lt, mul, lit, from_int, dmin, dmax}
use ubersdr_ntp.Selector.Answer.{clamp}
use ubersdr_ntp.Prelude.Libm.{Libm}
use ubersdr_ntp.Prelude.Dict.{eq_key}
use ubersdr_ntp.Address.{SockAddr}
use ubersdr_ntp.Limiter.{kod}
use ubersdr_ntp.Server.{NtpServer, Field, count_field}
use ubersdr_ntp.Server.Packet.{put32, client_transmit, rate_text}
use ubersdr_ntp.Server.Layout.{IsReply, IsKiss, refid_field, originate_field}
use ubersdr_ntp.Server.Serve.{Host, Reads, is_request, admit, serve_one}
use ubersdr_ntp.Server.Honest.{serve_one-IsReply, serve_one-IsKiss}
use ubersdr_ntp.Peer.{NtpPeer, Reject}
use ubersdr_ntp.Peer.Wire.{
  PeerHost, interval, read32, is_answer, request_packet, kiss_text, printable_from,
}
use ubersdr_ntp.Peer.Poll.{
  PollReads, Datagram, Arrival, datagram, is_stop, back_off, take_kiss, take_answer, wait_reply,
}

module _ {A : Type 0} where
  get_or-drop : (k : ℕ) (xs : List A) (i : ℕ) (d : A) → get_or (drop k xs) i d ≡ get_or xs (k + i) d
  get_or-drop zero xs i d = ap (λ n. get_or xs n d) (omega arith)
  get_or-drop (suc k) [] i d = refl
  get_or-drop (suc k) (x ∷ xs) i d =
      let e : suc (k + i) ≡ suc k + i = omega arith in
      get_or-drop k xs i d ∙ ap (λ n. get_or (x ∷ xs) n d) e

  get_or-take :
      (n : ℕ) (xs : List A) (i : ℕ) (d : A) → i < n → get_or (take n xs) i d ≡ get_or xs i d
  get_or-take zero xs i d h = absurd (omega (arith, h))
  get_or-take (suc n) [] i d h = refl
  get_or-take (suc n) (x ∷ xs) zero d h = refl
  get_or-take (suc n) (x ∷ xs) (suc i) d h = get_or-take n xs i d (omega (arith, h))

  -- An element of a field, at its place in the packet.
  field_at :
      (k n : ℕ) (xs field : List A) (i : ℕ) (d : A)
      → take n (drop k xs) ≡ field
      → i < n
      → get_or xs (k + i) d ≡ get_or field i d
  field_at k n xs field i d e h =
      sym (get_or-drop k xs i d)
      ∙ sym (get_or-take n (drop k xs) i d h)
      ∙ ap (λ ys. get_or ys i d) e

-- Four bytes that were put are read back.
read32-put32 :
    (p : List ℕ) (k v : ℕ)
    → v < 2 ^ 32
    → get_or p k 0 ≡ v / 2 ^ 24 % 256
    → get_or p (k + 1) 0 ≡ v / 2 ^ 16 % 256
    → get_or p (k + 2) 0 ≡ v / 2 ^ 8 % 256
    → get_or p (k + 3) 0 ≡ v % 256
    → read32 p k ≡ v
unfolding read32
read32-put32 p k v small a b c d = omega (arith, small, a, b, c, d)

-- The nonce that our request carries, where a reply echoes it.
echoed :
    (poll precision nonce : ℕ) (p : List ℕ)
    → nonce < 2 ^ 64
    → originate_field p ≡ client_transmit (request_packet poll precision nonce)
    → (read32 p 24 ≡ nonce / 2 ^ 32) × (read32 p 28 ≡ nonce % 2 ^ 32)
unfolding request_packet put32
echoed poll precision nonce p small e =
    let at : (i : ℕ)
        → i < 8
        → get_or p (24 + i) 0 ≡ get_or (client_transmit (request_packet poll precision nonce)) i 0 =
      λ i below. field_at 24 8 p _ i 0 e below in
    (
      read32-put32 p 24 (nonce / 2 ^ 32) (omega (arith, small)) (at 0 (omega arith))
          (at 1 (omega arith)) (at 2 (omega arith)) (at 3 (omega arith)),
      read32-put32 p 28 (nonce % 2 ^ 32) (omega arith) (at 4 (omega arith)) (at 5 (omega arith))
          (at 6 (omega arith)) (at 7 (omega arith)),
    )

-- What our own service sends to the request, whichever of its replies that is.
answers :
    (poll precision nonce : ℕ) (p : List ℕ)
    → nonce < 2 ^ 64
    → IsReply (request_packet poll precision nonce) p
    → is_answer nonce p ≡ true
unfolding is_answer request_packet
answers poll precision nonce p small reply =
    ground (arith, reply, echoed poll precision nonce p small reply.originate_is)

request_is_request :
    (poll precision nonce : ℕ) → is_request (request_packet poll precision nonce) ≡ true
unfolding is_request request_packet put32
request_is_request poll precision nonce = ground arith

kiss_text-rate_text : (p : List ℕ) → refid_field p ≡ rate_text → kiss_text p ≡ rate_text
unfolding kiss_text printable_from
kiss_text-rate_text p e =
    let at : (i : ℕ) → i < 4 → get_or p (12 + i) 0 ≡ get_or rate_text i 0 =
      λ i below. field_at 12 4 p rate_text i 0 e below in
    ground (arith, at 0 (omega arith), at 1 (omega arith), at 2 (omega arith), at 3 (omega arith))

module _ {D : Type 0} ⦃f : Double D⦄ where
  -- Whatever this program's service sends in reply to a peer's request, in any state of the service, the
  -- peer takes as the answer to that request; the nonce is a number of 64 bits.
  pub serve_one-is_answer :
      (host : Host D) (s : NtpServer D) (from : SockAddr) (r : Reads D) (poll precision nonce : ℕ)
      (p : List ℕ)
      → nonce < 2 ^ 64
      → (serve_one host s from (request_packet poll precision nonce) r).1 ≡ some p
      → is_answer nonce p ≡ true
  serve_one-is_answer host s from r poll precision nonce p small sent =
      answers poll precision nonce p small
        (serve_one-IsReply host s from (request_packet poll precision nonce) r p sent).1

module _ {D : Type 0} ⦃f : Double D⦄ (libm : Libm D) (peer_host : PeerHost D) where
  -- The poll that a kiss asks for, in seconds.
  abbrev pub asked_sec : List ℕ → D
  asked_sec buf = libm.pow (lit 2 0) (from_int (clamp (pos (get_or buf 2 0)) (pos 4) (pos 17)))

  -- What compares as less does not compare as more, as of any doubles.
  abbrev pub IsAsymmetric : Type 0
  IsAsymmetric = (x y : D) → lt x y ≡ true → lt y x ≡ false

  -- An interval that is at most 1024 s, and is that or is less than neither of two.
  abbrev pub IsStretched : D → D → D → Type 0
  IsStretched twice asked b =
      (lt (lit 1024 0) b ≡ false)
      × ((b ≡ lit 1024 0) ⊎ ((lt b twice ≡ false) × (lt b asked ≡ false)))

  irreflexive : IsAsymmetric → (x : D) → lt x x ≡ false
  irreflexive asym x = elim (Bool-cases (lt x x)) [ inl e ↦ asym x x e | inr e ↦ e ]

  dmax_above : IsAsymmetric → (a b : D) → (lt (dmax a b) a ≡ false) × (lt (dmax a b) b ≡ false)
  dmax_above asym a b = elim (Bool-cases (lt a b)) [
    | inl e ↦ rw e (asym a b e, irreflexive asym b)
    | inr e ↦ rw e (irreflexive asym a, e)
  ]

  dmin-IsStretched : IsAsymmetric → (a b : D) → IsStretched a b (dmin (lit 1024 0) (dmax a b))
  dmin-IsStretched asym a b = elim (Bool-cases (lt (dmax a b) (lit 1024 0))) [
    | inl e ↦ rw e (asym _ _ e, inr (dmax_above asym a b))
    | inr e ↦ rw e (irreflexive asym (lit 1024 0), inl refl)
  ]

  -- The state after a kiss-o'-death RATE: the poll is one that failed for that, no burst is left, and the
  -- interval is neither below twice the one before nor below what the kiss asks for, but for 1024 s.
  pub record IsSlowed (p : NtpPeer D) (buf : List ℕ) (q : NtpPeer D × Option (Reject D))
      : Type 0 where
    pub stretched : IsStretched (mul (interval p) (lit 2 0)) (asked_sec buf) q.0.backoff_poll_sec
    pub why_is : q.1 ≡ some Reject.slower_poll
    pub burst_is : q.0.burst_left ≡ 0
    pub good_is : q.0.good_run ≡ 0
    pub kiss_is : q.0.info.kiss_code ≡ rate_text

  take_kiss-IsSlowed :
      (p : NtpPeer D) (buf : List ℕ)
      → IsAsymmetric
      → kiss_text buf ≡ rate_text
      → IsSlowed p buf (take_kiss libm p buf)
  unfolding take_kiss back_off is_stop eq_key
  take_kiss-IsSlowed p buf asym e = rw e (record {
    stretched = dmin-IsStretched asym (mul (interval p) (lit 2 0)) (asked_sec buf);
    why_is = refl;
    burst_is = refl;
    good_is = refl;
    kiss_is = refl;
  })

  -- Where no two numbers compare as less both ways: a peer whose request our own service limits with a
  -- kiss-o'-death, which is the first to arrive, ends its burst and its clean run; the poll fails; and
  -- the interval that it backs off to is not above 1024 s, and is 1024 s or is neither below twice the
  -- one in force before nor below what the kiss asks for. The nonce is a number of 64 bits.
  pub wait_reply-IsSlowed :
      (host : Host D) (s : NtpServer D) (from : SockAddr) (r : Reads D) (poll precision : ℕ)
      (p : NtpPeer D) (pr : PollReads D) (d : Datagram D) (rest : List (Arrival D))
      → IsAsymmetric
      → pr.nonce < 2 ^ 64
      → (admit host (count_field s Field.requests r.at_request) from r).1 ≡ kod
      → (serve_one host s from (request_packet poll precision pr.nonce) r).1 ≡ some d.bytes
      → IsSlowed p d.bytes (wait_reply libm peer_host p pr (datagram d ∷ rest))
  unfolding wait_reply take_answer
  wait_reply-IsSlowed host s from r poll precision p pr d rest asym small verdict sent =
      let buf = request_packet poll precision pr.nonce in
      let (k, sent', kiss) =
        serve_one-IsKiss host s from buf r (request_is_request poll precision pr.nonce) verdict in
      let same : k ≡ d.bytes = some_inj (sym sent' ∙ sent) in
      let kiss' = subst (IsKiss buf) same kiss in
      rw
        (
          serve_one-is_answer host s from r poll precision pr.nonce d.bytes small sent,
          kiss'.stratum_is,
        )
        (take_kiss-IsSlowed p d.bytes asym (kiss_text-rate_text d.bytes kiss'.refid_is))
