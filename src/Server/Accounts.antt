-- ===== src/Server/Accounts.antt =====
-- src/NtpServer.cpp: the counters add up.
use ubersdr_ntp.Prelude.{
  ℕ, length, Bool-cases, inl, inr, ◌+◌, ◌^◌, ◌≤◌, ◌<◌, ◌≡◌, refl, ◌∙◌, not, ◌&&◌, List, [], ◌∷◌,
  Option, arith, if_lem,
}
use ubersdr_ntp.Prelude.Double.{Double}
use ubersdr_ntp.Address.{SockAddr}
use ubersdr_ntp.Limiter.{RateLimiter, RateVerdict, answer, leak, kod, drop}
use ubersdr_ntp.Tally.{ClientTally}
use ubersdr_ntp.Server.{
  NtpServer, NtpCounts, NtpConfig, Field, bump_field, count_field, advance_to, new_server,
}
use ubersdr_ntp.Server.Serve.{
  Host, Reads, is_request, send, send_kod, send_time, count_answer, drop_request, act_on, admit,
  serve_one,
}

-- A packet received: from whom, its bytes, and what the handling of it reads.
pub record Received (D : Type 0) : Type 0 where
  pub from : SockAddr
  pub buf : List ℕ
  pub reads : Reads D

-- Every packet is answered, ignored or limited, or its answer could not be sent; at most one outcome of
-- it is counted, and the two finer counters count among the coarser.
pub record AddsUp (c : NtpCounts) : Type 0 where
  pub all_counted : c.requests ≤ c.answered + c.ignored + c.rate_limited + c.send_errors
  pub counted_once : c.answered + c.ignored + c.rate_limited ≤ c.requests
  pub sent_once : c.answered + c.kod_sent + c.send_errors ≤ c.requests
  pub kod_among : c.kod_sent ≤ c.rate_limited
  pub unsynchronised_among : c.unsynchronised ≤ c.answered

-- A packet more has been accounted for.
abbrev Accounted : NtpCounts → NtpCounts → Type 0
Accounted c c' = AddsUp c' × (c'.requests ≡ c.requests + 1)

abbrev bump_all : List Field → NtpCounts → NtpCounts
bump_all [] c = c
bump_all (x ∷ xs) c = bump_all xs (bump_field x c)

-- Each way that a packet can go.
module _ (c : NtpCounts) (h : AddsUp c) (room : c.requests + 1 < 2 ^ 64) where
  way_ignored : Accounted c (bump_all (Field.requests ∷ Field.ignored ∷ []) c)
  way_ignored = ground arith

  way_limited : Accounted c (bump_all (Field.requests ∷ Field.rate_limited ∷ []) c)
  way_limited = ground arith

  way_kissed : Accounted c (bump_all (Field.requests ∷ Field.rate_limited ∷ Field.kod_sent ∷ []) c)
  way_kissed = ground arith

  way_kiss_failed :
      Accounted c (bump_all (Field.requests ∷ Field.send_errors ∷ Field.rate_limited ∷ []) c)
  way_kiss_failed = ground arith

  way_answered : Accounted c (bump_all (Field.requests ∷ Field.answered ∷ []) c)
  way_answered = ground arith

  way_unsynchronised :
      Accounted c (bump_all (Field.requests ∷ Field.answered ∷ Field.unsynchronised ∷ []) c)
  way_unsynchronised = ground arith

  way_failed : Accounted c (bump_all (Field.requests ∷ Field.send_errors ∷ []) c)
  way_failed = ground arith

module _ {D : Type 0} ⦃f : Double D⦄ where
  -- The state after packets, one after another.
  abbrev pub serve_all : Host D → NtpServer D → List (Received D) → NtpServer D
  serve_all host s [] = s
  serve_all host s (x ∷ xs) = serve_all host (serve_one host s x.from x.buf x.reads).0 xs

  count_field-stats :
      (s : NtpServer D) (field : Field) (now : D)
      → (count_field s field now).stats ≡ bump_field field s.stats
  unfolding count_field advance_to
  count_field-stats s field now = ground arith

  admit-stats :
      (host : Host D) (s : NtpServer D) (from : SockAddr) (r : Reads D)
      → (admit host s from r).0.stats ≡ s.stats
  unfolding admit
  admit-stats host s from r = refl

  module _ (c : NtpCounts) (h : AddsUp c) (room : c.requests + 1 < 2 ^ 64) where
    -- The counters after a packet's handling, from those that count it as a request.
    send_kod-Accounted :
        (host : Host D) (s : NtpServer D) (buf : List ℕ) (r : Reads D)
        → s.stats ≡ bump_field Field.requests c
        → Accounted c (send_kod host s buf r).0.stats
    unfolding send_kod send
    send_kod-Accounted host s buf r e = elim (Bool-cases r.sent) [
      | inl sent ↦ rw (sent, count_field-stats, count_field-stats, e) (way_kissed c h room)
      | inr failed ↦ rw (failed, count_field-stats, count_field-stats, e) (way_kiss_failed c h room)
    ]

    count_answer-Accounted :
        (s : NtpServer D) (r : Reads D)
        → s.stats ≡ bump_field Field.requests c
        → Accounted c (count_answer (send s r) r).stats
    unfolding count_answer send
    count_answer-Accounted s r e = elim (Bool-cases r.sent) [
      | inl sent ↦ elim (Bool-cases r.current.synchronised) [
        | inl synchronised ↦ rw (sent, synchronised, count_field-stats, e) (way_answered c h room)
        | inr not_synchronised ↦
            rw (sent, not_synchronised, count_field-stats, count_field-stats, e)
              (way_unsynchronised c h room)
      ]
      | inr failed ↦ rw (failed, count_field-stats, e) (way_failed c h room)
    ]

    send_time-Accounted :
        (host : Host D) (s : NtpServer D) (buf : List ℕ) (r : Reads D)
        → s.stats ≡ bump_field Field.requests c
        → Accounted c (send_time host s buf r).0.stats
    unfolding send_time
    send_time-Accounted host s buf r e =
        if_lem (λ (x : NtpServer D × Option (List ℕ)). Accounted c x.0.stats)
          (not r.current.synchronised && not s.cfg.answer_when_unsynchronised) _ _
          (λ _. rw (count_field-stats, e) (way_ignored c h room))
          (λ _. count_answer-Accounted s r e)

    act_on-Accounted :
        (host : Host D) (s : NtpServer D) (v : RateVerdict) (buf : List ℕ) (r : Reads D)
        → s.stats ≡ bump_field Field.requests c
        → Accounted c (act_on host s v buf r).0.stats
    unfolding act_on drop_request
    act_on-Accounted host s answer buf r e = send_time-Accounted host s buf r e
    act_on-Accounted host s leak buf r e = send_time-Accounted host s buf r e
    act_on-Accounted host s kod buf r e = send_kod-Accounted host s buf r e
    act_on-Accounted host s drop buf r e = rw (count_field-stats, e) (way_limited c h room)

  serve_one-Accounted :
      (host : Host D) (s : NtpServer D) (x : Received D)
      → AddsUp s.stats
      → s.stats.requests + 1 < 2 ^ 64
      → Accounted s.stats (serve_one host s x.from x.buf x.reads).0.stats
  unfolding serve_one
  serve_one-Accounted host s x h room =
      let e = count_field-stats s Field.requests x.reads.at_request in
      if_lem (λ (y : NtpServer D × Option (List ℕ)). Accounted s.stats y.0.stats) (is_request x.buf)
        _ _
        (λ _.
          act_on-Accounted s.stats h room host _ _ x.buf x.reads
            (admit-stats host _ x.from x.reads ∙ e))
        (λ _. rw (count_field-stats, e) (way_ignored s.stats h room))

  -- Over any packets that a new service receives, fewer than 2^64, its counters add up: `requests` is
  -- their number; each is answered, ignored or limited, or could not be answered for an error in
  -- sending; at most one outcome of each is counted; a kiss-o'-death is among the limited, and an
  -- unsynchronised answer among the answered.
  pub serve_all-AddsUp :
      (host : Host D) (cfg : NtpConfig) (limiter : RateLimiter D) (tally : ClientTally D)
      (xs : List (Received D))
      → length xs < 2 ^ 64
      → let s : NtpServer D = serve_all host (new_server cfg limiter tally) xs in
        (s.stats.requests ≡ length xs) × AddsUp s.stats
  unfolding new_server
  serve_all-AddsUp host cfg limiter tally xs short =
      let all =
        from_state xs (new_server cfg limiter tally)
          (record {
            all_counted = omega arith;
            counted_once = omega arith;
            sent_once = omega arith;
            kod_among = omega arith;
            unsynchronised_among = omega arith;
          })
          (omega (arith, short)) in
      (omega (arith, all.0), all.1)
    where
      from_state :
          (xs : List (Received D)) (s : NtpServer D)
          → AddsUp s.stats
          → s.stats.requests + length xs < 2 ^ 64
          → ((serve_all host s xs).stats.requests ≡ s.stats.requests + length xs)
            × AddsUp (serve_all host s xs).stats
      from_state [] s h room = (omega arith, h)
      from_state (x ∷ xs) s h room =
          let one = serve_one-Accounted host s x h (omega arith) in
          let rest =
            from_state xs (serve_one host s x.from x.buf x.reads).0 one.0 (omega (arith, one.1)) in
          (omega (arith, rest.0, one.1), rest.1)
