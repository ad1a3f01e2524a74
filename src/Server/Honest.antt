-- ===== src/Server/Honest.antt =====
-- src/NtpServer.cpp: what is sent, to whom, and what a reply claims of the time.
use ubersdr_ntp.Prelude.{
  ℕ, ◌≤◌, ◌≡◌, ◌⊎◌, inl, inr, refl, ap, sym, subst, ◌∙◌, true, false, not, ◌&&◌, List, Option, none,
  some, length, arith, if_lem, Bool-cases, false-true,
}
use ubersdr_ntp.Prelude.Int.{pos, ◌≤ℤ◌}
use ubersdr_ntp.Prelude.Double.{Double, mul, lit}
use ubersdr_ntp.Address.{SockAddr}
use ubersdr_ntp.Instants.{is_last_day_of_month}
use ubersdr_ntp.Limiter.{RateVerdict, answer, leak, kod, drop}
use ubersdr_ntp.Selector.Combined.{Combined, utc_at}
use ubersdr_ntp.Server.{NtpServer, NtpConfig, Field, count_field, advance_to, truncate}
use ubersdr_ntp.Server.Packet.{clock_precision, kod_packet, reply_packet, leap_of, stratum_byte}
use ubersdr_ntp.Server.Layout.{
  leap_field, stratum_field, version_field, mode_field, IsReply, IsKiss, kod_packet_lem,
  reply_packet_lem,
}
use ubersdr_ntp.Server.Serve.{
  Host, Reads, is_request, received_at, send_kod, send_time, drop_request, act_on, admit, serve_one,
  is_limited,
}

-- A packet that the service answers: long enough, in client mode, of a version from 1 to 4.
pub record IsClient (buf : List ℕ) : Type 0 where
  pub long : 48 ≤ length buf
  pub mode_is : mode_field buf ≡ 3
  pub version_in : (1 ≤ version_field buf) × (version_field buf ≤ 4)

is_request-IsClient : (buf : List ℕ) → is_request buf ≡ true → IsClient buf
unfolding is_request
is_request-IsClient buf h = ground arith

none-some : {A : Type 0} (a : A) → none ≡ some a → ⊥
none-some a h = cc

abbrev Replies : List ℕ → Option (List ℕ) → Type 0
Replies buf none = Unit
Replies buf (some p) = IsReply buf p

module _ {D : Type 0} ⦃f : Double D⦄ where
  -- What a reply claims: nothing while the service is unsynchronised; else the stratum of the time, and
  -- a leap second only on the last day of a month, of a time that warns of one, where that is honoured.
  pub record Unsynchronised (c : Combined D) (p : List ℕ) : Type 0 where
    pub synchronised_is : c.synchronised ≡ false
    pub leap_is : leap_field p ≡ 3
    pub stratum_is : stratum_field p ≡ 0

  pub record Synchronised (cfg : NtpConfig) (c : Combined D) (recv : D) (p : List ℕ) : Type 0 where
    pub synchronised_is : c.synchronised ≡ true
    pub stratum_is : c.stratum ≡ pos (stratum_field p)
    pub leap_is :
        (leap_field p ≡ 0)
        ⊎ ((leap_field p ≡ 1)
            × (c.leap_pending ≡ true)
            × (cfg.honour_leap_warning ≡ true)
            × (is_last_day_of_month (truncate (mul (utc_at c recv) (lit 1000 0))) ≡ true))

  leap_of-synchronised :
      (cfg : NtpConfig) (c : Combined D) (recv : D)
      → c.synchronised ≡ true
      → (leap_of cfg c recv ≡ 0)
        ⊎ ((leap_of cfg c recv ≡ 1)
            × (c.leap_pending ≡ true)
            × (cfg.honour_leap_warning ≡ true)
            × (is_last_day_of_month (truncate (mul (utc_at c recv) (lit 1000 0))) ≡ true))
  unfolding leap_of
  leap_of-synchronised cfg c recv h = ground arith

  leap_of-unsynchronised :
      (cfg : NtpConfig) (c : Combined D) (recv : D)
      → c.synchronised ≡ false
      → (leap_of cfg c recv ≡ 3) × (stratum_byte c ≡ 0)
  unfolding leap_of stratum_byte
  leap_of-unsynchronised cfg c recv h = ground arith

  stratum_byte-synchronised :
      (c : Combined D)
      → c.synchronised ≡ true
      → (pos 1 ≤ℤ c.stratum) × (c.stratum ≤ℤ pos 15)
      → c.stratum ≡ pos (stratum_byte c)
  unfolding stratum_byte
  stratum_byte-synchronised c h bounds = ground arith

  reply_packet-honest :
      (cfg : NtpConfig) (precision : ℕ) (c : Combined D) (buf : List ℕ) (recv sent : D)
      → IsClient buf
      → (c.synchronised ≡ false) ⊎ ((pos 1 ≤ℤ c.stratum) × (c.stratum ≤ℤ pos 15))
      → let p : List ℕ = reply_packet cfg precision c buf recv sent in
        Unsynchronised c p ⊎ Synchronised cfg c recv p
  reply_packet-honest cfg precision c buf recv sent client bounds =
      let fields = reply_packet_lem cfg precision c buf recv sent client.long in
      elim (Bool-cases c.synchronised) [
        | inl yes_synchronised ↦ inr record {
          synchronised_is = yes_synchronised;
          stratum_is =
              stratum_byte-synchronised c yes_synchronised (in_bounds c yes_synchronised bounds)
              ∙ ap pos (sym fields.2);
          leap_is =
              subst
                (λ leap.
                  (leap ≡ 0)
                  ⊎ ((leap ≡ 1)
                      × (c.leap_pending ≡ true)
                      × (cfg.honour_leap_warning ≡ true)
                      × (is_last_day_of_month (truncate (mul (utc_at c recv) (lit 1000 0)))
                          ≡ true)))
                (sym fields.1) (leap_of-synchronised cfg c recv yes_synchronised);
        }
        | inr not_synchronised ↦
            let u = leap_of-unsynchronised cfg c recv not_synchronised in
            inl record {
              synchronised_is = not_synchronised;
              leap_is = fields.1 ∙ u.0;
              stratum_is = fields.2 ∙ u.1;
            }
      ]
    where
      in_bounds :
          (c : Combined D)
          → c.synchronised ≡ true
          → (c.synchronised ≡ false) ⊎ ((pos 1 ≤ℤ c.stratum) × (c.stratum ≤ℤ pos 15))
          → (pos 1 ≤ℤ c.stratum) × (c.stratum ≤ℤ pos 15)
      in_bounds c h (inl n) = false-true (sym n ∙ h)
      in_bounds c h (inr b) = b

  send_time-Replies :
      (host : Host D) (s : NtpServer D) (buf : List ℕ) (r : Reads D)
      → IsClient buf
      → Replies buf (send_time host s buf r).1
  unfolding send_time
  send_time-Replies host s buf r client =
      if_lem (λ (x : NtpServer D × Option (List ℕ)). Replies buf x.1)
        (not r.current.synchronised && not s.cfg.answer_when_unsynchronised) _ _ (λ _. tt)
        (λ _.
          (reply_packet_lem s.cfg (clock_precision host.log2 host.resolution) r.current buf _
            r.daemon_sent client.long).0)

  act_on-Replies :
      (host : Host D) (s : NtpServer D) (v : RateVerdict) (buf : List ℕ) (r : Reads D)
      → IsClient buf
      → Replies buf (act_on host s v buf r).1
  unfolding act_on drop_request send_kod
  act_on-Replies host s answer buf r client = send_time-Replies host s buf r client
  act_on-Replies host s leak buf r client = send_time-Replies host s buf r client
  act_on-Replies host s kod buf r client =
      (kod_packet_lem (clock_precision host.log2 host.resolution) buf client.long).0
  act_on-Replies host s drop buf r client = tt

  serve_one_request :
      (host : Host D) (s : NtpServer D) (from : SockAddr) (buf : List ℕ) (r : Reads D)
      → is_request buf ≡ true
      → let admitted = admit host (count_field s Field.requests r.at_request) from r in
        serve_one host s from buf r ≡ act_on host admitted.0 admitted.1 buf r
  unfolding serve_one
  serve_one_request host s from buf r request = rw request refl

  serve_one_other :
      (host : Host D) (s : NtpServer D) (from : SockAddr) (buf : List ℕ) (r : Reads D)
      → is_request buf ≡ false
      → (serve_one host s from buf r).1 ≡ none
  unfolding serve_one
  serve_one_other host s from buf r other = rw other refl

  cfg_kept :
      (host : Host D) (s : NtpServer D) (from : SockAddr) (r : Reads D)
      → (admit host (count_field s Field.requests r.at_request) from r).0.cfg ≡ s.cfg
  unfolding admit count_field advance_to
  cfg_kept host s from r = ground arith

  act_on_kod :
      (host : Host D) (s : NtpServer D) (v : RateVerdict) (buf : List ℕ) (r : Reads D)
      → v ≡ kod
      → (act_on host s v buf r).1
        ≡ some (kod_packet (clock_precision host.log2 host.resolution) buf)
  unfolding act_on send_kod
  act_on_kod host s v buf r h = rw h refl

  -- Whatever the state, what is sent answers a client: the request has at least 48 bytes, is in client
  -- mode and of a version from 1 to 4; and the packet has 48 bytes, is in server mode, with the request's
  -- version, and its originate time is the request's transmit time, byte for byte.
  pub serve_one-IsReply :
      (host : Host D) (s : NtpServer D) (from : SockAddr) (buf : List ℕ) (r : Reads D) (p : List ℕ)
      → (serve_one host s from buf r).1 ≡ some p
      → IsClient buf × IsReply buf p
  serve_one-IsReply host s from buf r p sent = elim (Bool-cases (is_request buf)) [
    | inl request ↦
        let client = is_request-IsClient buf request in
        (
          client,
          subst (Replies buf)
              (sym (ap (λ x. x.1) (serve_one_request host s from buf r request)) ∙ sent)
              (act_on-Replies host _ _ buf r client),
        )
    | inr other ↦ absurd (none-some p (sym (serve_one_other host s from buf r other) ∙ sent))
  ]

  -- A client that the limiter gives a kiss-o'-death is sent one, and it tells no time: leap 3, stratum 0,
  -- the code RATE, zero for the root delay, the root dispersion and the reference time, and the client's
  -- own transmit time for the originate, the receive and the transmit time.
  pub serve_one-IsKiss :
      (host : Host D) (s : NtpServer D) (from : SockAddr) (buf : List ℕ) (r : Reads D)
      → is_request buf ≡ true
      → (admit host (count_field s Field.requests r.at_request) from r).1 ≡ kod
      → (p : List ℕ) × ((serve_one host s from buf r).1 ≡ some p) × IsKiss buf p
  serve_one-IsKiss host s from buf r request verdict =
      let client = is_request-IsClient buf request in
      (
        kod_packet (clock_precision host.log2 host.resolution) buf,
        ap (λ x. x.1) (serve_one_request host s from buf r request)
            ∙ act_on_kod host _ _ buf r verdict,
        (kod_packet_lem (clock_precision host.log2 host.resolution) buf client.long).1,
      )

  -- What becomes of a request within the limit: no answer, unsynchronised and configured to be silent
  -- then, or one that is honest.
  abbrev pub Outcome : NtpConfig → Reads D → Option (List ℕ) → Type 0
  Outcome cfg r out =
      ((out ≡ none) × (r.current.synchronised ≡ false) × (cfg.answer_when_unsynchronised ≡ false))
      ⊎ ((p : List ℕ) × (out ≡ some p)
          × (Unsynchronised r.current p
              ⊎ Synchronised cfg r.current (received_at r.daemon_now r.stamps) p))

  send_time-honest :
      (host : Host D) (s : NtpServer D) (buf : List ℕ) (r : Reads D)
      → IsClient buf
      → (r.current.synchronised ≡ false)
        ⊎ ((pos 1 ≤ℤ r.current.stratum) × (r.current.stratum ≤ℤ pos 15))
      → Outcome s.cfg r (send_time host s buf r).1
  unfolding send_time
  send_time-honest host s buf r client bounds =
      if_lem (λ (x : NtpServer D × Option (List ℕ)). Outcome s.cfg r x.1)
        (not r.current.synchronised && not s.cfg.answer_when_unsynchronised) _ _
        (λ e. inl (refl, ground arith, ground arith))
        (λ _. inr (
          _,
          refl,
          reply_packet-honest s.cfg (clock_precision host.log2 host.resolution) r.current buf _
              r.daemon_sent client bounds,
        ))

  act_on-honest :
      (host : Host D) (s : NtpServer D) (v : RateVerdict) (buf : List ℕ) (r : Reads D)
      → IsClient buf
      → is_limited v ≡ false
      → (r.current.synchronised ≡ false)
        ⊎ ((pos 1 ≤ℤ r.current.stratum) × (r.current.stratum ≤ℤ pos 15))
      → Outcome s.cfg r (act_on host s v buf r).1
  unfolding act_on is_limited
  act_on-honest host s answer buf r client within bounds =
      send_time-honest host s buf r client bounds
  act_on-honest host s leak buf r client within bounds = send_time-honest host s buf r client bounds
  act_on-honest host s kod buf r client within bounds = false-true (sym within)
  act_on-honest host s drop buf r client within bounds = false-true (sym within)

  -- The same of a request within the limit, in any state of the service and the selector's time.
  pub serve_one-honest :
      (host : Host D) (s : NtpServer D) (from : SockAddr) (buf : List ℕ) (r : Reads D)
      → is_request buf ≡ true
      → is_limited (admit host (count_field s Field.requests r.at_request) from r).1 ≡ false
      → (r.current.synchronised ≡ false)
        ⊎ ((pos 1 ≤ℤ r.current.stratum) × (r.current.stratum ≤ℤ pos 15))
      → Outcome s.cfg r (serve_one host s from buf r).1
  serve_one-honest host s from buf r request within bounds =
      subst (λ cfg. Outcome cfg r (serve_one host s from buf r).1) (cfg_kept host s from r)
        (subst (Outcome _ r) (sym (ap (λ x. x.1) (serve_one_request host s from buf r request)))
          (act_on-honest host _ _ buf r (is_request-IsClient buf request) within bounds))
