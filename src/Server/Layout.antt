-- ===== src/Server/Layout.antt =====
-- src/NtpServer.cpp: where the fields of a packet are.
use ubersdr_ntp.Prelude.{
  ℕ, zero, suc, ◌+◌, ◌*◌, ◌/◌, ◌≤◌, ◌<◌, not, ◌≡◌, refl, ap, ◌∙◌, List, [], ◌∷◌, ◌++◌, take, drop,
  length, replicate, length-append, length-drop, length-take, arith, if_lem, get_or,
}
use ubersdr_ntp.Prelude.Double.{Double}
use ubersdr_ntp.Selector.Combined.{Combined, utc_at}
use ubersdr_ntp.Server.{NtpConfig}
use ubersdr_ntp.Server.Packet.{
  put32, version_of, mode_of, client_transmit, rate_text, kod_packet, reply_packet, refid_bytes,
  reference_bytes, to_short_format, to_ntp_time, leap_of, stratum_byte, poll_byte, put_time, concat,
}

abbrev pub leap_field : List ℕ → ℕ
leap_field p = get_or p 0 0 / 64

abbrev pub version_field : List ℕ → ℕ
version_field p = version_of (get_or p 0 0)

abbrev pub mode_field : List ℕ → ℕ
mode_field p = mode_of (get_or p 0 0)

abbrev pub stratum_field : List ℕ → ℕ
stratum_field p = get_or p 1 0

abbrev pub refid_field : List ℕ → List ℕ
refid_field p = take 4 (drop 12 p)

-- The root delay and the root dispersion.
abbrev pub root_fields : List ℕ → List ℕ
root_fields p = take 8 (drop 4 p)

abbrev pub reference_field : List ℕ → List ℕ
reference_field p = take 8 (drop 16 p)

abbrev pub originate_field : List ℕ → List ℕ
originate_field p = take 8 (drop 24 p)

abbrev pub receive_field : List ℕ → List ℕ
receive_field p = take 8 (drop 32 p)

abbrev pub transmit_field : List ℕ → List ℕ
transmit_field p = take 8 (drop 40 p)

module _ {A : Type 0} where
  drop-append : (k m : ℕ) (xs ys : List A) → k ≡ length xs + m → drop k (xs ++ ys) ≡ drop m ys
  drop-append k m [] ys h = ap (λ i. drop i ys) (omega (arith, h))
  drop-append zero m (x ∷ xs) ys h = absurd (omega (arith, h))
  drop-append (suc k) m (x ∷ xs) ys h = drop-append k m xs ys (omega (arith, h))

  take-append : (n : ℕ) (xs ys : List A) → length xs ≡ n → take n (xs ++ ys) ≡ xs
  take-append zero [] ys h = refl
  take-append zero (x ∷ xs) ys h = absurd (omega (arith, h))
  take-append (suc n) [] ys h = absurd (omega (arith, h))
  take-append (suc n) (x ∷ xs) ys h = ap (λ zs. x ∷ zs) (take-append n xs ys (omega (arith, h)))

-- Eight parts of 4, 4, 4, 4, 8, 8, 8 and 8 bytes make 48, and stand where the fields say.
module _ (a b c d e f g h : List ℕ)
    (l : (length a ≡ 4) × (length b ≡ 4) × (length c ≡ 4) × (length d ≡ 4))
    (m : (length e ≡ 8) × (length f ≡ 8) × (length g ≡ 8) × (length h ≡ 8)) where
  abbrev whole : List ℕ
  whole = concat (a ∷ b ∷ c ∷ d ∷ e ∷ f ∷ g ∷ h ∷ [])

  part_after : (k : ℕ) → drop (12 + k) whole ≡ drop k (concat (d ∷ e ∷ f ∷ g ∷ h ∷ []))
  part_after k =
      drop-append (12 + k) (8 + k) a (concat (b ∷ c ∷ d ∷ e ∷ f ∷ g ∷ h ∷ [])) (omega (arith, l.0))
      ∙ drop-append (8 + k) (4 + k) b (concat (c ∷ d ∷ e ∷ f ∷ g ∷ h ∷ [])) (omega (arith, l.1))
      ∙ drop-append (4 + k) k c (concat (d ∷ e ∷ f ∷ g ∷ h ∷ [])) (omega (arith, l.2))

  times_after : (k : ℕ) → drop (24 + k) whole ≡ drop k (concat (f ∷ g ∷ h ∷ []))
  times_after k =
      ap (λ i. drop i whole) (omega arith)
      ∙ part_after (12 + k)
      ∙ drop-append (12 + k) (8 + k) d (concat (e ∷ f ∷ g ∷ h ∷ [])) (omega (arith, l.3))
      ∙ drop-append (8 + k) k e (concat (f ∷ g ∷ h ∷ [])) (omega (arith, m.0))

  parts :
      (length whole ≡ 48)
      × (refid_field whole ≡ d)
      × (originate_field whole ≡ f)
      × (receive_field whole ≡ g)
      × (transmit_field whole ≡ h)
  parts = (
    rw
        (
          length-append, length-append, length-append, length-append, length-append, length-append,
          length-append, length-append,
        )
        (omega (arith, l, m)),
    ap (take 4) (part_after 0) ∙ take-append 4 d (concat (e ∷ f ∷ g ∷ h ∷ [])) l.3,
    ap (take 8) (times_after 0) ∙ take-append 8 f (concat (g ∷ h ∷ [])) m.1,
    ap (take 8) (times_after 8 ∙ drop-append 8 0 f (concat (g ∷ h ∷ [])) (omega (arith, m.1)))
        ∙ take-append 8 g (concat (h ∷ [])) m.2,
    ap (take 8) (
          times_after 16
          ∙ drop-append 16 8 f (concat (g ∷ h ∷ [])) (omega (arith, m.1))
          ∙ drop-append 8 0 g (concat (h ∷ [])) (omega (arith, m.2)))
        ∙ take-append 8 h [] m.3,
  )

length-put32 : (v : ℕ) → length (put32 v) ≡ 4
unfolding put32
length-put32 v = refl

length-client_transmit : (buf : List ℕ) → 48 ≤ length buf → length (client_transmit buf) ≡ 8
length-client_transmit buf long =
    length-take 8 (drop 40 buf) (omega (arith, length-drop 40 buf, long))

first_byte :
    (leap version : ℕ)
    → version < 8
    → let b : ℕ = leap * 64 + version * 8 + 4 in
      (b / 64 ≡ leap) × (version_of b ≡ version) × (mode_of b ≡ 4)
first_byte leap version h = (omega arith, omega arith, omega arith)

-- A packet that answers a request: as long as the shortest request, in mode 4 with the version of the
-- request, and with its transmit time as the originate time.
pub record IsReply (buf p : List ℕ) : Type 0 where
  pub length_is : length p ≡ 48
  pub mode_is : mode_field p ≡ 4
  pub version_is : version_field p ≡ version_field buf
  pub originate_is : originate_field p ≡ client_transmit buf

-- A kiss-o'-death: the code RATE at stratum 0, with no time but the client's own in all but the reference
-- time, which is zero as the root delay and dispersion are.
pub record IsKiss (buf p : List ℕ) : Type 0 where
  pub leap_is : leap_field p ≡ 3
  pub stratum_is : stratum_field p ≡ 0
  pub root_is : root_fields p ≡ replicate 8 0
  pub refid_is : refid_field p ≡ rate_text
  pub reference_is : reference_field p ≡ replicate 8 0
  pub originate_is : originate_field p ≡ client_transmit buf
  pub receive_is : receive_field p ≡ client_transmit buf
  pub transmit_is : transmit_field p ≡ client_transmit buf

pub kod_packet_lem :
    (precision : ℕ) (buf : List ℕ)
    → 48 ≤ length buf
    → IsReply buf (kod_packet precision buf) × IsKiss buf (kod_packet precision buf)
unfolding kod_packet
kod_packet_lem precision buf long =
    let n = length-client_transmit buf long in
    let b = first_byte 3 (version_of (get_or buf 0 0)) (omega arith) in
    let p =
      parts ((3 * 64 + version_of (get_or buf 0 0) * 8 + 4) ∷ 0 ∷ poll_byte buf ∷ precision ∷ [])
        (replicate 4 0) (replicate 4 0) _ (replicate 8 0) _ _ _ (refl, refl, refl, refl)
        (refl, n, n, n) in
    (
      record { length_is = p.0; mode_is = b.2; version_is = b.1; originate_is = p.2 },
      record {
        leap_is = b.0;
        stratum_is = refl;
        root_is = refl;
        refid_is = p.1;
        reference_is = refl;
        originate_is = p.2;
        receive_is = p.3;
        transmit_is = p.4;
      },
    )

module _ {D : Type 0} ⦃f : Double D⦄ where
  length-refid_bytes : (c : Combined D) → length (refid_bytes c) ≡ 4
  unfolding refid_bytes put32
  length-refid_bytes c =
      if_lem (λ (xs : List ℕ). length xs ≡ 4) (not c.valid) _ _ (λ _. refl)
        (λ _.
          if_lem (λ (xs : List ℕ). length xs ≡ 4) c.refid_is_address _ _ (λ _. refl)
            (λ _. length-take 4 _ (rw length-append (omega arith))))

  length-reference_bytes :
      (c : Combined D) (corrected : D) → length (reference_bytes c corrected) ≡ 8
  unfolding reference_bytes put32
  length-reference_bytes c corrected =
      if_lem (λ (xs : List ℕ). length xs ≡ 8) c.valid _ _ (λ _. refl) (λ _. refl)

  pub reply_packet_lem :
      (cfg : NtpConfig) (precision : ℕ) (c : Combined D) (buf : List ℕ) (recv sent : D)
      → 48 ≤ length buf
      → let p : List ℕ = reply_packet cfg precision c buf recv sent in
        IsReply buf p × (leap_field p ≡ leap_of cfg c recv) × (stratum_field p ≡ stratum_byte c)
  unfolding reply_packet put32
  reply_packet_lem cfg precision c buf recv sent long =
      let n = length-client_transmit buf long in
      let b = first_byte (leap_of cfg c recv) (version_of (get_or buf 0 0)) (omega arith) in
      let p =
        parts
          ((leap_of cfg c recv * 64 + version_of (get_or buf 0 0) * 8 + 4)
            ∷ stratum_byte c
            ∷ poll_byte buf
            ∷ precision
            ∷ [])
          (put32 (to_short_format c.root_delay_sec)) (put32 (to_short_format c.root_dispersion_sec))
          _ _ _ (put_time (to_ntp_time (utc_at c recv))) (put_time (to_ntp_time (utc_at c sent)))
          (refl, refl, refl, length-refid_bytes c)
          (length-reference_bytes c (utc_at c recv), n, refl, refl) in
      (record { length_is = p.0; mode_is = b.2; version_is = b.1; originate_is = p.2 }, b.0, refl)
