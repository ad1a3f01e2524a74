-- ===== src/Nmea/Verified.antt =====
-- src/Pps.cpp: what a receiver of a sentence makes of it.
use ubersdr_ntp.Prelude.{
  ℕ, zero, suc, ◌+◌, ◌*◌, ◌-◌, ◌/◌, ◌%◌, ◌^◌, ◌<◌, ◌==◌, ◌≡◌, ◌≢◌, Bool, true, false, ◌&&◌, List,
  [], ◌∷◌, ◌++◌, Option, none, some, ltb, if◌then◌else◌, All, All-append, arith,
}
use ubersdr_ntp.Prelude.Int.{ℤ, pos_part}
use ubersdr_ntp.Prelude.Double.{Double, lt, lit}
use ubersdr_ntp.Prelude.Dict.{Key}
use ubersdr_ntp.Labeler.{PpsLabel}
use ubersdr_ntp.Server.Packet.{concat}
use ubersdr_ntp.Peer.Wire.{xor}
use ubersdr_ntp.Nmea.{
  PpsPosition, CivilTime, hex_digit, two, four, position_fields, rmc_fields, zda_fields, xor_of,
  nmea_checksum, nmea_sentence, civil_of, hhmmss, zda_body, nmea_zda, rmc_time, rmc_date,
  nmea_angle, rmc_position, rmc_body, nmea_rmc,
}

-- A receiver, written on its own: from `$` on it reads the body and its exclusive or up to `*`, and then
-- two hex digits and the end of the line; a body is what it gets where the digits are right.
abbrev hex_value : ℕ → ℕ
hex_value c = if ltb c 65 then c - 48 else c - 55

abbrev check_end : ℕ → Key → Bool
check_end x (a ∷ b ∷ c ∷ d ∷ []) = (hex_value a * 16 + hex_value b == x) && (c == 13) && (d == 10)
check_end x _ = false

unfoldable pub read_body : ℕ → Key → Option Key
read_body x [] = none
read_body x (ch ∷ rest) =
    let more = read_body (xor 8 x ch) rest in
    if ch == 42
    then if check_end x rest then some [] else none
    else elim more [ none ↦ none | some body ↦ some (ch ∷ body) ]

unfoldable pub read_sentence : Key → Option Key
read_sentence [] = none
read_sentence (ch ∷ rest) = if ch == 36 then read_body 0 rest else none

xor-lt : (bits a b : ℕ) → xor bits a b < 2 ^ bits
unfolding xor
xor-lt zero a b = omega arith
xor-lt (suc bits) a b = ground (arith, xor-lt bits (a / 2) (b / 2))

xor_of-lt : (x : ℕ) (body : Key) → x < 256 → xor_of x body < 256
unfolding xor_of
xor_of-lt x [] h = h
xor_of-lt x (ch ∷ body) h = xor_of-lt (xor 8 x ch) body (xor-lt 8 x ch)

hex_value-hex_digit : (n : ℕ) → n < 16 → hex_value (hex_digit n) ≡ n
hex_value-hex_digit n h = ground arith

abbrev NoStar : ℕ → Type 0
NoStar c = c ≢ 42

abbrev line_end : ℕ → Key
line_end x = hex_digit (x / 16) ∷ hex_digit (x % 16) ∷ 13 ∷ 10 ∷ []

check_end-line_end : (x : ℕ) → x < 256 → check_end x (line_end x) ≡ true
check_end-line_end x h = ground (
  arith,
  hex_value-hex_digit (x / 16) (omega (arith, h)),
  hex_value-hex_digit (x % 16) (omega arith),
)

read_body-append :
    (x : ℕ) (body : Key)
    → x < 256
    → All NoStar body
    → read_body x (body ++ (42 ∷ line_end (xor_of x body))) ≡ some body
unfolding read_body xor_of
read_body-append x [] h k = grind (arith, check_end-line_end x h)
read_body-append x (ch ∷ body) h k =
    let ih = read_body-append (xor 8 x ch) body (xor-lt 8 x ch) k.1 in ground (arith, ih, k.0)

read_sentence-nmea_sentence :
    (body : Key) → All NoStar body → read_sentence (nmea_sentence body) ≡ some body
unfolding read_sentence nmea_sentence nmea_checksum
read_sentence-nmea_sentence body h = read_body-append 0 body (omega arith) h

append_clean : (xs ys : Key) → All NoStar xs → All NoStar ys → All NoStar (xs ++ ys)
append_clean xs ys h k = All-append NoStar xs ys h k

two_clean : (v : ℕ) → All NoStar (two v)
two_clean v = (omega arith, (omega arith, tt))

four_clean : (v : ℕ) → All NoStar (four v)
four_clean v = append_clean (two (v / 100)) (two v) (two_clean (v / 100)) (two_clean v)

hhmmss_clean : (c : CivilTime) → All NoStar (hhmmss c)
unfolding hhmmss
hhmmss_clean c = (
  omega arith,
  (
    omega arith,
    (
      omega arith,
      (omega arith, (omega arith, (omega arith, (omega arith, (omega arith, (omega arith, tt)))))),
    ),
  ),
)

if_clean :
    (b : Bool) (xs ys : Key) → All NoStar xs → All NoStar ys → All NoStar (if b then xs else ys)
if_clean true xs ys h k = h
if_clean false xs ys h k = k

concat_clean : (xss : List Key) → All (All NoStar) xss → All NoStar (concat xss)
concat_clean [] h = tt
concat_clean (xs ∷ xss) h = All-append NoStar xs (concat xss) h.0 (concat_clean xss h.1)

either_clean : (b : Bool) (m n : ℕ) → NoStar m → NoStar n → NoStar (if b then m else n)
either_clean true m n h k = h
either_clean false m n h k = k

rmc_time_clean : (t : Option PpsLabel) → All NoStar (rmc_time t)
unfolding rmc_time
rmc_time_clean none = tt
rmc_time_clean (some t) = hhmmss_clean (civil_of t)

rmc_date_clean : (t : Option PpsLabel) → All NoStar (rmc_date t)
unfolding rmc_date
rmc_date_clean none = tt
rmc_date_clean (some t) =
    (omega arith, (omega arith, (omega arith, (omega arith, (omega arith, (omega arith, tt))))))

zda_body_clean : (t : PpsLabel) → All NoStar (zda_body t)
unfolding zda_body
zda_body_clean t =
    let c = civil_of t in
    concat_clean (zda_fields t) (
      (omega arith, (omega arith, (omega arith, (omega arith, (omega arith, (omega arith, tt)))))),
      (
        hhmmss_clean c,
        (
          (omega arith, tt),
          (
            two_clean c.date.day,
            (
              (omega arith, tt),
              (
                two_clean c.date.month,
                (
                  (omega arith, tt),
                  (
                    four_clean (pos_part c.date.year),
                    (
                      (
                        omega arith,
                        (
                          omega arith,
                          (omega arith, (omega arith, (omega arith, (omega arith, tt)))),
                        ),
                      ),
                      tt,
                    ),
                  ),
                ),
              ),
            ),
          ),
        ),
      ),
    )

-- A receiver that computes the checksum itself gets the body of the ZDA sentence of any label.
read_sentence-nmea_zda : (t : PpsLabel) → read_sentence (nmea_zda t) ≡ some (zda_body t)
unfolding nmea_zda
read_sentence-nmea_zda t = read_sentence-nmea_sentence (zda_body t) (zda_body_clean t)

module _ {D : Type 0} ⦃f : Double D⦄ (llround : D → ℤ) where
  nmea_angle_clean : (deg : D) (wide : Bool) → All NoStar (nmea_angle llround deg wide)
  unfolding nmea_angle
  nmea_angle_clean deg true = (
    omega arith,
    (
      omega arith,
      (
        omega arith,
        (
          omega arith,
          (
            omega arith,
            (omega arith, (omega arith, (omega arith, (omega arith, (omega arith, tt))))),
          ),
        ),
      ),
    ),
  )
  nmea_angle_clean deg false = (
    omega arith,
    (
      omega arith,
      (
        omega arith,
        (
          omega arith,
          (omega arith, (omega arith, (omega arith, (omega arith, (omega arith, tt))))),
        ),
      ),
    ),
  )

  rmc_position_clean : (p : PpsPosition D) → All NoStar (rmc_position llround p)
  unfolding rmc_position
  rmc_position_clean p =
      if_clean p.valid (concat (position_fields llround p)) (44 ∷ 44 ∷ 44 ∷ [])
        (concat_clean (position_fields llround p) (
          nmea_angle_clean p.lat false,
          (
            (
              omega arith,
              (
                either_clean (lt p.lat (lit 0 0)) 83 78 (omega arith) (omega arith),
                (omega arith, tt),
              ),
            ),
            (
              nmea_angle_clean p.lon true,
              (
                (
                  omega arith,
                  (either_clean (lt p.lon (lit 0 0)) 87 69 (omega arith) (omega arith), tt),
                ),
                tt,
              ),
            ),
          ),
        ))
        (omega arith, (omega arith, (omega arith, tt)))

  rmc_body_clean :
      (t : Option PpsLabel) (valid : Bool) (p : PpsPosition D)
      → All NoStar (rmc_body llround t valid p)
  unfolding rmc_body
  rmc_body_clean t valid p = concat_clean (rmc_fields llround t valid p) (
    (omega arith, (omega arith, (omega arith, (omega arith, (omega arith, (omega arith, tt)))))),
    (
      rmc_time_clean t,
      (
        (omega arith, (either_clean valid 65 86 (omega arith) (omega arith), (omega arith, tt))),
        (
          rmc_position_clean p,
          (
            (omega arith, tt),
            (
              if_clean valid (48 ∷ 46 ∷ 48 ∷ []) [] (omega arith, (omega arith, (omega arith, tt)))
                  tt,
              (
                (omega arith, (omega arith, tt)),
                (
                  rmc_date_clean t,
                  (
                    (
                      omega arith,
                      (
                        omega arith,
                        (omega arith, (either_clean valid 77 78 (omega arith) (omega arith), tt)),
                      ),
                    ),
                    tt,
                  ),
                ),
              ),
            ),
          ),
        ),
      ),
    ),
  )

  -- Whatever the label, the validity and the position, a receiver that computes the checksum itself
  -- accepts the RMC sentence and gets exactly the body that was put into it.
  pub read_sentence-nmea_rmc :
      (t : Option PpsLabel) (valid : Bool) (p : PpsPosition D)
      → read_sentence (nmea_rmc llround t valid p) ≡ some (rmc_body llround t valid p)
  unfolding nmea_rmc
  read_sentence-nmea_rmc t valid p =
      read_sentence-nmea_sentence (rmc_body llround t valid p) (rmc_body_clean t valid p)
