-- ===== src/Address/Label.antt =====
-- src/IpPrefix.h: how a client is named on the public page. The C library's inet_ntop is a parameter,
-- and a text is the list of its characters' codes.
use ubersdr_ntp.Prelude.{
  ℕ, ◌+◌, ◌/◌, ◌%◌, Bool, true, false, ◌||◌, List, [], ◌∷◌, ◌++◌, ◌≡◌, refl, sym, ap, ◌∙◌, ltb,
  get_or, replicate, if◌then◌else◌,
}
use ubersdr_ntp.Address.{
  Family, inet, inet6, unspecified, IpAddr, IpPrefix, masked, mask_byte, mask_bytes, contains,
  make_prefix,
}
use ubersdr_ntp.Address.Masks.{AgreeOn, IsBytes, mask_bytes-AgreeOn}

abbrev ipv4_prefix : ℕ → ℕ → ℕ → IpPrefix
ipv4_prefix a b len = make_prefix (record { family = inet; bytes = a ∷ b ∷ replicate 14 0 }) len

abbrev ipv6_prefix : ℕ → ℕ → ℕ → ℕ → IpPrefix
ipv6_prefix a b last len =
    make_prefix (record { family = inet6; bytes = (a ∷ b ∷ replicate 13 0) ++ (last ∷ []) }) len

-- `kPrivate`.
abbrev pub private_prefixes : List IpPrefix
private_prefixes =
    ipv4_prefix 10 0 8
    ∷ ipv4_prefix 172 16 12
    ∷ ipv4_prefix 192 168 16
    ∷ ipv4_prefix 127 0 8
    ∷ ipv4_prefix 169 254 16
    ∷ ipv6_prefix 0 0 1 128
    ∷ ipv6_prefix 0xfc 0 0 7
    ∷ ipv6_prefix 0xfe 0x80 0 10
    ∷ []

unfoldable pub any_contains : List IpPrefix → IpAddr → Bool
any_contains [] a = false
any_contains (p ∷ ps) a = contains p a || any_contains ps a

unfoldable pub is_private : IpAddr → Bool
is_private a = any_contains private_prefixes a

-- `std::to_string` of a byte.
unfoldable pub byte_text : ℕ → List ℕ
byte_text b =
    if ltb b 10
    then (48 + b) ∷ []
    else if ltb b 100
    then (48 + b / 10) ∷ (48 + b % 10) ∷ []
    else (48 + b / 100) ∷ (48 + b / 10 % 10) ∷ (48 + b % 10) ∷ []

-- The label of an address that is not private: a.b.c.x, or its /64.
unfoldable pub network_label : (Family → List ℕ → List ℕ) → Family → IpAddr → List ℕ
network_label ntop inet a =
    byte_text (get_or a.bytes 0 0)
    ++ (46 ∷ byte_text (get_or a.bytes 1 0))
    ++ (46 ∷ byte_text (get_or a.bytes 2 0))
    ++ (46 ∷ 120 ∷ [])
network_label ntop inet6 a = ntop inet6 (masked a 64).bytes ++ (47 ∷ 54 ∷ 52 ∷ [])
network_label ntop unspecified a = 63 ∷ []

unfoldable pub is_known : Family → Bool
is_known inet = true
is_known inet6 = true
is_known unspecified = false

unfoldable pub public_label : (Family → List ℕ → List ℕ) → IpAddr → List ℕ
public_label ntop a =
    if is_private a
    then if is_known a.family then ntop a.family a.bytes else 63 ∷ []
    else network_label ntop a.family a

-- The bits of an address that its network has.
abbrev pub network_bits : Family → ℕ
network_bits inet = 24
network_bits inet6 = 64
network_bits unspecified = 0

first_bytes :
    (xs : List ℕ)
    → (get_or (mask_bytes 24 0 xs) 0 0 ≡ get_or xs 0 0)
      × (get_or (mask_bytes 24 0 xs) 1 0 ≡ get_or xs 1 0)
      × (get_or (mask_bytes 24 0 xs) 2 0 ≡ get_or xs 2 0)
unfolding mask_bytes mask_byte
first_bytes [] = (refl, refl, refl)
first_bytes (x ∷ []) = (refl, refl, refl)
first_bytes (x ∷ (y ∷ [])) = (refl, refl, refl)
first_bytes (x ∷ (y ∷ (z ∷ rest))) = (refl, refl, refl)

network_label-AgreeOn :
    (ntop : Family → List ℕ → List ℕ) (f : Family) (a b : IpAddr)
    → mask_bytes (network_bits f) 0 a.bytes ≡ mask_bytes (network_bits f) 0 b.bytes
    → network_label ntop f a ≡ network_label ntop f b
unfolding network_label masked
network_label-AgreeOn ntop inet a b e =
    rw
      (
        byte 0 (first_bytes a.bytes).0 (first_bytes b.bytes).0,
        byte 1 (first_bytes a.bytes).1 (first_bytes b.bytes).1,
        byte 2 (first_bytes a.bytes).2 (first_bytes b.bytes).2,
      )
      refl
  where
    byte :
        (i : ℕ)
        → get_or (mask_bytes 24 0 a.bytes) i 0 ≡ get_or a.bytes i 0
        → get_or (mask_bytes 24 0 b.bytes) i 0 ≡ get_or b.bytes i 0
        → get_or a.bytes i 0 ≡ get_or b.bytes i 0
    byte i p q = sym p ∙ (ap (λ (xs : List ℕ). get_or xs i 0) e ∙ q)
network_label-AgreeOn ntop inet6 a b e = ap (λ xs. ntop inet6 xs ++ (47 ∷ 54 ∷ 52 ∷ [])) e
network_label-AgreeOn ntop unspecified a b e = refl

-- The public label of an address that is not private tells nothing but its network: two addresses of
-- a family that agree on the first 24 bits, or 64 of IPv6, have the same label, if neither is private.
pub public_label-AgreeOn :
    (ntop : Family → List ℕ → List ℕ) (a b : IpAddr)
    → a.family ≡ b.family
    → is_private a ≡ false
    → is_private b ≡ false
    → IsBytes a.bytes
    → IsBytes b.bytes
    → AgreeOn (network_bits a.family) 0 a.bytes b.bytes
    → public_label ntop a ≡ public_label ntop b
unfolding public_label
public_label-AgreeOn ntop a b f pa pb ba bb h =
    rw (pa, pb)
      (network_label-AgreeOn ntop a.family a b (mask_bytes-AgreeOn _ 0 a.bytes b.bytes ba bb h)
        ∙ ap (λ g. network_label ntop g b) f)
