-- ===== src/Address.antt =====
-- src/IpPrefix.h: addresses as 16 bytes and a family, and prefixes of them.
pub mod Masks
pub mod Contains
pub mod Label
mod Tests
use Prim.Native.Nat.{bit_and}
use ubersdr_ntp.Prelude.{
  ℕ, zero, suc, ◌+◌, ◌-◌, ◌*◌, ◌/◌, ◌%◌, ◌^◌, Bool, true, false, ◌&&◌, ◌||◌, List, [], ◌∷◌, ◌++◌,
  ltb, leb, ◌==◌, if◌then◌else◌, replicate, take, drop, get_or,
}
use ubersdr_ntp.Prelude.Dict.{Key, eq_key}

-- AF_INET, AF_INET6, and 0 for anything else.
pub data Family : Type 0 where
  unspecified inet inet6 : Family

abbrev pub same_family : Family → Family → Bool
same_family unspecified unspecified = true
same_family inet inet = true
same_family inet6 inet6 = true
same_family _ _ = false

abbrev pub is_inet : Family → Bool
is_inet f = same_family f inet

abbrev pub is_unspecified : Family → Bool
is_unspecified f = same_family f unspecified

-- The 16 bytes of `b`, IPv4 in the first four.
pub record IpAddr : Type 0 where
  pub family : Family
  pub bytes : List ℕ

abbrev pub bits : Family → ℕ
bits inet = 32
bits inet6 = 128
bits unspecified = 128

-- A `sockaddr_storage`, by its family: the address bytes of `sockaddr_in` and `sockaddr_in6`.
pub data SockAddr : Type 0 where
  sockaddr_in sockaddr_in6 : List ℕ → SockAddr
  sockaddr_other : SockAddr

abbrev pub no_address : IpAddr
no_address = record { family = unspecified; bytes = replicate 16 0 }

-- The C library's IN6_IS_ADDR_V4MAPPED is a parameter.
unfoldable pub ip_addr_of : (List ℕ → Bool) → SockAddr → IpAddr
ip_addr_of is_v4mapped (sockaddr_in b) = record { family = inet; bytes = b ++ replicate 12 0 }
ip_addr_of is_v4mapped (sockaddr_in6 b) =
    if is_v4mapped b
    then record { family = inet; bytes = drop 12 b ++ replicate 12 0 }
    else record { family = inet6; bytes = b }
ip_addr_of is_v4mapped sockaddr_other = no_address

-- Byte i of the masked address. `keep` is len - 8 * i, and a byte's mask is cut to 8 bits.
unfoldable pub mask_byte : ℕ → ℕ → ℕ → ℕ
mask_byte len i b =
    if leb (8 * i + 8) len
    then b
    else if leb len (8 * i)
    then bit_and b 0
    else bit_and b (0xff * 2 ^ (8 - (len - 8 * i)) % 256)

-- The loop of `masked` from byte i.
unfoldable pub mask_bytes : ℕ → ℕ → List ℕ → List ℕ
mask_bytes len i [] = []
mask_bytes len i (b ∷ bs) = mask_byte len i b ∷ mask_bytes len (i + 1) bs

unfoldable pub masked : IpAddr → ℕ → IpAddr
masked a len = record a { bytes = mask_bytes len 0 a.bytes }

pub record IpPrefix : Type 0 where
  pub net : IpAddr
  pub len : ℕ

unfoldable pub contains : IpPrefix → IpAddr → Bool
contains p a = same_family a.family p.net.family && eq_key (masked a p.len).bytes p.net.bytes

-- The end of `IpPrefix::parse`: the net is cut to the length.
unfoldable pub make_prefix : IpAddr → ℕ → IpPrefix
make_prefix net len = record { net = masked net len; len = len }
