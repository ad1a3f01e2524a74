-- ===== src/Address/Contains.antt =====
-- A prefix contains an address exactly when the two agree on the bits that it covers.
use ubersdr_ntp.Prelude.{ℕ, ◌≡◌, ◌↔◌, Bool, true, ◌&&◌, and_left, and_right, arith, List}
use ubersdr_ntp.Prelude.Dict.{eq_key, eq_key-eq, eq_key_refl}
use ubersdr_ntp.Address.{IpAddr, Family, same_family, masked, contains, make_prefix}
use ubersdr_ntp.Address.Masks.{AgreeOn, IsBytes, mask_bytes-AgreeOn, AgreeOn-mask_bytes}

same_family_iff : (f g : Family) → (same_family f g ≡ true) ↔ (f ≡ g)
same_family_iff f g = ground arith

eq_key_of_eq : (j k : List ℕ) → j ≡ k → eq_key j k ≡ true
eq_key_of_eq j k e = rw e (eq_key_refl k)

both : (a b : Bool) → a ≡ true → b ≡ true → (a && b) ≡ true
both a b h k = ground arith

-- A prefix made from an address and a length contains exactly the addresses of its family that
-- agree with it on the first `len` bits.
pub contains-make_prefix :
    (net a : IpAddr) (len : ℕ)
    → IsBytes net.bytes
    → IsBytes a.bytes
    → (contains (make_prefix net len) a ≡ true)
      ↔ ((a.family ≡ net.family) × AgreeOn len 0 a.bytes net.bytes)
unfolding contains make_prefix masked
contains-make_prefix net a len bn ba = (
  λ h. (
    (same_family_iff a.family net.family).0 (and_left _ _ h),
    AgreeOn-mask_bytes len 0 a.bytes net.bytes ba bn
        (eq_key-eq _ _ (and_right (same_family a.family net.family) _ h)),
  ),
  λ h.
      both _ _ ((same_family_iff a.family net.family).1 h.0)
        (eq_key_of_eq _ _ (mask_bytes-AgreeOn len 0 a.bytes net.bytes ba bn h.1)),
)
