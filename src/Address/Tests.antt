-- ===== src/Address/Tests.antt =====
-- 172.16.0.0/12 and an address on either side of its edge.
use ubersdr_ntp.Prelude.{ℕ, ◌≡◌, ◌↔◌, refl, true, false, ◌∷◌, replicate, arith}
use ubersdr_ntp.Prelude.Dict.{eq_key}
use ubersdr_ntp.Address.{IpAddr, inet, mask_byte, mask_bytes, masked, contains, make_prefix}
use ubersdr_ntp.Address.Masks.{AgreeOn}
use ubersdr_ntp.Address.Contains.{contains-make_prefix}
use ubersdr_ntp.Address.Label.{is_private, any_contains, public_label, public_label-AgreeOn}

abbrev ipv4 : ℕ → ℕ → ℕ → ℕ → IpAddr
ipv4 a b c d = record { family = inet; bytes = a ∷ b ∷ c ∷ d ∷ replicate 12 0 }

inside : contains (make_prefix (ipv4 172 16 0 0) 12) (ipv4 172 31 255 255) ≡ true
unfolding contains make_prefix masked mask_bytes mask_byte eq_key
inside = refl

outside : contains (make_prefix (ipv4 172 16 0 0) 12) (ipv4 172 32 0 0) ≡ false
unfolding contains make_prefix masked mask_bytes mask_byte eq_key
outside = refl

contains-make_prefix_example :
    (contains (make_prefix (ipv4 172 16 0 0) 12) (ipv4 172 20 1 2) ≡ true)
    ↔ ((inet ≡ inet) × AgreeOn 12 0 (ipv4 172 20 1 2).bytes (ipv4 172 16 0 0).bytes)
contains-make_prefix_example =
    contains-make_prefix (ipv4 172 16 0 0) (ipv4 172 20 1 2) 12 (omega arith) (omega arith)

public_client : is_private (ipv4 8 8 8 8) ≡ false
unfolding is_private any_contains contains make_prefix masked mask_bytes mask_byte eq_key
public_client = refl

public_neighbour : is_private (ipv4 8 8 8 44) ≡ false
unfolding is_private any_contains contains make_prefix masked mask_bytes mask_byte eq_key
public_neighbour = refl

private_client : is_private (ipv4 192 168 1 7) ≡ true
unfolding is_private any_contains contains make_prefix masked mask_bytes mask_byte eq_key
private_client = refl

public_label-AgreeOn_example :
    public_label (λ f b. b) (ipv4 8 8 8 8) ≡ public_label (λ f b. b) (ipv4 8 8 8 44)
public_label-AgreeOn_example =
    public_label-AgreeOn (λ f b. b) (ipv4 8 8 8 8) (ipv4 8 8 8 44) refl public_client
      public_neighbour (omega arith) (omega arith) (omega arith)
