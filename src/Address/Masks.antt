-- ===== src/Address/Masks.antt =====
-- A masked byte keeps its high bits.
use Prim.Native.Nat.{bit_and}
use ubersdr_ntp.Prelude.{
  ℕ, ◌+◌, ◌-◌, ◌*◌, ◌/◌, ◌%◌, ◌^◌, ◌≤◌, ◌<◌, ◌≡◌, refl, sym, ap, ◌∙◌, true, false, leb, ◌==◌,
  ==_iff, min, get_or, arith, List, [], ◌∷◌, All, inl, inr, Bool-cases, leb→le,
}
use mathlib.Core.List.{tail}
use native.Mathlib.Nat.{one-le-pow}
use ubersdr_ntp.Prelude.Check.{holds_below, holds_below_at}
use ubersdr_ntp.Address.{mask_byte, mask_bytes}

-- The bits of byte i that a prefix of `len` bits covers.
abbrev pub covered : ℕ → ℕ → ℕ
covered len i = min 8 (len - 8 * i)

-- The low bits of a byte that are cleared.
abbrev pub block : ℕ → ℕ
block k = 2 ^ (8 - k)

-- For each count of covered bits, every byte.
mask_table :
    holds_below 9
      (λ k. holds_below 256 (λ b. bit_and b (0xff * 2 ^ (8 - k) % 256) == b / block k * block k))
    ≡ true
unfolding holds_below
mask_table = refl

mask_table_lem :
    (k b : ℕ) → k ≤ 8 → b < 256 → bit_and b (0xff * 2 ^ (8 - k) % 256) ≡ b / block k * block k
mask_table_lem k b hk hb = (==_iff _ _).0 (
    holds_below_at 256 (λ c. bit_and c (0xff * 2 ^ (8 - k) % 256) == c / block k * block k) b
      (holds_below_at 9
        (λ j. holds_below 256 (λ c. bit_and c (0xff * 2 ^ (8 - j) % 256) == c / block j * block j))
        k mask_table (omega arith))
      hb)

partly : (len i : ℕ) → leb (8 * i + 8) len ≡ false → covered len i ≡ len - 8 * i
partly len i h = ground arith

-- The byte with all but its covered bits cleared.
pub mask_byte_lem :
    (len i b : ℕ) → b < 256 → mask_byte len i b ≡ b / block (covered len i) * block (covered len i)
unfolding mask_byte
mask_byte_lem len i b h = elim (Bool-cases (leb (8 * i + 8) len)) [
  | inl whole ↦
      let k : covered len i ≡ 8 = omega (arith, leb→le _ _ whole) in rw (whole, k) (omega arith)
  | inr short ↦ rw short (elim (Bool-cases (leb len (8 * i))) [
    | inl past ↦
        let k : covered len i ≡ 0 = omega (arith, leb→le _ _ past) in
        rw (past, k) (mask_table_lem 0 b (omega arith) h)
    | inr within ↦
        let k : covered len i ≡ len - 8 * i = partly len i short in
        rw (within, k) (mask_table_lem (len - 8 * i) b (omega (arith, k)) h)
  ])
]

-- Bytes of two addresses that a prefix of `len` bits does not tell apart, from byte i on.
abbrev pub AgreeOn : ℕ → ℕ → List ℕ → List ℕ → Type 0
AgreeOn len i [] [] = Unit
AgreeOn len i [] (y ∷ ys) = ⊥
AgreeOn len i (x ∷ xs) [] = ⊥
AgreeOn len i (x ∷ xs) (y ∷ ys) =
    (x / block (covered len i) ≡ y / block (covered len i)) × AgreeOn len (i + 1) xs ys

abbrev pub IsBytes : List ℕ → Type 0
IsBytes = All (λ b. b < 256)

block-pos : (k : ℕ) → 0 < block k
block-pos k = one-le-pow (8 - k) 2 (omega arith)

same_quotient : (x y n : ℕ) → 0 < n → x / n * n ≡ y / n * n → x / n ≡ y / n
same_quotient x y n h e = grind arith

pub mask_bytes-AgreeOn :
    (len i : ℕ) (xs ys : List ℕ)
    → IsBytes xs
    → IsBytes ys
    → AgreeOn len i xs ys
    → mask_bytes len i xs ≡ mask_bytes len i ys
unfolding mask_bytes
mask_bytes-AgreeOn len i [] [] bx by h = refl
mask_bytes-AgreeOn len i [] (y ∷ ys) bx by h = absurd h
mask_bytes-AgreeOn len i (x ∷ xs) [] bx by h = absurd h
mask_bytes-AgreeOn len i (x ∷ xs) (y ∷ ys) bx by h =
    λ j. head j ∷ mask_bytes-AgreeOn len (i + 1) xs ys bx.1 by.1 h.1 j
  where
    head : mask_byte len i x ≡ mask_byte len i y
    head =
        mask_byte_lem len i x bx.0
        ∙ (ap (λ q. q * block (covered len i)) h.0 ∙ sym (mask_byte_lem len i y by.0))

pub AgreeOn-mask_bytes :
    (len i : ℕ) (xs ys : List ℕ)
    → IsBytes xs
    → IsBytes ys
    → mask_bytes len i xs ≡ mask_bytes len i ys
    → AgreeOn len i xs ys
unfolding mask_bytes
AgreeOn-mask_bytes len i [] [] bx by h = tt
AgreeOn-mask_bytes len i [] (y ∷ ys) bx by h = cc
AgreeOn-mask_bytes len i (x ∷ xs) [] bx by h = cc
AgreeOn-mask_bytes len i (x ∷ xs) (y ∷ ys) bx by h = (
  same_quotient x y (block (covered len i)) (block-pos (covered len i)) (
      sym (mask_byte_lem len i x bx.0)
      ∙ (ap (λ (l : List ℕ). get_or l 0 0) h ∙ mask_byte_lem len i y by.0)),
  AgreeOn-mask_bytes len (i + 1) xs ys bx.1 by.1 (ap tail h),
)

div_mul-le : (x n : ℕ) → x / n * n ≤ x
div_mul-le x n = grind arith

mul-div : (q n : ℕ) → 0 < n → q * n / n ≡ q
mul-div q n h = grind arith

mask_byte_idem : (len i x : ℕ) → x < 256 → mask_byte len i (mask_byte len i x) ≡ mask_byte len i x
mask_byte_idem len i x h =
    let k = covered len i in
    ap (mask_byte len i) (mask_byte_lem len i x h)
    ∙ (mask_byte_lem len i (x / block k * block k) (omega (arith, div_mul-le x (block k)))
        ∙ (ap (λ q. q * block k) (mul-div (x / block k) (block k) (block-pos k))
            ∙ sym (mask_byte_lem len i x h)))

-- Masking twice with one length is masking once.
pub mask_bytes_idem :
    (len i : ℕ) (xs : List ℕ)
    → IsBytes xs
    → mask_bytes len i (mask_bytes len i xs) ≡ mask_bytes len i xs
unfolding mask_bytes
mask_bytes_idem len i [] bx = refl
mask_bytes_idem len i (x ∷ xs) bx =
    λ j. mask_byte_idem len i x bx.0 j ∷ mask_bytes_idem len (i + 1) xs bx.1 j
