-- ===== src/Prelude/Dict.antt =====
-- Dictionaries with byte strings for keys, as association lists.
use Prim.Native.Nat.{ℕ, ◌+◌, ◌≤◌}
use mathlib.Core.Path.{◌≡◌, ◌∙◌, refl, sym, ap}
use mathlib.Core.Logic.{◌⊎◌, inl, inr}
use mathlib.Core.Bool.{Bool, true, false, ◌&&◌}
use mathlib.Core.Option.{Option, none, some}
use mathlib.Core.List.{List, [], ◌∷◌}
use native.Mathlib.Omega.{arith}
use ubersdr_ntp.Prelude.Tests.{◌==◌, if◌then◌else◌, Bool-cases, and_left, and_right, ==_iff}
use ubersdr_ntp.Prelude.Lists.{length, some_inj}

abbrev pub Key : Type 0
Key = List ℕ

unfoldable pub eq_key : Key → Key → Bool
eq_key [] [] = true
eq_key [] (b ∷ k) = false
eq_key (a ∷ j) [] = false
eq_key (a ∷ j) (b ∷ k) = a == b && eq_key j k

pub eq_key_refl : (k : Key) → eq_key k k ≡ true
unfolding eq_key
eq_key_refl [] = refl
eq_key_refl (a ∷ k) = ground (arith, eq_key_refl k)

pub eq_key-eq : (j k : Key) → eq_key j k ≡ true → j ≡ k
unfolding eq_key
eq_key-eq [] [] h = refl
eq_key-eq [] (b ∷ k) h = cc
eq_key-eq (a ∷ j) [] h = cc
eq_key-eq (a ∷ j) (b ∷ k) h =
    ap₂' ((==_iff a b).0 (and_left (a == b) _ h)) (eq_key-eq j k (and_right (a == b) _ h))
  where
    ap₂' : a ≡ b → j ≡ k → a ∷ j ≡ b ∷ k
    ap₂' p q = λ i. p i ∷ q i

module _ {ℓ} {V : Type ℓ} where
  unfoldable pub lookup : Key → List (Key × V) → Option V
  lookup k [] = none
  lookup k ((j, v) ∷ m) = if eq_key j k then some v else lookup k m

  unfoldable pub insert : Key → V → List (Key × V) → List (Key × V)
  insert k v [] = (k, v) ∷ []
  insert k v ((j, w) ∷ m) = if eq_key j k then (k, v) ∷ m else (j, w) ∷ insert k v m

  -- The loop that erases the entries that a test drops.
  unfoldable pub erase_if : (Key → V → Bool) → List (Key × V) → List (Key × V)
  erase_if drop [] = []
  erase_if drop ((j, v) ∷ m) =
      let rest = erase_if drop m in if drop j v then rest else (j, v) ∷ rest

  pub lookup-insert_self : (k : Key) (v : V) (m : List (Key × V)) → lookup k (insert k v m) ≡ some v
  unfolding lookup insert
  lookup-insert_self k v [] = ground (arith, eq_key_refl k)
  lookup-insert_self k v ((j, w) ∷ m) = ground (arith, eq_key_refl k, lookup-insert_self k v m)

  pub lookup-insert_ne :
      (j k : Key) (v : V) (m : List (Key × V))
      → eq_key k j ≡ false
      → lookup j (insert k v m) ≡ lookup j m
  unfolding lookup insert
  lookup-insert_ne j k v [] h = ground arith
  lookup-insert_ne j k v ((i, w) ∷ m) h = elim (Bool-cases (eq_key i k)) [
    | inl e ↦ rw e (rw (h, eq_key-eq i k e, h) refl)
    | inr n ↦ rw n (ground (arith, lookup-insert_ne j k v m h))
  ]

  pub length-insert : (k : Key) (v : V) (m : List (Key × V)) → length (insert k v m) ≤ length m + 1
  unfolding insert
  length-insert k v [] = omega arith
  length-insert k v ((j, w) ∷ m) = ground (arith, length-insert k v m)

  -- Writing to a key that is there keeps the size.
  pub length-insert-some :
      (k : Key) (v w : V) (m : List (Key × V))
      → lookup k m ≡ some w
      → length (insert k v m) ≡ length m
  unfolding lookup insert
  length-insert-some k v w [] h = cc
  length-insert-some k v w ((j, u) ∷ m) h = ground (arith, length-insert-some k v w m)

  pub length-erase_if-le :
      (drop : Key → V → Bool) (m : List (Key × V)) → length (erase_if drop m) ≤ length m
  unfolding erase_if
  length-erase_if-le drop [] = omega arith
  length-erase_if-le drop ((j, v) ∷ m) = ground (arith, length-erase_if-le drop m)

  -- Erasing leaves a key's value as it was, unless it drops that value.
  pub lookup-erase_if :
      (drop : Key → V → Bool) (j : Key) (m : List (Key × V))
      → (lookup j (erase_if drop m) ≡ lookup j m)
        ⊎ ((v : V) × (lookup j m ≡ some v) × (drop j v ≡ true))
  unfolding lookup erase_if
  lookup-erase_if drop j [] = inl refl
  lookup-erase_if drop j ((i, v) ∷ m) = elim (Bool-cases (eq_key i j)) [
    | inl e ↦ elim (Bool-cases (drop i v)) [
      | inl gone ↦ rw e (inr (v, refl, rw (← eq_key-eq i j e) gone))
      | inr kept ↦ rw (kept, e) (inl refl)
    ]
    | inr n ↦ elim (Bool-cases (drop i v)) [
      | inl gone ↦ rw (gone, n) (lookup-erase_if drop j m)
      | inr kept ↦ rw (kept, n) (lookup-erase_if drop j m)
    ]
  ]

  -- No key stands twice, as in every std::unordered_map.
  abbrev pub UniqueKeys : List (Key × V) → Type ℓ
  UniqueKeys [] = Unit
  UniqueKeys ((j, v) ∷ m) = (lookup j m ≡ none) × UniqueKeys m

  lookup-erase_if-none :
      (drop : Key → V → Bool) (j : Key) (m : List (Key × V))
      → lookup j m ≡ none
      → lookup j (erase_if drop m) ≡ none
  unfolding lookup erase_if
  lookup-erase_if-none drop j [] h = refl
  lookup-erase_if-none drop j ((i, v) ∷ m) h = elim (Bool-cases (eq_key i j)) [
    | inl e ↦ absurd (some_none v (rw e at h))
    | inr n ↦ elim (Bool-cases (drop i v)) [
      | inl gone ↦ rw gone (lookup-erase_if-none drop j m (rw n at h))
      | inr kept ↦ rw (kept, n) (lookup-erase_if-none drop j m (rw n at h))
    ]
  ]
    where
      some_none : (v : V) → some v ≡ none → ⊥
      some_none v e = cc

  pub UniqueKeys-erase_if :
      (drop : Key → V → Bool) (m : List (Key × V)) → UniqueKeys m → UniqueKeys (erase_if drop m)
  unfolding erase_if
  UniqueKeys-erase_if drop [] u = tt
  UniqueKeys-erase_if drop ((i, v) ∷ m) u = elim (Bool-cases (drop i v)) [
    | inl gone ↦ rw gone (UniqueKeys-erase_if drop m u.1)
    | inr kept ↦ rw kept (lookup-erase_if-none drop i m u.0, UniqueKeys-erase_if drop m u.1)
  ]

  -- A value that is dropped is gone, its key standing once.
  pub lookup-erase_if-gone :
      (drop : Key → V → Bool) (j : Key) (v : V) (m : List (Key × V))
      → UniqueKeys m
      → lookup j m ≡ some v
      → drop j v ≡ true
      → lookup j (erase_if drop m) ≡ none
  unfolding lookup erase_if
  lookup-erase_if-gone drop j v [] u h d = refl
  lookup-erase_if-gone drop j v ((i, w) ∷ m) u h d = elim (Bool-cases (eq_key i j)) [
    | inl e ↦
        let same : w ≡ v = some_inj (rw e at h) in
        let gone : drop i w ≡ true = rw (eq_key-eq i j e, same) d in
        rw gone (lookup-erase_if-none drop j m (rw (eq_key-eq i j e) at u).0)
    | inr n ↦ elim (Bool-cases (drop i w)) [
      | inl gone ↦ rw gone (lookup-erase_if-gone drop j v m u.1 (rw n at h) d)
      | inr kept ↦ rw (kept, n) (lookup-erase_if-gone drop j v m u.1 (rw n at h) d)
    ]
  ]

  pub UniqueKeys-insert :
      (k : Key) (v : V) (m : List (Key × V)) → UniqueKeys m → UniqueKeys (insert k v m)
  unfolding insert lookup
  UniqueKeys-insert k v [] u = (refl, tt)
  UniqueKeys-insert k v ((j, w) ∷ m) u = elim (Bool-cases (eq_key j k)) [
    | inl e ↦ rw e (rw (eq_key-eq j k e) at u)
    | inr n ↦ rw n (lookup-insert_ne j k v m (ne_sym n) ∙ u.0, UniqueKeys-insert k v m u.1)
  ]
    where
      ne_sym : eq_key j k ≡ false → eq_key k j ≡ false
      ne_sym n = elim (Bool-cases (eq_key k j)) [
        | inr other ↦ other
        | inl same ↦
            absurd (true_false (sym (eq_key_refl j) ∙ ap (eq_key j) (sym (eq_key-eq k j same)) ∙ n))
      ]
        where
          true_false : true ≡ false → ⊥
          true_false e = cc
