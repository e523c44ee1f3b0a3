-- ===== src/Common/Keyed.antt =====
-- Tables whose entries carry a key, searched for the first entry with a key; 0 marks a free slot.
use Prim.Native.Nat.{ℕ, ◌≤◌, ◌<◌}
use mathlib.Core.Path.{◌≡◌}
use mathlib.Core.Logic.{◌≢◌, inl, inr}
use mathlib.Core.Bool.{Bool, true, false}
use mathlib.Core.List.{List, [], ◌∷◌, ◌++◌}
use mathlib.Core.Option.{none, some}
use native.Mathlib.Omega.{arith}
use wwn_iland.Common.Tests.{if◌then◌else◌, ◌==◌, Bool-cases}
use wwn_iland.Common.Arrays.{get_elem?, set, find?, find_index, count, All}
use wwn_iland.Common.Search.{
  count-set, find?-count_zero, find?-set_fresh, find?-set_other, find?-append_one,
  find?-append_other, find?-set_found, get_elem?-lt,
}

module _ {ℓ} {A : Type ℓ} where
  pub count-le :
      (p t : A → Bool) (xs : List A) → ((x : A) → p x ≡ true → t x ≡ true) → count p xs ≤ count t xs
  unfolding count
  count-le p t [] h = omega arith
  count-le p t (x ∷ xs) h = ground (arith, h x, count-le p t xs h)

  -- Where at most one element passes the test, what the search finds has every property that an
  -- element which passes is counted for.
  pub find?-unique :
      (p t : A → Bool) (xs : List A) (y : A)
      → ((x : A) → p x ≡ true → t x ≡ true)
      → count t xs ≤ 1
      → 0 < count p xs
      → find? t xs ≡ some y
      → p y ≡ true
  unfolding count find?
  find?-unique p t [] y h u c e = cc
  find?-unique p t (x ∷ xs) y h u c e = elim (Bool-cases (t x)) [
    | inl hit ↦ let k : some x ≡ some y = rw hit at e in ground (arith, k, hit, count-le p t xs h)
    | inr miss ↦
        let k : find? t xs ≡ some y = rw miss at e in
        find?-unique p t xs y h (ground (arith, miss)) (ground (arith, miss, h x)) k
  ]

module _ {ℓ} {A : Type ℓ} (key : A → ℕ) where
  -- A new entry in a free slot is found under its key, and nothing else changes.
  pub find?-insert :
      (xs : List A) (i : ℕ) (e v : A) (j : ℕ)
      → get_elem? xs i ≡ some e
      → key e ≡ 0
      → All (λ x. (key x == key v) ≡ false) xs
      → j ≢ 0
      → find? (λ x. key x == j) (set xs i v)
        ≡ (if key v == j then some v else find? (λ x. key x == j) xs)
  find?-insert xs i e v j g free fresh j0 = elim (Bool-cases (key v == j)) [
    | inl same ↦
        let same' : j ≡ key v = ground (arith, same) in
        rw (same, same')
          (find?-set_fresh (λ x. key x == key v) xs i v fresh (get_elem?-lt (λ x. true) xs i e g)
            (ground arith))
    | inr other ↦ rw other (find?-set_other (λ x. key x == j) xs i e v g (ground arith) other)
  ]

  -- A cleared slot is no longer found under its key, and nothing else changes.
  pub find?-clear :
      (xs : List A) (i : ℕ) (e v : A) (j : ℕ)
      → get_elem? xs i ≡ some e
      → key v ≡ 0
      → count (λ x. key x == key e) xs ≤ 1
      → j ≢ 0
      → find? (λ x. key x == j) (set xs i v)
        ≡ (if key e == j then none else find? (λ x. key x == j) xs)
  find?-clear xs i e v j g free unique j0 = elim (Bool-cases (key e == j)) [
    | inl same ↦
        let same' : j ≡ key e = ground (arith, same) in
        rw (same, same')
          (find?-count_zero (λ x. key x == key e) (set xs i v)
            (ground (arith, count-set (λ x. key x == key e) xs i e v g)))
    | inr other ↦ rw other (find?-set_other (λ x. key x == j) xs i e v g other (ground arith))
  ]

  -- An entry added at the end of a table that lacks its key is found under the key, and nothing else
  -- changes; 0 is a key like any other here.
  pub find?-added :
      (xs : List A) (new : A) (j : ℕ)
      → count (λ x. key x == key new) xs ≡ 0
      → find? (λ x. key x == j) (xs ++ new ∷ [])
        ≡ (if key new == j then some new else find? (λ x. key x == j) xs)
  find?-added xs new j c0 = elim (Bool-cases (key new == j)) [
    | inl same ↦
        let e : j ≡ key new = ground (arith, same) in
        rw (same, e, find?-append_one (λ x. key x == key new) xs new c0) (ground arith)
    | inr other ↦ rw (other, find?-append_other (λ x. key x == j) xs new other)
  ]

  -- The first entry with a key replaced by another with the same key.
  pub find?-replaced :
      (xs : List A) (new : A) (j i : ℕ) (e : A)
      → find_index (λ x. key x == key new) xs ≡ some i
      → get_elem? xs i ≡ some e
      → (key e == key new) ≡ true
      → find? (λ x. key x == j) (set xs i new)
        ≡ (if key new == j then some new else find? (λ x. key x == j) xs)
  find?-replaced xs new j i e found at p = elim (Bool-cases (key new == j)) [
    | inl same ↦
        let k : j ≡ key new = ground (arith, same) in
        rw (same, k, find?-set_found (λ x. key x == key new) xs i new found (ground arith))
    | inr other ↦
        rw other (find?-set_other (λ x. key x == j) xs i e new at (ground (arith, p, other)) other)
  ]
