-- ===== src/Common/Search.antt =====
-- Laws of the search loops and of counting over an array that a call writes into.
use Prim.Native.Nat.{ℕ, zero, suc, ◌+◌, ◌<◌}
use mathlib.Core.Path.{◌≡◌, refl, ap}
use mathlib.Core.Bool.{Bool, true, false}
use mathlib.Core.List.{List, [], ◌∷◌, ◌++◌}
use mathlib.Core.Option.{none, some}
use mathlib.Core.Logic.{◌≢◌, ◌⊎◌, inl, inr}
use native.Mathlib.Omega.{arith}
use wwn_iland.Common.Tests.{if◌then◌else◌, Bool-cases, Option-cases}
use wwn_iland.Common.Arrays.{
  bit, length, get_elem?, get_or, set, replicate, find_index, find?, count, All,
}

module _ {ℓ} {A : Type ℓ} (t : A → Bool) where
  -- The index that the loop stops at holds an element that passes the test.
  pub find_index-get_elem? :
      (xs : List A) (i : ℕ)
      → find_index t xs ≡ some i
      → (e : A) × (get_elem? xs i ≡ some e) × (t e ≡ true)
  unfolding find_index
  find_index-get_elem? [] i h = cc
  find_index-get_elem? (x ∷ xs) i h = elim (Bool-cases (t x)) [
    | inl yes_x ↦ let e : some 0 ≡ some i = rw yes_x at h in (x, ground (arith, e), yes_x)
    | inr no_x ↦ elim (Option-cases (find_index t xs)) [
      | inl e ↦ cc (rw (no_x, e) at h)
      | inr (j, e) ↦
          let k : some (suc j) ≡ some i = rw (no_x, e) at h in
          let (y, g, p) = find_index-get_elem? xs j e in (y, ground (arith, k, g), p)
    ]
  ]

  pub get_elem?-lt : (xs : List A) (i : ℕ) (e : A) → get_elem? xs i ≡ some e → i < length xs
  get_elem?-lt [] i e h = cc
  get_elem?-lt (x ∷ xs) zero e h = omega arith
  get_elem?-lt (x ∷ xs) (suc i) e h = omega (arith, get_elem?-lt xs i e h)

  -- A write changes the count by the old and the new element.
  pub count-set :
      (xs : List A) (i : ℕ) (e v : A)
      → get_elem? xs i ≡ some e
      → count t (set xs i v) + bit (t e) ≡ count t xs + bit (t v)
  unfolding count
  count-set [] i e v h = cc
  count-set (x ∷ xs) zero e v h = ground arith
  count-set (x ∷ xs) (suc i) e v h = omega (arith, count-set xs i e v h)

  pub count-append : (xs ys : List A) → count t (xs ++ ys) ≡ count t xs + count t ys
  unfolding count
  count-append [] ys = omega arith
  count-append (x ∷ xs) ys = omega (arith, count-append xs ys)

  pub count-replicate : (n : ℕ) (x : A) → t x ≡ false → count t (replicate n x) ≡ 0
  unfolding count
  count-replicate zero x h = refl
  count-replicate (suc n) x h = ground (arith, count-replicate n x h)

  -- The search after a write: past an array that holds no match, it finds the written element.
  pub find?-set_fresh :
      (xs : List A) (i : ℕ) (v : A)
      → All (λ x. t x ≡ false) xs
      → i < length xs
      → t v ≡ true
      → find? t (set xs i v) ≡ some v
  unfolding find?
  find?-set_fresh [] i v h lt p = absurd (omega arith)
  find?-set_fresh (x ∷ xs) zero v h lt p = rw p
  find?-set_fresh (x ∷ xs) (suc i) v h lt p = rw h.0 (find?-set_fresh xs i v h.1 (omega arith) p)

  -- A write between two elements that fail the test does not change what the search finds.
  pub find?-set_other :
      (xs : List A) (i : ℕ) (e v : A)
      → get_elem? xs i ≡ some e
      → t e ≡ false
      → t v ≡ false
      → find? t (set xs i v) ≡ find? t xs
  unfolding find?
  find?-set_other [] i e v h p q = refl
  find?-set_other (x ∷ xs) zero e v h p q = let k : some x ≡ some e = h in ground (arith, k)
  find?-set_other (x ∷ xs) (suc i) e v h p q =
      ap (λ r. if t x then some x else r) (find?-set_other xs i e v h p q)

  pub find?-none : (xs : List A) → All (λ x. t x ≡ false) xs → find? t xs ≡ none
  unfolding find?
  find?-none [] h = refl
  find?-none (x ∷ xs) h = rw h.0 (find?-none xs h.1)

  -- What the search finds passes the test.
  pub find?-test : (xs : List A) (e : A) → find? t xs ≡ some e → t e ≡ true
  unfolding find?
  find?-test [] e h = cc
  find?-test (x ∷ xs) e h = ground (arith, find?-test xs e)

  -- What the search finds is counted.
  pub find?-count :
      (p : A → Bool) (xs : List A) (e : A) → find? t xs ≡ some e → p e ≡ true → 0 < count p xs
  unfolding find? count
  find?-count p [] e h q = cc
  find?-count p (x ∷ xs) e h q = elim (Bool-cases (t x)) [
    | inl yes_x ↦ let k : some x ≡ some e = rw yes_x at h in ground (arith, k)
    | inr no_x ↦ let k : find? t xs ≡ some e = rw no_x at h in omega (arith, find?-count p xs e k q)
  ]

module _ {ℓ} {A : Type ℓ} where
  -- A search for what the array does not count finds nothing.
  pub find?-count_zero : (t : A → Bool) (xs : List A) → count t xs ≡ 0 → find? t xs ≡ none
  unfolding find? count
  find?-count_zero t [] h = refl
  find?-count_zero t (x ∷ xs) h = ground (arith, find?-count_zero t xs)

  pub All-mono {κ μ} :
      (P : A → Type κ) (Q : A → Type μ) (xs : List A) → ((x : A) → P x → Q x) → All P xs → All Q xs
  All-mono P Q [] f h = tt
  All-mono P Q (x ∷ xs) f h = (f x h.0, All-mono P Q xs f h.1)

  pub All-count {κ} :
      (t : A → Bool) (P : A → Type κ) (xs : List A)
      → ((x : A) → P x → t x ≡ false)
      → All P xs
      → count t xs ≡ 0
  unfolding count
  All-count t P [] f h = refl
  All-count t P (x ∷ xs) f h = rw (f x h.0) (omega (arith, All-count t P xs f h.1))

  pub get_or-of_get_elem? :
      (xs : List A) (i : ℕ) (e d : A) → get_elem? xs i ≡ some e → get_or xs i d ≡ e
  get_or-of_get_elem? [] i e d h = cc
  get_or-of_get_elem? (x ∷ xs) zero e d h = cc
  get_or-of_get_elem? (x ∷ xs) (suc i) e d h = get_or-of_get_elem? xs i e d h

  pub All-replicate {κ} : (P : A → Type κ) (n : ℕ) (x : A) → P x → All P (replicate n x)
  All-replicate P zero x h = tt
  All-replicate P (suc n) x h = (h, All-replicate P n x h)

  pub find_index-count_zero : (t : A → Bool) (xs : List A) → find_index t xs ≡ none → count t xs ≡ 0
  unfolding find_index count
  find_index-count_zero t [] h = refl
  find_index-count_zero t (x ∷ xs) h = elim (Bool-cases (t x)) [
    | inl hit ↦ cc (rw hit at h)
    | inr miss ↦ elim (Option-cases (find_index t xs)) [
      | inl e ↦ rw miss (omega (arith, find_index-count_zero t xs e))
      | inr (j, e) ↦ cc (rw (miss, e) at h)
    ]
  ]

  pub get_elem?-count :
      (t : A → Bool) (xs : List A) (i : ℕ) (e : A)
      → get_elem? xs i ≡ some e
      → t e ≡ true
      → 0 < count t xs
  unfolding count
  get_elem?-count t [] i e h p = cc
  get_elem?-count t (x ∷ xs) zero e h p = let k : some x ≡ some e = h in ground (arith, k)
  get_elem?-count t (x ∷ xs) (suc i) e h p = omega (arith, get_elem?-count t xs i e h p)

  pub find?-eq-none : (t : A → Bool) (xs : List A) → find? t xs ≡ none → count t xs ≡ 0
  unfolding find? count
  find?-eq-none t [] h = refl
  find?-eq-none t (x ∷ xs) h = ground (arith, find?-eq-none t xs)

  -- A search in an array that was extended at its end.
  pub find?-append_one :
      (t : A → Bool) (xs : List A) (v : A)
      → count t xs ≡ 0
      → find? t (xs ++ v ∷ []) ≡ (if t v then some v else none)
  unfolding find? count
  find?-append_one t [] v h = refl
  find?-append_one t (x ∷ xs) v h = ground (arith, find?-append_one t xs v)

  pub find?-append_other :
      (t : A → Bool) (xs : List A) (v : A) → t v ≡ false → find? t (xs ++ v ∷ []) ≡ find? t xs
  unfolding find?
  find?-append_other t [] v h = rw h
  find?-append_other t (x ∷ xs) v h =
      ap (λ r. if t x then some x else r) (find?-append_other t xs v h)

  -- Replacing the entry that the search stops at replaces what it finds.
  pub find?-set_found :
      (t : A → Bool) (xs : List A) (i : ℕ) (v : A)
      → find_index t xs ≡ some i
      → t v ≡ true
      → find? t (set xs i v) ≡ some v
  unfolding find_index find?
  find?-set_found t [] i v h p = cc
  find?-set_found t (x ∷ xs) i v h p = elim (Bool-cases (t x)) [
    | inl hit ↦
        let k : some 0 ≡ some i = rw hit at h in let z : i ≡ 0 = ground (arith, k) in rw (z, p)
    | inr miss ↦ elim (Option-cases (find_index t xs)) [
      | inl e ↦ cc (rw (miss, e) at h)
      | inr (j, e) ↦
          let k : some (suc j) ≡ some i = rw (miss, e) at h in
          let z : i ≡ suc j = ground (arith, k) in rw (z, miss) (find?-set_found t xs j v e p)
    ]
  ]

  -- A loop that a branch depends on either finds nothing, or an element that passes the test.
  pub find_index-cases :
      (t : A → Bool) (xs : List A)
      → (find_index t xs ≡ none)
        ⊎ ((i : ℕ) × (e : A) × (find_index t xs ≡ some i)
            × (get_elem? xs i ≡ some e)
            × (t e ≡ true))
  find_index-cases t xs = elim (Option-cases (find_index t xs)) [
    | inl e ↦ inl e
    | inr (i, e) ↦ let (x, g, p) = find_index-get_elem? t xs i e in inr (i, x, e, g, p)
  ]

  -- The two forms of the loop stop at the same element.
  pub find?-find_index :
      (t : A → Bool) (xs : List A) (i : ℕ) (e : A)
      → find_index t xs ≡ some i
      → get_elem? xs i ≡ some e
      → find? t xs ≡ some e
  unfolding find_index find?
  find?-find_index t [] i e h at = cc
  find?-find_index t (x ∷ xs) i e h at = elim (Bool-cases (t x)) [
    | inl hit ↦
        let k : some 0 ≡ some i = rw hit at h in
        let z : i ≡ 0 = ground (arith, k) in rw hit (rw z at at)
    | inr miss ↦ elim (Option-cases (find_index t xs)) [
      | inl e' ↦ cc (rw (miss, e') at h)
      | inr (j, e') ↦
          let k : some (suc j) ≡ some i = rw (miss, e') at h in
          let z : i ≡ suc j = ground (arith, k) in
          rw miss (find?-find_index t xs j e e' (rw z at at))
    ]
  ]

  pub get_elem?-set_ne :
      (xs : List A) (i j : ℕ) (v : A) → i ≢ j → get_elem? (set xs i v) j ≡ get_elem? xs j
  get_elem?-set_ne [] i j v h = refl
  get_elem?-set_ne (x ∷ xs) zero zero v h = absurd (h refl)
  get_elem?-set_ne (x ∷ xs) zero (suc j) v h = refl
  get_elem?-set_ne (x ∷ xs) (suc i) zero v h = refl
  get_elem?-set_ne (x ∷ xs) (suc i) (suc j) v h = get_elem?-set_ne xs i j v (λ e. h (ap suc e))
