-- ===== src/Common/Removal.antt =====
-- Removing an element of an array by moving the last one into its place.
use Prim.Native.Nat.{ℕ, zero, suc, ◌+◌}
use mathlib.Core.Path.{◌≡◌, refl, ap}
use mathlib.Core.Bool.{Bool}
use mathlib.Core.List.{List, [], ◌∷◌, drop_last}
use mathlib.Core.Option.{some}
use native.Mathlib.Omega.{arith}
use wwn_iland.Common.Arrays.{bit, length, get_elem?, get_last, set, count, length-set}
use wwn_iland.Common.Search.{count-set}

module _ {ℓ} {A : Type ℓ} where
  get_last-set :
      (xs : List A) (i : ℕ) (d : A) → get_last (set xs i (get_last xs d)) d ≡ get_last xs d
  get_last-set [] i d = refl
  get_last-set (x ∷ []) zero d = refl
  get_last-set (x ∷ []) (suc i) d = refl
  get_last-set (x ∷ y ∷ xs) zero d = refl
  get_last-set (x ∷ y ∷ xs) (suc zero) d = get_last-set (y ∷ xs) zero d
  get_last-set (x ∷ y ∷ xs) (suc (suc i)) d = get_last-set (y ∷ xs) (suc i) d

  count-drop_last :
      (t : A → Bool) (x : A) (xs : List A) (d : A)
      → count t (drop_last (x ∷ xs)) + bit (t (get_last (x ∷ xs) d)) ≡ count t (x ∷ xs)
  unfolding count
  count-drop_last t x [] d = omega arith
  count-drop_last t x (y ∷ xs) d = omega (arith, count-drop_last t y xs d)

  -- Exactly the element at the index is gone.
  pub count-swap_remove :
      (t : A → Bool) (xs : List A) (i : ℕ) (e d : A)
      → get_elem? xs i ≡ some e
      → count t (drop_last (set xs i (get_last xs d))) + bit (t e) ≡ count t xs
  count-swap_remove t [] i e d h = cc
  count-swap_remove t (x ∷ xs) zero e d h = omega (
    arith,
    count-set t (x ∷ xs) zero e (get_last (x ∷ xs) d) h,
    count-drop_last t (get_last (x ∷ xs) d) xs d,
    ap (λ v. bit (t v)) (get_last-set (x ∷ xs) zero d),
  )
  count-swap_remove t (x ∷ xs) (suc i) e d h = omega (
    arith,
    count-set t (x ∷ xs) (suc i) e (get_last (x ∷ xs) d) h,
    count-drop_last t x (set xs i (get_last (x ∷ xs) d)) d,
    ap (λ v. bit (t v)) (get_last-set (x ∷ xs) (suc i) d),
  )

  length-drop_last : (x : A) (xs : List A) → length (drop_last (x ∷ xs)) + 1 ≡ length (x ∷ xs)
  length-drop_last x [] = omega arith
  length-drop_last x (y ∷ xs) = omega (arith, length-drop_last y xs)

  pub length-swap_remove :
      (xs : List A) (i : ℕ) (e d : A)
      → get_elem? xs i ≡ some e
      → length (drop_last (set xs i (get_last xs d))) + 1 ≡ length xs
  length-swap_remove [] i e d h = cc
  length-swap_remove (x ∷ xs) zero e d h = length-drop_last (get_last (x ∷ xs) d) xs
  length-swap_remove (x ∷ xs) (suc i) e d h = omega (
    arith,
    length-drop_last x (set xs i (get_last (x ∷ xs) d)),
    length-set xs i (get_last (x ∷ xs) d),
  )
