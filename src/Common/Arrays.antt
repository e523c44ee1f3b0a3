-- ===== src/Common/Arrays.antt =====
-- C arrays as lists with native indices, and the loops that search them.
use Prim.Native.Nat.{ℕ, zero, suc, ◌+◌, ◌≤◌}
use mathlib.Core.Path.{◌≡◌, refl, ap, ◌∙◌}
use mathlib.Core.Bool.{Bool, true, false}
use mathlib.Core.List.{List, [], ◌∷◌, ◌++◌}
use mathlib.Core.Option.{Option, none, some}
use native.Mathlib.Omega.{arith}
use wwn_iland.Common.Tests.{if◌then◌else◌, ◌==◌}

-- The number of true bits among one.
abbrev pub bit : Bool → ℕ
bit true = 1
bit false = 0

module _ {ℓ} {A : Type ℓ} where
  abbrev pub length : List A → ℕ
  length [] = 0
  length (x ∷ xs) = suc (length xs)

  abbrev pub get_elem? : List A → ℕ → Option A
  get_elem? [] i = none
  get_elem? (x ∷ xs) zero = some x
  get_elem? (x ∷ xs) (suc i) = get_elem? xs i

  abbrev pub get_or : List A → ℕ → A → A
  get_or [] i d = d
  get_or (x ∷ xs) zero d = x
  get_or (x ∷ xs) (suc i) d = get_or xs i d

  -- The last element of a used part that is not empty.
  abbrev pub get_last : List A → A → A
  get_last [] d = d
  get_last (x ∷ []) d = x
  get_last (x ∷ y ∷ xs) d = get_last (y ∷ xs) d

  abbrev pub set : List A → ℕ → A → List A
  set [] i v = []
  set (x ∷ xs) zero v = v ∷ xs
  set (x ∷ xs) (suc i) v = x ∷ set xs i v

  abbrev pub replicate : ℕ → A → List A
  replicate zero x = []
  replicate (suc n) x = x ∷ replicate n x

  -- `for (i = 0; i < n; i++) if (test(xs[i])) { found = i; break; }`
  unfoldable pub find_index : (A → Bool) → List A → Option ℕ
  find_index t [] = none
  find_index t (x ∷ xs) =
      if t x then some 0 else elim (find_index t xs) [ none ↦ none | some i ↦ some (suc i) ]

  -- The same loop, handing out the element.
  unfoldable pub find? : (A → Bool) → List A → Option A
  find? t [] = none
  find? t (x ∷ xs) = if t x then some x else find? t xs

  unfoldable pub count : (A → Bool) → List A → ℕ
  count t [] = 0
  count t (x ∷ xs) = bit (t x) + count t xs

  abbrev pub sum_by : (A → ℕ) → List A → ℕ
  sum_by f [] = 0
  sum_by f (x ∷ xs) = f x + sum_by f xs

  abbrev pub All {κ} : (A → Type κ) → List A → Type κ
  All P [] = Unit
  All P (x ∷ xs) = P x × All P xs

  pub length-set : (xs : List A) (i : ℕ) (v : A) → length (set xs i v) ≡ length xs
  length-set [] i v = refl
  length-set (x ∷ xs) zero v = refl
  length-set (x ∷ xs) (suc i) v = ap suc (length-set xs i v)

  pub length-append : (xs ys : List A) → length (xs ++ ys) ≡ length xs + length ys
  length-append [] ys = omega arith
  length-append (x ∷ xs) ys = omega (arith, length-append xs ys)

  pub All-set {κ} :
      (P : A → Type κ) (xs : List A) (i : ℕ) (v : A) → All P xs → P v → All P (set xs i v)
  All-set P [] i v h p = tt
  All-set P (x ∷ xs) zero v h p = (p, h.1)
  All-set P (x ∷ xs) (suc i) v h p = (h.0, All-set P xs i v h.1 p)

  pub All-get {κ} :
      (P : A → Type κ) (xs : List A) (i : ℕ) (e : A) → get_elem? xs i ≡ some e → All P xs → P e
  All-get P [] i e p h = cc
  All-get P (x ∷ xs) zero e p h = ground (arith, h.0)
  All-get P (x ∷ xs) (suc i) e p h = All-get P xs i e p h.1

  -- A write changes the sum by the old and the new element.
  pub sum_by-set :
      (f : A → ℕ) (xs : List A) (i : ℕ) (e v : A)
      → get_elem? xs i ≡ some e
      → sum_by f (set xs i v) + f e ≡ sum_by f xs + f v
  sum_by-set f [] i e v h = cc
  sum_by-set f (x ∷ xs) zero e v h = let k : some x ≡ some e = h in ground (arith, k)
  sum_by-set f (x ∷ xs) (suc i) e v h = omega (arith, sum_by-set f xs i e v h)

  pub sum_by-append : (f : A → ℕ) (xs ys : List A) → sum_by f (xs ++ ys) ≡ sum_by f xs + sum_by f ys
  sum_by-append f [] ys = omega arith
  sum_by-append f (x ∷ xs) ys = omega (arith, sum_by-append f xs ys)

  pub All-append_one {κ} :
      (P : A → Type κ) (xs : List A) (v : A) → All P xs → P v → All P (xs ++ v ∷ [])
  All-append_one P [] v h p = (p, tt)
  All-append_one P (x ∷ xs) v h p = (h.0, All-append_one P xs v h.1 p)

  pub get_or-append_one :
      (xs : List A) (v : A) (i : ℕ) (d : A)
      → get_or (xs ++ v ∷ []) i d ≡ (if length xs == i then v else get_or xs i d)
  get_or-append_one [] v zero d = refl
  get_or-append_one [] v (suc i) d = ground arith
  get_or-append_one (x ∷ xs) v zero d = ground arith
  get_or-append_one (x ∷ xs) v (suc i) d =
      get_or-append_one xs v i d
      ∙ (let s : (suc (length xs) == suc i) ≡ (length xs == i) = ground arith in rw s refl)

  pub get_or-beyond : (xs : List A) (i : ℕ) (d : A) → length xs ≤ i → get_or xs i d ≡ d
  get_or-beyond [] i d h = refl
  get_or-beyond (x ∷ xs) zero d h = absurd (omega arith)
  get_or-beyond (x ∷ xs) (suc i) d h = get_or-beyond xs i d (omega arith)

-- The first elements of a list, at most that many.
abbrev pub take {ℓ} : {A : Type ℓ} → ℕ → List A → List A
take zero xs = []
take (suc n) [] = []
take (suc n) (x ∷ xs) = x ∷ take n xs

pub take-few {ℓ} : {A : Type ℓ} (n : ℕ) (xs : List A) → length xs ≤ n → take n xs ≡ xs
take-few zero [] h = refl
take-few zero (x ∷ xs) h = absurd (omega (arith, h))
take-few (suc n) [] h = refl
take-few (suc n) (x ∷ xs) h = ap (λ zs. x ∷ zs) (take-few n xs (omega (arith, h)))
