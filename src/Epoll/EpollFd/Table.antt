-- ===== src/Epoll/EpollFd/Table.antt =====
-- What epollfd_ctx.c uses of the red-black tree `registered_fds_set_` of epollfd_ctx.h, whose macros are
-- a library: the tree holds the nodes by their descriptors.
use wwn_iland.Common.{
  ℕ, bit, zero, suc, ◌+◌, ◌≡◌, refl, Bool, Option, none, some, List, [], ◌∷◌, arith, if◌then◌else◌,
  ◌==◌,
}
use wwn_iland.Epoll.EpollFd.{Node}

-- RB_FIND, RB_INSERT of a node whose descriptor is not in the tree, RB_REMOVE, and a write through
-- the pointer to a node of the tree.
pub record NodeTree (T : Type 0) : Type 0 where
  pub find : T → (fd : ℕ) → Option Node
  pub insert : T → Node → T
  pub remove : T → (fd : ℕ) → T
  pub write : T → Node → T
  pub count_if : (Node → Bool) → T → ℕ
  pub find-insert :
      (t : T) (n : Node) (fd : ℕ)
      → find t n.fd ≡ none
      → find (insert t n) fd ≡ (if n.fd == fd then some n else find t fd)
  pub find-remove :
      (t : T) (i fd : ℕ) → find (remove t i) fd ≡ (if i == fd then none else find t fd)
  pub find-write :
      (t : T) (n old : Node) (fd : ℕ)
      → find t n.fd ≡ some old
      → find (write t n) fd ≡ (if n.fd == fd then some n else find t fd)
  pub count_if-insert :
      (p : Node → Bool) (t : T) (n : Node)
      → find t n.fd ≡ none
      → count_if p (insert t n) ≡ count_if p t + bit (p n)
  pub count_if-remove :
      (p : Node → Bool) (t : T) (i : ℕ) (n : Node)
      → find t i ≡ some n
      → count_if p (remove t i) + bit (p n) ≡ count_if p t
  pub count_if-write :
      (p : Node → Bool) (t : T) (n old : Node)
      → find t n.fd ≡ some old
      → count_if p (write t n) + bit (p old) ≡ count_if p t + bit (p n)

-- An array indexed by the descriptor.
module _ {A : Type 0} where
  abbrev pub get : List (Option A) → ℕ → Option A
  get [] i = none
  get (x ∷ xs) zero = x
  get (x ∷ xs) (suc i) = get xs i

  abbrev pub put : List (Option A) → ℕ → A → List (Option A)
  put [] zero v = some v ∷ []
  put [] (suc i) v = none ∷ put [] i v
  put (x ∷ xs) zero v = some v ∷ xs
  put (x ∷ xs) (suc i) v = x ∷ put xs i v

  abbrev pub drop_at : List (Option A) → ℕ → List (Option A)
  drop_at [] i = []
  drop_at (x ∷ xs) zero = none ∷ xs
  drop_at (x ∷ xs) (suc i) = x ∷ drop_at xs i

  abbrev pub used : (A → Bool) → Option A → ℕ
  used p none = 0
  used p (some x) = bit (p x)

  abbrev pub number : (A → Bool) → List (Option A) → ℕ
  number p [] = 0
  number p (x ∷ xs) = used p x + number p xs

  pub get-put :
      (xs : List (Option A)) (i j : ℕ) (v : A)
      → get (put xs i v) j ≡ (if i == j then some v else get xs j)
  get-put [] zero zero v = refl
  get-put [] zero (suc j) v = ground arith
  get-put [] (suc i) zero v = ground arith
  get-put [] (suc i) (suc j) v = ground (arith, get-put [] i j v)
  get-put (x ∷ xs) zero zero v = refl
  get-put (x ∷ xs) zero (suc j) v = ground arith
  get-put (x ∷ xs) (suc i) zero v = ground arith
  get-put (x ∷ xs) (suc i) (suc j) v = ground (arith, get-put xs i j v)

  pub get-drop_at :
      (xs : List (Option A)) (i j : ℕ) → get (drop_at xs i) j ≡ (if i == j then none else get xs j)
  get-drop_at [] i j = ground arith
  get-drop_at (x ∷ xs) zero zero = refl
  get-drop_at (x ∷ xs) zero (suc j) = ground arith
  get-drop_at (x ∷ xs) (suc i) zero = ground arith
  get-drop_at (x ∷ xs) (suc i) (suc j) = ground (arith, get-drop_at xs i j)

  pub number-put-new :
      (p : A → Bool) (xs : List (Option A)) (i : ℕ) (v : A)
      → get xs i ≡ none
      → number p (put xs i v) ≡ number p xs + bit (p v)
  number-put-new p [] zero v h = omega arith
  number-put-new p [] (suc i) v h = omega (arith, number-put-new p [] i v refl)
  number-put-new p (none ∷ xs) zero v h = omega arith
  number-put-new p (some x ∷ xs) zero v h = absurd (ground (arith, h))
  number-put-new p (x ∷ xs) (suc i) v h = omega (arith, number-put-new p xs i v h)

  pub number-put-old :
      (p : A → Bool) (xs : List (Option A)) (i : ℕ) (v old : A)
      → get xs i ≡ some old
      → number p (put xs i v) + bit (p old) ≡ number p xs + bit (p v)
  number-put-old p [] i v old h = absurd (ground (arith, h))
  number-put-old p (none ∷ xs) zero v old h = absurd (ground (arith, h))
  number-put-old p (some x ∷ xs) zero v old h =
      let same : x ≡ old = ground (arith, h) in rw (same) (omega arith)
  number-put-old p (x ∷ xs) (suc i) v old h = omega (arith, number-put-old p xs i v old h)

  pub number-drop_at :
      (p : A → Bool) (xs : List (Option A)) (i : ℕ) (old : A)
      → get xs i ≡ some old
      → number p (drop_at xs i) + bit (p old) ≡ number p xs
  number-drop_at p [] i old h = absurd (ground (arith, h))
  number-drop_at p (none ∷ xs) zero old h = absurd (ground (arith, h))
  number-drop_at p (some x ∷ xs) zero old h =
      let same : x ≡ old = ground (arith, h) in rw (same) (omega arith)
  number-drop_at p (x ∷ xs) (suc i) old h = omega (arith, number-drop_at p xs i old h)

-- The tree as such an array.
unfoldable pub array_tree : NodeTree (List (Option Node))
array_tree = record {
  find = get;
  insert = λ t n. put t n.fd n;
  remove = drop_at;
  write = λ t n. put t n.fd n;
  count_if = number;
  find-insert = λ t n fd h. get-put t n.fd fd n;
  find-remove = get-drop_at;
  find-write = λ t n old fd h. get-put t n.fd fd n;
  count_if-insert = λ p t n h. number-put-new p t n.fd n h;
  count_if-remove = number-drop_at;
  count_if-write = λ p t n old h. number-put-old p t n.fd n old h;
}
