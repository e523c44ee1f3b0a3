-- ===== src/Epoll/Shim/Counts.antt =====
-- Who holds references to the file descriptions of epoll_shim_ctx.c: the table, the epoll descriptors
-- that watch them, and the threads in a call.
use wwn_iland.Common.{
  ℕ, zero, suc, ◌+◌, ◌<◌, ◌≡◌, refl, ap, ◌∙◌, inl, inr, Bool, false, Option, none, some, List, [],
  ◌∷◌, arith, ◌==◌, if◌then◌else◌, Bool-cases, get_elem?, get_or, set, count, sum_by, sum_by-set,
  All, All-set,
}
use wwn_iland.Epoll.Shim.{Contexts, FileDescription, EpollShimCtx}
use wwn_iland.Epoll.Shim.References.{targets_of}

-- How often the description `a` is in a list.
abbrev pub tally : List ℕ → ℕ → ℕ
tally bs a = count (λ b. b == a) bs

abbrev pub names : ℕ → Option ℕ → Bool
names a none = false
names a (some b) = b == a

abbrev pub refcount_of : {C : Type 0} → Option (FileDescription C) → ℕ
refcount_of none = 0
refcount_of (some d) = d.refcount

abbrev pub IsAlive : {C : Type 0} → Option (FileDescription C) → Type 0
IsAlive none = Unit {0}
IsAlive (some d) = 0 < d.refcount

pub get_or-some {ℓ} :
    {A : Type ℓ} (xs : List (Option A)) (i : ℕ) (x : A)
    → get_or xs i none ≡ some x
    → get_elem? xs i ≡ some (some x)
get_or-some [] i x h = cc
get_or-some (y ∷ xs) zero x h = ap some h
get_or-some (y ∷ xs) (suc i) x h = get_or-some xs i x h

pub get_or-set_at {ℓ} :
    {A : Type ℓ} (xs : List (Option A)) (i j : ℕ) (e v : Option A)
    → get_elem? xs i ≡ some e
    → get_or (set xs i v) j none ≡ (if i == j then v else get_or xs j none)
get_or-set_at [] i j e v h = cc
get_or-set_at (y ∷ xs) zero zero e v h = refl
get_or-set_at (y ∷ xs) zero (suc j) e v h = ground arith
get_or-set_at (y ∷ xs) (suc i) zero e v h = ground arith
get_or-set_at (y ∷ xs) (suc i) (suc j) e v h =
    get_or-set_at xs i j e v h ∙ (let s : (suc i == suc j) ≡ (i == j) = ground arith in rw s refl)

module _ {C : Type 0} where
  -- A call on the descriptions leaves the table and what was closed.
  pub record Frame (s s' : EpollShimCtx C) : Type 0 where
    pub open_files : s'.open_files ≡ s.open_files
    pub writing : s'.writing ≡ s.writing
    pub closed : s'.closed ≡ s.closed

module _ {C : Type 0} (k : Contexts C) where
  abbrev pub kept_for : ℕ → Option (FileDescription C) → ℕ
  kept_for a none = 0
  kept_for a (some d) = tally (targets_of k d.ctx) a

  -- The references that the epoll descriptors hold.
  abbrev pub held : EpollShimCtx C → ℕ → ℕ
  held s a = sum_by (kept_for a) s.files

  -- `out a` references to `a` are held elsewhere, and no description without a reference is left.
  pub record IsKept (out : ℕ → ℕ) (s : EpollShimCtx C) : Type 0 where
    pub balance : (a : ℕ) → held s a + out a ≡ refcount_of (get_or s.files a none)
    pub alive : All IsAlive s.files

  pub rebalance :
      (out out' : ℕ → ℕ) (s : EpollShimCtx C)
      → ((a : ℕ) → out a ≡ out' a)
      → IsKept out s
      → IsKept out' s
  rebalance out out' s e v = record {
    balance = λ a. omega (arith, e a, v.balance a);
    alive = v.alive;
  }

  -- One description is replaced: the references that it keeps change, and its count.
  pub set-IsKept :
      (out out' : ℕ → ℕ) (s : EpollShimCtx C) (i : ℕ) (d : FileDescription C)
      (new : Option (FileDescription C))
      → IsKept out s
      → get_or s.files i none ≡ some d
      → IsAlive new
      → ((a : ℕ)
          → kept_for a new + out' a + (if i == a then d.refcount else 0)
            ≡ tally (targets_of k d.ctx) a + out a + (if i == a then refcount_of new else 0))
      → IsKept out' (record s { files = set s.files i new })
  set-IsKept out out' s i d new v g l e = record {
    balance = λ a.
        let at = get_or-some s.files i d g in
        let q = sum_by-set (kept_for a) s.files i (some d) new at in
        let r = ap refcount_of (get_or-set_at s.files i a (some d) new at) in
        elim (Bool-cases (i == a)) [
          | inl same ↦
              let z : i ≡ a = ground (arith, same) in
              let n : refcount_of (get_or s.files a none) ≡ d.refcount =
                rw (← z) (ap refcount_of g) in
              omega (arith, rw same at (e a), q, rw same at r, n, v.balance a)
          | inr other ↦ omega (arith, rw other at (e a), q, rw other at r, v.balance a)
        ];
    alive = All-set IsAlive s.files i new v.alive l;
  }

  -- The entries of the table that lead to `a`.
  abbrev pub slots : EpollShimCtx C → ℕ → ℕ
  slots s a = count (names a) s.open_files

  -- Every reference is one of the table, of an epoll descriptor, or one of the `out a` that the
  -- threads hold.
  abbrev pub IsBalanced : (ℕ → ℕ) → EpollShimCtx C → Type 0
  IsBalanced out s = IsKept (λ a. slots s a + out a) s
