-- ===== src/Epoll/Shim/Opening.antt =====
-- Making a descriptor in epoll_shim_ctx.c: who holds the references at each step.
use wwn_iland.Common.{
  ℕ, zero, suc, ◌+◌, ◌<◌, ◌≡◌, refl, ap, ◌∙◌, Bool, true, false, Option, none, some, List, [], ◌∷◌,
  arith, ltb, ◌==◌, bit, length, get_elem?, get_or, set, count, count-set, Outcome, ok, fail,
  aborted, blocks, fault,
}
use wwn_iland.Epoll.Shim.{Contexts, EpollShimCtx}
use wwn_iland.Epoll.Shim.References.{targets_of}
use wwn_iland.Epoll.Shim.OpenFiles.{
  Resources, epoll_shim_ctx_install_desc, set_ctx, epoll_shim_ctx_create_desc,
  epoll_shim_ctx_drop_desc, finish_open, open_desc,
}
use wwn_iland.Epoll.Shim.Counts.{
  names, get_or-some, get_or-set_at, rebalance, set-IsKept, slots, IsBalanced,
}
use wwn_iland.Epoll.Shim.Balance.{unref-Unreffed}
use wwn_iland.Epoll.Shim.Creating.{one_of, Created, NothingLeft, IsDescriptor, create_desc-Created}

free_entry {ℓ} :
    {A : Type ℓ} (xs : List (Option A)) (i : ℕ)
    → i < length xs
    → get_or xs i none ≡ none
    → get_elem? xs i ≡ some none
free_entry [] i h e = absurd (omega arith)
free_entry (x ∷ xs) zero h e = ap some e
free_entry (x ∷ xs) (suc i) h e = free_entry xs i (omega arith) e

module _ {C : Type 0} (k : Contexts C) where
  -- The init functions: a new context keeps no reference.
  abbrev pub IsInit : Outcome C → Type 0
  IsInit (ok c) = k.targets c ≡ []
  IsInit (fail e) = Unit {0}
  IsInit blocks = ⊥
  IsInit fault = ⊥
  IsInit aborted = ⊥

  -- The descriptor leads to a description with the context and the flag, which nothing else refers to.
  abbrev pub LeadsTo : EpollShimCtx C → ℕ → Bool → Outcome C → Type 0
  LeadsTo s fd flags (ok c) =
      (d : ℕ) × (get_or s.open_files fd none ≡ some d)
      × (get_or s.files d none ≡ some (record { refcount = 1; flags = flags; ctx = some c }))
  LeadsTo s fd flags made = ⊥

  -- `was` are the descriptors that were given to real_close before.
  abbrev pub Answer :
      (was : List ℕ)
      → (kqueue1 : Outcome ℕ) → EpollShimCtx C
      → Bool
      → Outcome C
      → Outcome ℕ
      → Type 0
  Answer was kqueue1 s flags made (ok fd) =
      LeadsTo s fd flags made × (s.closed ≡ was) × (kqueue1 ≡ ok fd)
  Answer was kqueue1 s flags made (fail e) = NothingLeft k was kqueue1 s
  Answer was kqueue1 s flags made r = ⊥

  abbrev pub Opened :
      (ℕ → ℕ)
      → (was : List ℕ) → (kqueue1 : Outcome ℕ) → Bool
      → Outcome C
      → EpollShimCtx C × Outcome ℕ
      → Type 0
  Opened out was kqueue1 flags made r =
      IsBalanced k out r.0 × (r.0.writing ≡ false) × Answer was kqueue1 r.0 flags made r.1

  set_ctx-IsBalanced :
      (out : ℕ → ℕ) (s : EpollShimCtx C) (d : ℕ) (flags : Bool) (ctx : Option C)
      → IsBalanced k out s
      → get_or s.files d none ≡ some (record { refcount = 1; flags = false; ctx = none })
      → targets_of k ctx ≡ []
      → IsBalanced k out (set_ctx s d flags ctx)
  unfolding set_ctx count
  set_ctx-IsBalanced out s d flags ctx v g e =
      rw (g, set_ctx)
        (set-IsKept k (λ b. slots k s b + out b) (λ b. slots k s b + out b) s d
          (record { refcount = 1; flags = false; ctx = none })
          (some (record { refcount = 1; flags = flags; ctx = ctx })) v g (omega arith)
          (λ b. rw e (omega arith)))

  set_ctx-fields :
      (s : EpollShimCtx C) (d : ℕ) (flags : Bool) (ctx : Option C)
      → get_or s.files d none ≡ some (record { refcount = 1; flags = false; ctx = none })
      → ((set_ctx s d flags ctx).open_files ≡ s.open_files)
        × ((set_ctx s d flags ctx).closed ≡ s.closed)
        × (get_or (set_ctx s d flags ctx).files d none
            ≡ some (record { refcount = 1; flags = flags; ctx = ctx }))
  unfolding set_ctx
  set_ctx-fields s d flags ctx g =
      rw (g, set_ctx)
        (
          refl,
          refl,
          get_or-set_at s.files d d (some (record { refcount = 1; flags = false; ctx = none }))
                (some (record { refcount = 1; flags = flags; ctx = ctx }))
                (get_or-some s.files d (record { refcount = 1; flags = false; ctx = none }) g)
              ∙ ground arith,
        )

  -- The entry that epoll_shim_ctx_install_desc writes takes over the reference of the maker.
  installed-IsBalanced :
      (out : ℕ → ℕ) (t : EpollShimCtx C) (fd d : ℕ)
      → IsBalanced k (one_of out d) t
      → fd < length t.open_files
      → get_or t.open_files fd none ≡ none
      → IsBalanced k out (record t { open_files = set t.open_files fd (some d); writing = false })
  installed-IsBalanced out t fd d v room empty = record {
    balance = λ b. omega (
      arith,
      v.balance b,
      count-set (names b) t.open_files fd none (some d) (free_entry t.open_files fd room empty),
    );
    alive = v.alive;
  }

  finish_open-Opened :
      (out : ℕ → ℕ) (was : List ℕ) (kqueue1 : Outcome ℕ) (flags : Bool) (made : Outcome C)
      (c : EpollShimCtx C × Outcome (ℕ × ℕ))
      → IsInit made
      → Created k out was kqueue1 c
      → Opened out was kqueue1 flags made (finish_open k flags made c)
  unfolding finish_open epoll_shim_ctx_install_desc epoll_shim_ctx_drop_desc
  finish_open-Opened out was kqueue1 flags (ok ctx) (s, ok (fd, d)) i
        (v, room, empty, new, closed, given) =
      let (same, kept, at) = set_ctx-fields s d flags (some ctx) new in
      let t = set_ctx s d flags (some ctx) in
      let size : fd < length t.open_files = rw same room in
      let free : get_or t.open_files fd none ≡ none = rw same empty in
      let z : ltb fd (length t.open_files) ≡ true = ground (arith, size) in
      rw (z, finish_open, epoll_shim_ctx_install_desc)
        (
          installed-IsBalanced out t fd d
              (set_ctx-IsBalanced (one_of out d) s d flags (some ctx) v new i) size free,
          refl,
          (
            (
              d,
              get_or-set_at t.open_files fd fd none (some d) (free_entry t.open_files fd size free)
                  ∙ ground arith,
              at,
            ),
            kept ∙ closed,
            given,
          ),
        )
  finish_open-Opened out was kqueue1 flags (fail e) (s, ok (fd, d)) i
        (v, room, empty, new, closed, given) =
      let w = set_ctx-IsBalanced (one_of out d) s d flags none v new refl in
      let u =
        unref-Unreffed k (λ b. slots k (set_ctx s d flags none) b + out b) (set_ctx s d flags none)
          d
          (rebalance k (λ b. slots k (set_ctx s d flags none) b + one_of out d b)
            (λ b. slots k (set_ctx s d flags none) b + out b + bit (d == b))
            (set_ctx s d flags none) (λ b. omega arith) w) in
      let f = u.frame.open_files in
      let (same, kept, at) = set_ctx-fields s d flags none new in
      rw (u.result, finish_open, epoll_shim_ctx_drop_desc)
        (
          record { balance = λ b. rw f (u.balanced.balance b); alive = u.balanced.alive },
          refl,
          rw (given) (
            ap (λ fds. fd ∷ fds) (u.frame.closed ∙ kept ∙ closed),
            ap (λ (xs : List (Option ℕ)). get_or xs fd none) (f ∙ same) ∙ empty,
          ),
        )
  finish_open-Opened out was kqueue1 flags blocks c i v = absurd i
  finish_open-Opened out was kqueue1 flags fault c i v = absurd i
  finish_open-Opened out was kqueue1 flags aborted c i v = absurd i
  finish_open-Opened out was kqueue1 flags (ok ctx) (s, fail x) i v = v
  finish_open-Opened out was kqueue1 flags (fail e) (s, fail x) i v = v
  finish_open-Opened out was kqueue1 flags made (s, blocks) i v = absurd v
  finish_open-Opened out was kqueue1 flags made (s, fault) i v = absurd v
  finish_open-Opened out was kqueue1 flags made (s, aborted) i v = absurd v

  -- Whatever the system answers, making a descriptor trips no assertion, gives up the lock, and leaves
  -- every reference counted, where they were before. Either the descriptor of kqueue1 leads to a new
  -- description with the context and the flag, which only the table refers to; or the call fails,
  -- and the descriptor is given to real_close, once, and leads nowhere.
  pub open_desc-Opened :
      (out : ℕ → ℕ) (r : Resources) (flags : Bool) (made : Outcome C) (s : EpollShimCtx C)
      → IsDescriptor r.kqueue1
      → IsInit made
      → IsBalanced k out s
      → Opened out s.closed r.kqueue1 flags made (open_desc k r flags made s)
  unfolding open_desc
  open_desc-Opened out r flags made s h i v =
      finish_open-Opened out s.closed r.kqueue1 flags made (epoll_shim_ctx_create_desc k r s) i
        (create_desc-Created k out r.kqueue1 r s refl h v)
