-- ===== src/Epoll/Shim/Creating.antt =====
-- Making a description in epoll_shim_ctx_create_desc of epoll_shim_ctx.c, and clearing what a plain
-- close() left in the table.
use wwn_iland.Common.{
  ℕ, ◌+◌, ◌<◌, ◌^◌, ◌≡◌, refl, sym, ap, ◌∙◌, inl, inr, true, false, Option, none, some, List, [],
  ◌∷◌, arith, ◌==◌, Bool-cases, Option-cases, bit, length, get_or, set, count, count-set,
  sum_by-append, All-append_one, get_or-append_one, get_or-beyond, length-set, Outcome, ok, fail,
  aborted, blocks, fault,
}
use wwn_iland.Epoll.Shim.{Contexts, EpollShimCtx}
use wwn_iland.Epoll.Shim.References.{file_description_create}
use wwn_iland.Epoll.Shim.OpenFiles.{
  Resources, give_up, clear_stale, create_at, epoll_shim_ctx_create_desc,
}
use wwn_iland.Epoll.Shim.Counts.{
  names, refcount_of, IsAlive, get_or-some, get_or-set_at, kept_for, IsKept, rebalance, slots,
  IsBalanced,
}
use wwn_iland.Epoll.Shim.Balance.{unref-Unreffed}
use wwn_iland.Epoll.Shim.Room.{make_room-Roomy}

abbrev pub one_of : (ℕ → ℕ) → ℕ → ℕ → ℕ
one_of out a b = out b + bit (a == b)

-- The answers of kqueue1: a descriptor is an `int`.
abbrev pub IsDescriptor : Outcome ℕ → Type 0
IsDescriptor (ok kq) = kq < 2 ^ 31
IsDescriptor (fail e) = Unit {0}
IsDescriptor blocks = ⊥
IsDescriptor fault = ⊥
IsDescriptor aborted = ⊥

module _ {C : Type 0} (k : Contexts C) where
  -- An entry leaves the table: its reference is one that is held elsewhere now.
  pub slots-clear :
      (out : ℕ → ℕ) (s : EpollShimCtx C) (fd a : ℕ)
      → get_or s.open_files fd none ≡ some a
      → IsBalanced k out s
      → IsKept k (λ b. count (names b) (set s.open_files fd none) + out b + bit (a == b)) s
  slots-clear out s fd a g v =
      rebalance k (λ b. slots k s b + out b)
        (λ b. count (names b) (set s.open_files fd none) + out b + bit (a == b)) s
        (λ b. omega (
          arith,
          count-set (names b) s.open_files fd (some a) none (get_or-some s.open_files fd a g),
        ))
        v

  record Cleared (out : ℕ → ℕ) (s : EpollShimCtx C) (kq : ℕ) : Type 0 where
    after : EpollShimCtx C
    result : clear_stale k s kq ≡ some after
    balanced : IsBalanced k out after
    empty : get_or after.open_files kq none ≡ none
    size : length after.open_files ≡ length s.open_files
    writing : after.writing ≡ s.writing
    closed : after.closed ≡ s.closed

  clear_stale-Cleared :
      (out : ℕ → ℕ) (s : EpollShimCtx C) (kq : ℕ) → IsBalanced k out s → Cleared out s kq
  unfolding clear_stale
  clear_stale-Cleared out s kq v = elim (Option-cases (get_or s.open_files kq none)) [
    | inl e ↦ record {
      after = s;
      result = rw (e, clear_stale) refl;
      balanced = v;
      empty = e;
      size = refl;
      writing = refl;
      closed = refl;
    }
    | inr (a, e) ↦
        let u =
          unref-Unreffed k (λ b. count (names b) (set s.open_files kq none) + out b) s a
            (slots-clear out s kq a e v) in
        let t = u.frame.open_files in
        record {
          after = record u.after { open_files = set u.after.open_files kq none };
          result = rw (e, clear_stale) (rw (u.result, clear_stale) refl);
          balanced = record {
            balance = λ b. rw t (u.balanced.balance b);
            alive = u.balanced.alive;
          };
          empty =
              get_or-set_at u.after.open_files kq kq (some a) none
                (rw t (get_or-some s.open_files kq a e))
              ∙ ground arith;
          size = length-set u.after.open_files kq none ∙ ap (λ (xs : List (Option ℕ)). length xs) t;
          writing = u.frame.writing;
          closed = u.frame.closed;
        }
  ]

  -- A new description, which its maker holds.
  create-IsBalanced :
      (out : ℕ → ℕ) (s : EpollShimCtx C)
      → IsBalanced k out s
      → IsBalanced k (one_of out (length s.files)) (file_description_create s).0
  unfolding file_description_create count
  create-IsBalanced out s v = record {
    balance = λ a.
        let new = some (record { refcount = 1; flags = false; ctx = none }) in
        let q = sum_by-append (kept_for k a) s.files (new ∷ []) in
        let g = ap refcount_of (get_or-append_one s.files new a none) in
        elim (Bool-cases (length s.files == a)) [
          | inl same ↦
              let z : length s.files ≡ a = ground (arith, same) in
              let o = ap refcount_of (get_or-beyond s.files a none (omega arith)) in
              rw same (omega (arith, v.balance a, q, rw same at g, o))
          | inr other ↦ rw other (omega (arith, v.balance a, q, rw other at g))
        ];
    alive =
        All-append_one IsAlive s.files (some (record { refcount = 1; flags = false; ctx = none }))
          v.alive (omega arith);
  }

  -- What a failure leaves of the answer of kqueue1, where `was` are the descriptors given to
  -- real_close before: the new descriptor goes there, too, and leads nowhere.
  abbrev pub NothingLeft : (was : List ℕ) → (kqueue1 : Outcome ℕ) → EpollShimCtx C → Type 0
  NothingLeft was (ok kq) s' = (s'.closed ≡ kq ∷ was) × (get_or s'.open_files kq none ≡ none)
  NothingLeft was (fail e) s' = s'.closed ≡ was
  NothingLeft was r s' = ⊥

  -- A new description and a free entry of the table for it, under the lock; or an error, and the
  -- lock is given up.
  abbrev pub Created :
      (ℕ → ℕ) → (was : List ℕ) → (kqueue1 : Outcome ℕ) → EpollShimCtx C × Outcome (ℕ × ℕ) → Type 0
  Created out was kqueue1 (s', ok (kq, d)) =
      IsBalanced k (one_of out d) s'
      × (kq < length s'.open_files)
      × (get_or s'.open_files kq none ≡ none)
      × (get_or s'.files d none ≡ some (record { refcount = 1; flags = false; ctx = none }))
      × (s'.closed ≡ was)
      × (kqueue1 ≡ ok kq)
  Created out was kqueue1 (s', fail e) =
      IsBalanced k out s' × (s'.writing ≡ false) × NothingLeft was kqueue1 s'
  Created out was kqueue1 (s', blocks) = ⊥
  Created out was kqueue1 (s', fault) = ⊥
  Created out was kqueue1 (s', aborted) = ⊥

  give_up-IsBalanced :
      (out : ℕ → ℕ) (s : EpollShimCtx C) (kq : ℕ)
      → IsBalanced k out s
      → IsBalanced k out (give_up s kq)
  give_up-IsBalanced out s kq v = record { balance = v.balance; alive = v.alive }

  create_at-Created :
      (out : ℕ → ℕ) (r : Resources) (s : EpollShimCtx C) (kq : ℕ)
      → IsBalanced k out s
      → kq < length s.open_files
      → Created out s.closed (ok kq) (create_at k r s kq)
  unfolding create_at file_description_create
  create_at-Created out r s kq v h =
      let c = clear_stale-Cleared out s kq v in
      elim (Bool-cases (r.create_error == 0)) [
        | inl z ↦
            rw (c.result, create_at)
              (rw z (
                create-IsBalanced out c.after c.balanced,
                omega (arith, c.size),
                c.empty,
                get_or-append_one c.after.files
                      (some (record { refcount = 1; flags = false; ctx = none }))
                      (length c.after.files) none
                    ∙ ground arith,
                c.closed,
                refl,
              ))
        | inr z ↦
            rw (c.result, create_at)
              (rw z (
                give_up-IsBalanced out c.after kq c.balanced,
                refl,
                (ap (λ fds. kq ∷ fds) c.closed, c.empty),
              ))
      ]

  pub create_desc-Created :
      (out : ℕ → ℕ) (kqueue1 : Outcome ℕ) (r : Resources) (s : EpollShimCtx C)
      → r.kqueue1 ≡ kqueue1
      → IsDescriptor kqueue1
      → IsBalanced k out s
      → Created out s.closed kqueue1 (epoll_shim_ctx_create_desc k r s)
  unfolding epoll_shim_ctx_create_desc
  create_desc-Created out (ok kq) r s e h v =
      let t : EpollShimCtx C = record s { writing = true } in
      let w : IsBalanced k out t = record { balance = v.balance; alive = v.alive } in
      elim (make_room-Roomy k out r t kq w h) [
        | inl (s', m, y) ↦
            rw (e, epoll_shim_ctx_create_desc)
              (rw (m, epoll_shim_ctx_create_desc)
                (rw (sym y.closed) (create_at-Created out r s' kq y.balanced y.room)))
        | inr (n, beyond, m) ↦
            rw (e, epoll_shim_ctx_create_desc)
              (rw (m, epoll_shim_ctx_create_desc)
                (
                  give_up-IsBalanced out t kq w,
                  refl,
                  (refl, get_or-beyond s.open_files kq none beyond),
                ))
      ]
  create_desc-Created out (fail x) r s e h v =
      rw (e, epoll_shim_ctx_create_desc)
        (record { balance = v.balance; alive = v.alive }, refl, refl)
  create_desc-Created out blocks r s e h v = absurd h
  create_desc-Created out fault r s e h v = absurd h
  create_desc-Created out aborted r s e h v = absurd h
