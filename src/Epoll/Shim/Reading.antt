-- ===== src/Epoll/Shim/Reading.antt =====
-- epoll_shim_read and epoll_shim_write of epoll_shim_ctx.c: the reference that a call holds while it runs.
use wwn_iland.Common.{
  ℕ, ◌+◌, ◌<◌, ◌^◌, ◌≡◌, ◌⊎◌, refl, ◌∙◌, inl, inr, false, Option, none, some, arith, ltb, ◌==◌,
  if◌then◌else◌, Option-cases, either_on, bit, get_or, set, get_elem?-count, All-get, Outcome, fail,
  einval,
}
use wwn_iland.Epoll.Shim.{Contexts, IsCounting, FileDescription, EpollShimCtx}
use wwn_iland.Epoll.Shim.References.{file_description_ref}
use wwn_iland.Epoll.Shim.OpenFiles.{epoll_shim_ctx_find_desc}
use wwn_iland.Epoll.Shim.Calls.{transfer, use_desc, with_desc, epoll_shim_read, epoll_shim_write}
use wwn_iland.Epoll.Shim.Counts.{
  names, IsAlive, get_or-some, rebalance, set-IsKept, slots, IsBalanced,
}
use wwn_iland.Epoll.Shim.Balance.{held-some, unref-Unreffed}
use wwn_iland.Epoll.Shim.Creating.{one_of}

some-ne-none : {o : Option ℕ} {a : ℕ} → o ≡ some a → o ≡ none → ⊥
some-ne-none e n = cc

module _ {C : Type 0} (k : Contexts C) where
  -- epoll_shim_ctx_find_desc finds the entry of the table, and takes a reference for its caller.
  abbrev pub Finds : (ℕ → ℕ) → EpollShimCtx C → ℕ → Type 0
  Finds out s fd =
      ((get_or s.open_files fd none ≡ none) × (epoll_shim_ctx_find_desc s fd ≡ some (s, none)))
      ⊎ ((t : EpollShimCtx C) × (a : ℕ) × (get_or s.open_files fd none ≡ some a)
          × (epoll_shim_ctx_find_desc s fd ≡ some (t, some a))
          × (t.open_files ≡ s.open_files)
          × IsBalanced k (one_of out a) t)

  pub find_desc-Finds :
      (out : ℕ → ℕ) (s : EpollShimCtx C) (fd : ℕ) → IsBalanced k out s → Finds out s fd
  unfolding epoll_shim_ctx_find_desc file_description_ref
  find_desc-Finds out s fd v = elim (Option-cases (get_or s.open_files fd none)) [
    | inl e ↦ inl (e, rw (e, epoll_shim_ctx_find_desc) refl)
    | inr (a, e) ↦
        let named =
          get_elem?-count (names a) s.open_files fd (some a) (get_or-some s.open_files fd a e)
            (ground arith) in
        let (d, g, p) = held-some k (λ b. slots k s b + out b) s a v (omega (arith, named)) in
        let z : (d.refcount == 0) ≡ false = ground (arith, p) in
        let new = record d { refcount = d.refcount + 1 } in
        let w =
          set-IsKept k (λ b. slots k s b + out b) (λ b. slots k s b + one_of out a b) s a d
            (some new) v g (omega arith) (λ b. ground arith) in
        inr (
          record s { files = set s.files a (some new) },
          a,
          e,
          rw (e, epoll_shim_ctx_find_desc)
              (rw (g, file_description_ref, epoll_shim_ctx_find_desc) (rw z refl)),
          refl,
          record { balance = w.balance; alive = w.alive },
        )
  ]

  live :
      (out : ℕ → ℕ) (d : FileDescription C) (a : ℕ) (s : EpollShimCtx C)
      → IsBalanced k out s
      → get_or s.files a none ≡ some d
      → 0 < d.refcount
  live out d a s v e = All-get IsAlive s.files a (some d) (get_or-some s.files a d e) v.alive

  pub transfer-IsBalanced :
      (out : ℕ → ℕ) (fun : C → C × Outcome ℕ) (s : EpollShimCtx C) (a : ℕ)
      → ((c : C) → k.targets (fun c).0 ≡ k.targets c)
      → IsBalanced k out s
      → IsBalanced k out (transfer fun s a).0 × ((transfer fun s a).0.open_files ≡ s.open_files)
  unfolding transfer
  transfer-IsBalanced out fun s a h v = elim (Option-cases (get_or s.files a none)) [
    | inl e ↦ rw (e, transfer) (v, refl)
    | inr (d, e) ↦ elim (Option-cases d.ctx) [
      | inl n ↦ rw (e, transfer) (rw (n, transfer) (v, refl))
      | inr (c, n) ↦
          rw (e, transfer)
            (rw (n, transfer)
              (
                record {
                  balance =
                      (set-IsKept k (λ b. slots k s b + out b) (λ b. slots k s b + out b) s a d
                        (some (record d { ctx = some (fun c).0 })) v e (live out d a s v e)
                        (λ b. rw (n, h c) refl)).balance;
                  alive =
                      (set-IsKept k (λ b. slots k s b + out b) (λ b. slots k s b + out b) s a d
                        (some (record d { ctx = some (fun c).0 })) v e (live out d a s v e)
                        (λ b. rw (n, h c) refl)).alive;
                },
                refl,
              ))
    ]
  ]

  -- A call that reads or writes leaves the references and the table as they were, whatever the
  -- context answers: the one that it takes for itself it gives back.
  pub record Uses (out : ℕ → ℕ) (s : EpollShimCtx C) (fd : ℕ) (real : Outcome ℕ)
      (r : EpollShimCtx C × Outcome ℕ) : Type 0 where
    pub balanced : IsBalanced k out r.0
    pub open_files : r.0.open_files ≡ s.open_files
    pub passed_on : get_or s.open_files fd none ≡ none → r ≡ (s, real)

  use_desc-IsBalanced :
      (out : ℕ → ℕ) (fun : C → C × Outcome ℕ) (nbytes : ℕ) (t : EpollShimCtx C) (a : ℕ)
      → ((c : C) → k.targets (fun c).0 ≡ k.targets c)
      → IsBalanced k (one_of out a) t
      → IsBalanced k out (use_desc k fun nbytes t a).0
        × ((use_desc k fun nbytes t a).0.open_files ≡ t.open_files)
  unfolding use_desc
  use_desc-IsBalanced out fun nbytes t a h v =
      let r = if ltb nbytes (2 ^ 63) then transfer fun t a else (t, fail einval) in
      let (w, same) =
        either_on
          (λ (r : EpollShimCtx C × Outcome ℕ).
            IsBalanced k (one_of out a) r.0 × (r.0.open_files ≡ t.open_files))
          (ltb nbytes (2 ^ 63)) (transfer fun t a) (t, fail einval)
          (λ e. transfer-IsBalanced (one_of out a) fun t a h v) (λ e. (v, refl)) in
      let u =
        unref-Unreffed k (λ b. slots k r.0 b + out b) r.0 a
          (rebalance k (λ b. slots k r.0 b + one_of out a b)
            (λ b. slots k r.0 b + out b + bit (a == b)) r.0 (λ b. omega arith) w) in
      let f = u.frame.open_files in
      rw (u.result, use_desc)
        (record { balance = λ b. rw f (u.balanced.balance b); alive = u.balanced.alive }, f ∙ same)

  with_desc-Uses :
      (out : ℕ → ℕ) (fun : C → C × Outcome ℕ) (nbytes : ℕ) (real : Outcome ℕ) (s : EpollShimCtx C)
      (fd : ℕ)
      → ((c : C) → k.targets (fun c).0 ≡ k.targets c)
      → IsBalanced k out s
      → Uses out s fd real (with_desc k fun nbytes real s fd)
  unfolding with_desc
  with_desc-Uses out fun nbytes real s fd h v = elim (find_desc-Finds out s fd v) [
    | inl (e, f) ↦
        rw (f, with_desc) (record { balanced = v; open_files = refl; passed_on = λ n. refl })
    | inr (t, a, e, f, same, w) ↦
        let (b, o) = use_desc-IsBalanced out fun nbytes t a h w in
        rw (f, with_desc)
          (record {
            balanced = b;
            open_files = o ∙ same;
            passed_on = λ n. absurd (some-ne-none e n);
          })
  ]

  pub read-Uses :
      (out : ℕ → ℕ) (nbytes : ℕ) (real : Outcome ℕ) (s : EpollShimCtx C) (fd : ℕ)
      → IsCounting k
      → IsBalanced k out s
      → Uses out s fd real (epoll_shim_read k nbytes real s fd)
  unfolding epoll_shim_read
  read-Uses out nbytes real s fd law v =
      with_desc-Uses out (λ c. k.read_fun c nbytes) nbytes real s fd
        (λ c. law.read_fun_targets c nbytes) v

  pub write-Uses :
      (out : ℕ → ℕ) (nbytes : ℕ) (real : Outcome ℕ) (s : EpollShimCtx C) (fd : ℕ)
      → IsCounting k
      → IsBalanced k out s
      → Uses out s fd real (epoll_shim_write k nbytes real s fd)
  unfolding epoll_shim_write
  write-Uses out nbytes real s fd law v =
      with_desc-Uses out (λ c. k.write_fun c nbytes) nbytes real s fd
        (λ c. law.write_fun_targets c nbytes) v
