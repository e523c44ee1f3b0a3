-- ===== src/Epoll/Shim/Balance.antt =====
-- Giving back references in epoll_shim_ctx.c: no description is freed that is still referred to, and
-- the last reference frees it with all that it kept.
use wwn_iland.Common.{
  ℕ, zero, suc, ◌+◌, ◌-◌, ◌<◌, ◌≤◌, ◌≡◌, refl, ap, ◌∙◌, inl, inr, false, Option, none, some, List,
  [], ◌∷◌, ◌++◌, arith, ◌==◌, Bool-cases, Option-cases, bit, length, get_or, set, count,
  count-append, sum_by-set, length-append,
}
use wwn_iland.Epoll.Shim.{Contexts, FileDescription, EpollShimCtx}
use wwn_iland.Epoll.Shim.References.{
  targets_of, close_error, unref_one, kept_by, kept, release_on, release, file_description_unref,
}
use wwn_iland.Epoll.Shim.Counts.{
  tally, refcount_of, get_or-some, IsKept, Frame, rebalance, set-IsKept,
}

module _ {C : Type 0} (k : Contexts C) where
  pub Frame-refl : (s : EpollShimCtx C) → Frame s s
  Frame-refl s = record { open_files = refl; writing = refl; closed = refl }

  pub Frame-trans : (s t u : EpollShimCtx C) → Frame s t → Frame t u → Frame s u
  Frame-trans s t u f g = record {
    open_files = g.open_files ∙ f.open_files;
    writing = g.writing ∙ f.writing;
    closed = g.closed ∙ f.closed;
  }

  -- A description that is referred to from outside is there.
  pub held-some :
      (out : ℕ → ℕ) (s : EpollShimCtx C) (a : ℕ)
      → IsKept k out s
      → 0 < out a
      → (d : FileDescription C) × (get_or s.files a none ≡ some d) × (0 < d.refcount)
  held-some out s a v h = elim (Option-cases (get_or s.files a none)) [
    | inl e ↦ absurd (omega (arith, v.balance a, ap refcount_of e))
    | inr (d, e) ↦ (d, e, omega (arith, v.balance a, ap refcount_of e))
  ]

  -- What is left to do when one reference to `a` was given back.
  record Unrefs (out : ℕ → ℕ) (s : EpollShimCtx C) (a : ℕ) : Type 0 where
    after : EpollShimCtx C
    targets : List ℕ
    error : ℕ
    result : unref_one k s a ≡ some (after, targets, error)
    balanced : IsKept k (λ b. out b + tally targets b) after
    frame : Frame s after
    weight : length targets + kept k after.files ≡ kept k s.files

  unref_one-Unrefs :
      (out : ℕ → ℕ) (s : EpollShimCtx C) (a : ℕ)
      → IsKept k (λ b. out b + bit (a == b)) s
      → Unrefs out s a
  unfolding unref_one count
  unref_one-Unrefs out s a v =
      let (d, g, p) = held-some (λ b. out b + bit (a == b)) s a v (ground arith) in
      let z : (d.refcount == 0) ≡ false = ground arith in
      let at = get_or-some s.files a d g in
      elim (Bool-cases (d.refcount == 1)) [
        | inl one ↦ record {
          after = record s { files = set s.files a none };
          targets = targets_of k d.ctx;
          error = close_error k d.ctx;
          result = rw (g, unref_one) (rw (z, one) refl);
          balanced =
              set-IsKept k (λ b. out b + bit (a == b)) (λ b. out b + tally (targets_of k d.ctx) b) s
                a d none v g tt (λ b. ground (arith, one));
          frame = record { open_files = refl; writing = refl; closed = refl };
          weight = omega (arith, sum_by-set (kept_by k) s.files a (some d) none at);
        }
        | inr more ↦ record {
          after = record s {
            files = set s.files a (some (record d { refcount = d.refcount - 1 }));
          };
          targets = [];
          error = 0;
          result = rw (g, unref_one) (rw (z, more) refl);
          balanced =
              set-IsKept k (λ b. out b + bit (a == b)) (λ b. out b + tally [] b) s a d
                (some (record d { refcount = d.refcount - 1 })) v g (ground (arith, more))
                (λ b. ground (arith, more, p));
          frame = record { open_files = refl; writing = refl; closed = refl };
          weight = omega (
            arith,
            sum_by-set (kept_by k) s.files a (some d)
                (some (record d { refcount = d.refcount - 1 })) at,
          );
        }
      ]

  -- The references listed are given back, and the table is as before.
  pub record Released (out : ℕ → ℕ) (s : EpollShimCtx C) (r : Option (EpollShimCtx C))
      : Type 0 where
    pub after : EpollShimCtx C
    pub result : r ≡ some after
    pub balanced : IsKept k out after
    pub frame : Frame s after

  release_on-Released :
      (fuel : ℕ) (out : ℕ → ℕ) (s : EpollShimCtx C) (rs : List ℕ)
      → length rs + kept k s.files ≤ fuel
      → IsKept k (λ b. out b + tally rs b) s
      → Released out s (release_on k fuel s rs)
  unfolding release_on count
  release_on-Released fuel out s [] h v = record {
    after = s;
    result = refl;
    balanced = rebalance k (λ b. out b + tally [] b) out s (λ b. omega arith) v;
    frame = Frame-refl s;
  }
  release_on-Released zero out s (a ∷ rs) h v = absurd (omega arith)
  release_on-Released (suc fuel) out s (a ∷ rs) h v =
      let u =
        unref_one-Unrefs (λ b. out b + tally rs b) s a
          (rebalance k (λ b. out b + tally (a ∷ rs) b) (λ b. out b + tally rs b + bit (a == b)) s
            (λ b. omega arith) v) in
      let r =
        release_on-Released fuel out u.after (u.targets ++ rs)
          (omega (arith, u.weight, length-append u.targets rs))
          (rebalance k (λ b. out b + tally rs b + tally u.targets b)
            (λ b. out b + tally (u.targets ++ rs) b) u.after
            (λ b. omega (arith, count-append (λ c. c == b) u.targets rs)) u.balanced) in
      record {
        after = r.after;
        result = rw (u.result, release_on) r.result;
        balanced = r.balanced;
        frame = Frame-trans s u.after r.after u.frame r.frame;
      }

  -- With enough fuel, which `release` has, every reference is given back.
  pub release-Released :
      (out : ℕ → ℕ) (s : EpollShimCtx C) (rs : List ℕ)
      → IsKept k (λ b. out b + tally rs b) s
      → Released out s (release k s rs)
  unfolding release
  release-Released out s rs v =
      release_on-Released (length rs + kept k s.files) out s rs (omega arith) v

  pub record Unreffed (out : ℕ → ℕ) (s : EpollShimCtx C) (r : Option (EpollShimCtx C × ℕ))
      : Type 0 where
    pub after : EpollShimCtx C
    pub error : ℕ
    pub result : r ≡ some (after, error)
    pub balanced : IsKept k out after
    pub frame : Frame s after

  pub unref-Unreffed :
      (out : ℕ → ℕ) (s : EpollShimCtx C) (a : ℕ)
      → IsKept k (λ b. out b + bit (a == b)) s
      → Unreffed out s (file_description_unref k s a)
  unfolding file_description_unref
  unref-Unreffed out s a v =
      let u = unref_one-Unrefs out s a v in
      let r = release-Released out u.after u.targets u.balanced in
      record {
        after = r.after;
        error = u.error;
        result = rw (u.result, file_description_unref) (rw r.result refl);
        balanced = r.balanced;
        frame = Frame-trans s u.after r.after u.frame r.frame;
      }
