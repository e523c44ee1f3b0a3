-- ===== src/Epoll/Shim/Calls.antt =====
-- epoll_shim_close, epoll_shim_read and epoll_shim_write of epoll_shim_ctx.c, for a descriptor that is
-- not negative, and the references that a call keeps while it runs.
use wwn_iland.Common.{
  ℕ, ◌^◌, Option, none, some, List, [], ◌∷◌, ltb, ◌==◌, if◌then◌else◌, get_or, set, Outcome, ok,
  fail, aborted, fault, einval, sys_error,
}
use wwn_iland.Epoll.Shim.{Contexts, EpollShimCtx}
use wwn_iland.Epoll.Shim.References.{file_description_unref, release}
use wwn_iland.Epoll.Shim.OpenFiles.{epoll_shim_ctx_find_desc}

module _ {C : Type 0} where
  -- read_fun or write_fun of the description, which must have a vtable.
  unfoldable pub transfer : (C → C × Outcome ℕ) → EpollShimCtx C → ℕ → EpollShimCtx C × Outcome ℕ
  transfer fun s a = elim (get_or s.files a none) [
    | none ↦ (s, fault)
    | some d ↦ elim d.ctx [
      | none ↦ (s, fault)
      | some c ↦
          (record s { files = set s.files a (some (record d { ctx = some (fun c).0 })) }, (fun c).1)
    ]
  ]

module _ {C : Type 0} (k : Contexts C) where
  -- epollfd_remove_fd on one description.
  unfoldable pub remove_at : EpollShimCtx C → ℕ → ℕ → Option (EpollShimCtx C)
  unfolding release
  remove_at s a fd = elim (get_or s.files a none) [
    | none ↦ none
    | some d ↦ elim d.ctx [
      | none ↦ some s
      | some c ↦
          release k
            (record s {
              files = set s.files a (some (record d { ctx = some (k.remove_fd c fd).0 }));
            })
            (k.remove_fd c fd).1
    ]
  ]

  -- epoll_shim_ctx_for_each_unlocked with remove_desc_remove_fd_from_epollfd, on the rest of the table.
  unfoldable pub remove_from_all : List (Option ℕ) → EpollShimCtx C → ℕ → Option (EpollShimCtx C)
  unfolding remove_at
  remove_from_all [] s fd = some s
  remove_from_all (none ∷ slots) s fd = remove_from_all slots s fd
  remove_from_all (some a ∷ slots) s fd = elim (remove_at s a fd) [
    | none ↦ none
    | some s' ↦ remove_from_all slots s' fd
  ]

  -- file_description_unref, where there is a description.
  unfoldable pub unref_found : EpollShimCtx C → Option ℕ → Option (EpollShimCtx C × ℕ)
  unfolding file_description_unref
  unref_found s none = some (s, 0)
  unref_found s (some a) = file_description_unref k s a

  -- epoll_shim_close with epoll_shim_ctx_remove_desc; `close_error` is the error of real_close. The
  -- first error is the result. The call is run to its end: other threads can read the table once the
  -- lock for writing is downgraded, which is before the removal from the epoll descriptors.
  unfoldable pub epoll_shim_close : EpollShimCtx C → ℕ → ℕ → EpollShimCtx C × Outcome (Unit {0})
  unfolding remove_from_all unref_found
  epoll_shim_close s fd close_error =
      let t = record s { open_files = set s.open_files fd none } in
      elim (remove_from_all t.open_files t fd) [
        | none ↦ (s, aborted)
        | some u ↦ elim (unref_found u (get_or s.open_files fd none)) [
          | none ↦ (s, aborted)
          | some (v, ec) ↦
              let ec = if ec == 0 then close_error else ec in
              (record v { closed = fd ∷ v.closed }, if ec == 0 then ok tt else fail (sys_error ec))
        ]
      ]

  -- The rest of epoll_shim_read or epoll_shim_write, once a description was found.
  unfoldable pub use_desc :
      (C → C × Outcome ℕ) → ℕ → EpollShimCtx C → ℕ → EpollShimCtx C × Outcome ℕ
  unfolding transfer file_description_unref
  use_desc fun nbytes t a =
      let r = if ltb nbytes (2 ^ 63) then transfer fun t a else (t, fail einval) in
      elim (file_description_unref k r.0 a) [ none ↦ (t, aborted) | some (u, ec) ↦ (u, r.1) ]

  -- `real` is the result of real_read or real_write, for a descriptor with no description.
  unfoldable pub with_desc :
      (C → C × Outcome ℕ) → ℕ → Outcome ℕ → EpollShimCtx C → ℕ → EpollShimCtx C × Outcome ℕ
  unfolding epoll_shim_ctx_find_desc use_desc
  with_desc fun nbytes real s fd = elim (epoll_shim_ctx_find_desc s fd) [
    | none ↦ (s, aborted)
    | some (t, none) ↦ (t, real)
    | some (t, some a) ↦ use_desc fun nbytes t a
  ]

  unfoldable pub epoll_shim_read : ℕ → Outcome ℕ → EpollShimCtx C → ℕ → EpollShimCtx C × Outcome ℕ
  unfolding with_desc
  epoll_shim_read nbytes real s fd = with_desc (λ c. k.read_fun c nbytes) nbytes real s fd

  unfoldable pub epoll_shim_write : ℕ → Outcome ℕ → EpollShimCtx C → ℕ → EpollShimCtx C × Outcome ℕ
  unfolding with_desc
  epoll_shim_write nbytes real s fd = with_desc (λ c. k.write_fun c nbytes) nbytes real s fd
