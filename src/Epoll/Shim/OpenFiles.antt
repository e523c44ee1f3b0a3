-- ===== src/Epoll/Shim/OpenFiles.antt =====
-- The table of open files of epoll_shim_ctx.c, and epoll_shim_close, epoll_shim_read and
-- epoll_shim_write. A descriptor is a number, since the calls pass a negative one on to the system.
use wwn_iland.Common.{
  ℕ, zero, suc, ◌-◌, ◌*◌, ◌%◌, ◌^◌, Bool, true, false, Option, none, some, ◌∷◌, ◌++◌, ltb, leb,
  ◌==◌, if◌then◌else◌, length, get_or, set, replicate, Outcome, ok, fail, aborted, enomem,
  sys_error,
}
use wwn_iland.Epoll.Shim.{Contexts, EpollShimCtx}
use wwn_iland.Epoll.Shim.References.{
  file_description_create, file_description_ref, file_description_unref,
}

-- `while (space_needed <= kq) space_needed <<= 1` on 32 bits, with fuel.
unfoldable pub space_for : ℕ → ℕ → ℕ → Option ℕ
space_for zero space kq = none
space_for (suc fuel) space kq =
    let rest = space_for fuel (space * 2 % 2 ^ 32) kq in if leb space kq then rest else some space

-- What the system answers to epoll_shim_ctx_create_desc: the descriptor or an error of kqueue1, then
-- the errors of realloc for a longer table and of file_description_create, 0 for none.
pub record Resources : Type 0 where
  pub kqueue1 : Outcome ℕ
  pub realloc_error : ℕ
  pub create_error : ℕ

module _ {C : Type 0} where
  -- The table, longer where `kq` has no place in it.
  unfoldable pub make_room : Resources → EpollShimCtx C → ℕ → Outcome (EpollShimCtx C)
  make_room r s kq = if ltb kq (length s.open_files) then ok s else elim (space_for 32 32 kq) [
    | none ↦ aborted
    | some space ↦
        if ltb (space * 8) (2 ^ 64)
        then (if r.realloc_error == 0
            then ok (record s {
              open_files = s.open_files ++ replicate (space - length s.open_files) none;
            })
            else fail (sys_error r.realloc_error))
        else fail enomem
  ]

  -- real_close(kq) and the end of the lock, on the way out with an error.
  abbrev pub give_up : EpollShimCtx C → ℕ → EpollShimCtx C
  give_up s kq = record s { closed = kq ∷ s.closed; writing = false }

  -- epoll_shim_ctx_install_desc
  unfoldable pub epoll_shim_ctx_install_desc : EpollShimCtx C → ℕ → ℕ → Option (EpollShimCtx C)
  epoll_shim_ctx_install_desc s fd desc =
      if ltb fd (length s.open_files)
      then some (record s { open_files = set s.open_files fd (some desc); writing = false })
      else none

  -- epoll_shim_ctx_find_desc, for a descriptor that is not negative.
  unfoldable pub epoll_shim_ctx_find_desc : EpollShimCtx C → ℕ → Option (EpollShimCtx C × Option ℕ)
  unfolding file_description_ref
  epoll_shim_ctx_find_desc s fd = elim (get_or s.open_files fd none) [
    | none ↦ some (s, none)
    | some a ↦ elim (file_description_ref s a) [ none ↦ none | some s' ↦ some (s', some a) ]
  ]

  -- What the creator of a description fills in.
  unfoldable pub set_ctx : EpollShimCtx C → ℕ → Bool → Option C → EpollShimCtx C
  set_ctx s a flags ctx = elim (get_or s.files a none) [
    | none ↦ s
    | some d ↦ record s { files = set s.files a (some (record d { flags = flags; ctx = ctx })) }
  ]

module _ {C : Type 0} (k : Contexts C) where
  -- A description left behind by a plain close() of its descriptor.
  unfoldable pub clear_stale : EpollShimCtx C → ℕ → Option (EpollShimCtx C)
  unfolding file_description_unref
  clear_stale s kq = elim (get_or s.open_files kq none) [
    | none ↦ some s
    | some a ↦ elim (file_description_unref k s a) [
      | none ↦ none
      | some (s', e) ↦ some (record s' { open_files = set s'.open_files kq none })
    ]
  ]

  -- The end of epoll_shim_ctx_create_desc: the new description.
  unfoldable pub create_at : Resources → EpollShimCtx C → ℕ → EpollShimCtx C × Outcome (ℕ × ℕ)
  unfolding clear_stale file_description_create
  create_at r s kq = elim (clear_stale s kq) [
    | none ↦ (s, aborted)
    | some s' ↦
        if r.create_error == 0
        then (let c = file_description_create s' in (c.0, ok (kq, c.1)))
        else (give_up s' kq, fail (sys_error r.create_error))
  ]

  -- epoll_shim_ctx_create_desc: the descriptor and the description, with the lock kept.
  unfoldable pub epoll_shim_ctx_create_desc :
      Resources → EpollShimCtx C → EpollShimCtx C × Outcome (ℕ × ℕ)
  unfolding make_room create_at
  epoll_shim_ctx_create_desc r s =
      let s = record s { writing = true } in
      elim r.kqueue1 [
        | ok kq ↦ elim (make_room r s kq) [
          | ok s' ↦ create_at r s' kq
          | fail e ↦ (give_up s kq, fail e)
          | _ ↦ (s, aborted)
        ]
        | fail e ↦ (record s { writing = false }, fail e)
        | _ ↦ (s, aborted)
      ]

  -- epoll_shim_ctx_drop_desc
  unfoldable pub epoll_shim_ctx_drop_desc : EpollShimCtx C → ℕ → ℕ → Option (EpollShimCtx C)
  epoll_shim_ctx_drop_desc s fd desc = elim (file_description_unref k s desc) [
    | none ↦ none
    | some (s', e) ↦ some (give_up s' fd)
  ]

  -- What the maker of a descriptor does with the description: it fills it in and puts it into the
  -- table, or drops it.
  unfoldable pub finish_open :
      Bool → Outcome C → EpollShimCtx C × Outcome (ℕ × ℕ) → EpollShimCtx C × Outcome ℕ
  unfolding epoll_shim_ctx_install_desc epoll_shim_ctx_drop_desc set_ctx
  finish_open flags (ok ctx) (s, ok (fd, desc)) =
      elim (epoll_shim_ctx_install_desc (set_ctx s desc flags (some ctx)) fd desc) [
        | none ↦ (s, aborted)
        | some s' ↦ (s', ok fd)
      ]
  finish_open flags (fail e) (s, ok (fd, desc)) =
      elim (epoll_shim_ctx_drop_desc (set_ctx s desc flags none) fd desc) [
        | none ↦ (s, aborted)
        | some s' ↦ (s', fail e)
      ]
  finish_open flags made (s, fail e) = (s, fail e)
  finish_open flags made (s, r) = (s, aborted)

  -- epoll_create_impl, and likewise the makers of the other descriptors: `made` is the context, or the
  -- error of its init function.
  unfoldable pub open_desc :
      Resources → Bool → Outcome C → EpollShimCtx C → EpollShimCtx C × Outcome ℕ
  unfolding epoll_shim_ctx_create_desc finish_open
  open_desc r flags made s = finish_open flags made (epoll_shim_ctx_create_desc r s)
