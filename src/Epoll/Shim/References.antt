-- ===== src/Epoll/Shim/References.antt =====
-- file_description_* of epoll_shim_ctx.c. `none` is an assertion on a reference count that fails, or a
-- description that was freed.
use wwn_iland.Common.{
  ℕ, zero, suc, ◌+◌, ◌-◌, false, Option, none, some, List, [], ◌∷◌, ◌++◌, ◌==◌, if◌then◌else◌,
  length, get_or, set, sum_by,
}
use wwn_iland.Epoll.Shim.{Contexts, FileDescription, EpollShimCtx}

module _ {C : Type 0} where
  -- file_description_create, where memory and a mutex are given: the number of the new description.
  unfoldable pub file_description_create : EpollShimCtx C → EpollShimCtx C × ℕ
  file_description_create s = (
    record s { files = s.files ++ some (record { refcount = 1; flags = false; ctx = none }) ∷ [] },
    length s.files,
  )

  unfoldable pub file_description_ref : EpollShimCtx C → ℕ → Option (EpollShimCtx C)
  file_description_ref s a = elim (get_or s.files a none) [
    | none ↦ none
    | some d ↦
        if d.refcount == 0
        then none
        else some
            (record s { files = set s.files a (some (record d { refcount = d.refcount + 1 })) })
  ]

module _ {C : Type 0} (k : Contexts C) where
  abbrev pub targets_of : Option C → List ℕ
  targets_of none = []
  targets_of (some c) = k.targets c

  -- file_description_terminate: the error of close_fun.
  abbrev pub close_error : Option C → ℕ
  close_error none = 0
  close_error (some c) = k.close_fun c

  -- The decrement of file_description_unref. With the last reference the description is freed, and
  -- the references that its context kept are still to be given back.
  unfoldable pub unref_one : EpollShimCtx C → ℕ → Option (EpollShimCtx C × List ℕ × ℕ)
  unref_one s a = elim (get_or s.files a none) [
    | none ↦ none
    | some d ↦
        if d.refcount == 0
        then none
        else if d.refcount == 1
        then some (record s { files = set s.files a none }, targets_of d.ctx, close_error d.ctx)
        else some (
          record s { files = set s.files a (some (record d { refcount = d.refcount - 1 })) },
          [],
          0,
        )
  ]

  -- The references that the live descriptions keep.
  abbrev pub kept_by : Option (FileDescription C) → ℕ
  kept_by none = 0
  kept_by (some d) = length (targets_of d.ctx)

  abbrev pub kept : List (Option (FileDescription C)) → ℕ
  kept = sum_by kept_by

  -- file_description_unref for each of the descriptions, and for those that this frees.
  unfoldable pub release_on : ℕ → EpollShimCtx C → List ℕ → Option (EpollShimCtx C)
  release_on fuel s [] = some s
  release_on zero s (a ∷ rs) = none
  release_on (suc fuel) s (a ∷ rs) = elim (unref_one s a) [
    | none ↦ none
    | some (s', ts, e) ↦ release_on fuel s' (ts ++ rs)
  ]

  unfoldable pub release : EpollShimCtx C → List ℕ → Option (EpollShimCtx C)
  unfolding release_on
  release s rs = release_on (length rs + kept s.files) s rs

  unfoldable pub file_description_unref : EpollShimCtx C → ℕ → Option (EpollShimCtx C × ℕ)
  unfolding unref_one release
  file_description_unref s a = elim (unref_one s a) [
    | none ↦ none
    | some (s', ts, e) ↦ elim (release s' ts) [ none ↦ none | some s'' ↦ some (s'', e) ]
  ]
