-- ===== src/Epoll/Shim/Forgetting.antt =====
-- What epoll_shim_close of epoll_shim_ctx.c leaves of a closed descriptor in the epoll descriptors.
use wwn_iland.Common.{
  ℕ, zero, suc, ◌-◌, ◌≡◌, sym, inl, inr, true, false, Option, none, some, List, [], ◌∷◌, ◌++◌,
  arith, ◌==◌, Bool-cases, Option-cases, either_on, get_or, set, All, All-get,
}
use wwn_iland.Epoll.Shim.{Contexts, IsCounting, FileDescription, EpollShimCtx}
use wwn_iland.Epoll.Shim.References.{unref_one, release_on, release, file_description_unref}
use wwn_iland.Epoll.Shim.Calls.{remove_at, remove_from_all, unref_found}
use wwn_iland.Epoll.Shim.Counts.{get_or-some, get_or-set_at}

module _ {C : Type 0} (k : Contexts C) (law : IsCounting k) (fd : ℕ) where
  -- The context has no node for the descriptor.
  abbrev pub Unwatched : Option C → Type 0
  Unwatched none = Unit {0}
  Unwatched (some c) = law.has_node c fd ≡ false

  abbrev pub context_of : Option (FileDescription C) → Option C
  context_of none = none
  context_of (some d) = d.ctx

  -- The description has no node for the descriptor.
  abbrev pub IsForgotten : EpollShimCtx C → ℕ → Type 0
  IsForgotten s a = Unwatched (context_of (get_or s.files a none))

  abbrev pub Keeps : EpollShimCtx C → EpollShimCtx C → Type 0
  Keeps s s' = (a : ℕ) → IsForgotten s a → IsForgotten s' a

  at_set :
      (s : EpollShimCtx C) (x : ℕ) (d : FileDescription C) (v : Option (FileDescription C)) (a : ℕ)
      → get_or s.files x none ≡ some d
      → (x ≡ a → Unwatched (context_of v))
      → IsForgotten s a
      → Unwatched (context_of (get_or (set s.files x v) a none))
  at_set s x d v a g h q =
      let at = get_or-set_at s.files x a (some d) v (get_or-some s.files x d g) in
      elim (Bool-cases (x == a)) [
        | inl same ↦ rw (at, same) (h (ground (arith, same)))
        | inr other ↦ rw (at, other) q
      ]

  set-Keeps :
      (s : EpollShimCtx C) (x : ℕ) (d : FileDescription C) (v : Option (FileDescription C))
      → get_or s.files x none ≡ some d
      → (Unwatched d.ctx → Unwatched (context_of v))
      → Keeps s (record s { files = set s.files x v })
  set-Keeps s x d v g h a q =
      at_set s x d v a g
        (λ z. h (let g' : get_or s.files a none ≡ some d = rw (sym z) g in rw g' at q)) q

  -- What a call that gives back references keeps.
  abbrev Decremented : EpollShimCtx C → Option (EpollShimCtx C × List ℕ × ℕ) → Type 0
  Decremented s none = Unit {0}
  Decremented s (some (s', ts, e)) = Keeps s s'

  abbrev Unreffed : EpollShimCtx C → Option (EpollShimCtx C × ℕ) → Type 0
  Unreffed s none = Unit {0}
  Unreffed s (some (s', e)) = Keeps s s'

  abbrev Released : EpollShimCtx C → Option (EpollShimCtx C) → Type 0
  Released s none = Unit {0}
  Released s (some s') = Keeps s s'

  unref_one-Decremented : (s : EpollShimCtx C) (x : ℕ) → Decremented s (unref_one k s x)
  unfolding unref_one
  unref_one-Decremented s x = elim (Option-cases (get_or s.files x none)) [
    | inl e ↦ rw (e, unref_one) tt
    | inr (d, e) ↦
        rw (e, unref_one)
          (either_on (Decremented s) (d.refcount == 0) _ _ (λ h. tt)
            (λ h.
              either_on (Decremented s) (d.refcount == 1) _ _
                (λ h. set-Keeps s x d none e (λ q. tt))
                (λ h. set-Keeps s x d (some (record d { refcount = d.refcount - 1 })) e (λ q. q))))
  ]

  then_release :
      (fuel : ℕ) (s : EpollShimCtx C) (rs : List ℕ) (o : Option (EpollShimCtx C × List ℕ × ℕ))
      → Decremented s o
      → ((s' : EpollShimCtx C) (ts : List ℕ) → Released s' (release_on k fuel s' ts))
      → Released s (elim o [ none ↦ none | some (s', ts, e) ↦ release_on k fuel s' (ts ++ rs) ])
  then_release fuel s rs none h rest = tt
  then_release fuel s rs (some (s', ts, e)) h rest =
      go (release_on k fuel s' (ts ++ rs)) (rest s' (ts ++ rs))
    where
      go : (o : Option (EpollShimCtx C)) → Released s' o → Released s o
      go none r = tt
      go (some s'') r = λ a q. r a (h a q)

  release_on-Released :
      (fuel : ℕ) (s : EpollShimCtx C) (rs : List ℕ) → Released s (release_on k fuel s rs)
  unfolding release_on
  release_on-Released fuel s [] = λ a q. q
  release_on-Released zero s (a ∷ rs) = tt
  release_on-Released (suc fuel) s (a ∷ rs) =
      then_release fuel s rs (unref_one k s a) (unref_one-Decremented s a)
        (release_on-Released fuel)

  release-Released : (s : EpollShimCtx C) (rs : List ℕ) → Released s (release k s rs)
  unfolding release
  release-Released s rs = release_on-Released _ s rs

  pub unref_found-Unreffed : (s : EpollShimCtx C) (o : Option ℕ) → Unreffed s (unref_found k s o)
  unfolding unref_found file_description_unref
  unref_found-Unreffed s none = λ a q. q
  unref_found-Unreffed s (some a) = then_unref (unref_one k s a) (unref_one-Decremented s a)
    where
      go :
          (s' : EpollShimCtx C) (e : ℕ) (o : Option (EpollShimCtx C))
          → Keeps s s'
          → Released s' o
          → Unreffed s (elim o [ none ↦ none | some s'' ↦ some (s'', e) ])
      go s' e none h r = tt
      go s' e (some s'') h r = λ a q. r a (h a q)

      then_unref :
          (o : Option (EpollShimCtx C × List ℕ × ℕ))
          → Decremented s o
          → Unreffed s (elim o [
            | none ↦ none
            | some (s', ts, e) ↦ elim (release k s' ts) [ none ↦ none | some s'' ↦ some (s'', e) ]
          ])
      then_unref none h = tt
      then_unref (some (s', ts, e)) h = go s' e (release k s' ts) h (release-Released s' ts)

  -- A removal forgets the descriptor at one description, and at none that had forgotten it again.
  abbrev Removed : EpollShimCtx C → ℕ → Option (EpollShimCtx C) → Type 0
  Removed s x none = Unit {0}
  Removed s x (some s') = Keeps s s' × IsForgotten s' x

  remove_at-Removed : (s : EpollShimCtx C) (x : ℕ) → Removed s x (remove_at k s x fd)
  unfolding remove_at
  remove_at-Removed s x = elim (Option-cases (get_or s.files x none)) [
    | inl e ↦ rw (e, remove_at) tt
    | inr (d, e) ↦ elim (Option-cases d.ctx) [
      | inl n ↦ rw (e, remove_at) (rw (n, remove_at) ((λ a q. q), rw (e) (rw (n) tt)))
      | inr (c, n) ↦
          let gone = law.remove_fd_gone c fd in
          let new = record d { ctx = some (k.remove_fd c fd).0 } in
          let t : EpollShimCtx C = record s { files = set s.files x (some new) } in
          let at = get_or-set_at s.files x x (some d) (some new) (get_or-some s.files x d e) in
          let same : (x == x) ≡ true = ground arith in
          let here : IsForgotten t x = rw (at, same) gone in
          rw (e, remove_at)
            (rw (n, remove_at)
              (go t (release k t (k.remove_fd c fd).1) (release-Released t (k.remove_fd c fd).1)
                (set-Keeps s x d (some new) e (λ q. gone)) here))
    ]
  ]
    where
      go :
          (t : EpollShimCtx C) (o : Option (EpollShimCtx C))
          → Released t o
          → Keeps s t
          → IsForgotten t x
          → Removed s x o
      go t none r h here = tt
      go t (some s') r h here = ((λ a q. r a (h a q)), r x here)

  -- The same at every description that the table leads to.
  abbrev pub IsForgottenEntry : EpollShimCtx C → Option ℕ → Type 0
  IsForgottenEntry s none = Unit {0}
  IsForgottenEntry s (some a) = IsForgotten s a

  abbrev pub RemovedAll : List (Option ℕ) → EpollShimCtx C → Option (EpollShimCtx C) → Type 0
  RemovedAll entries s none = Unit {0}
  RemovedAll entries s (some s') = Keeps s s' × All (IsForgottenEntry s') entries

  pub remove_from_all-RemovedAll :
      (entries : List (Option ℕ)) (s : EpollShimCtx C)
      → RemovedAll entries s (remove_from_all k entries s fd)
  unfolding remove_from_all
  remove_from_all-RemovedAll [] s = ((λ a q. q), tt)
  remove_from_all-RemovedAll (none ∷ entries) s =
      go (remove_from_all k entries s fd) (remove_from_all-RemovedAll entries s)
    where
      go : (o : Option (EpollShimCtx C)) → RemovedAll entries s o → RemovedAll (none ∷ entries) s o
      go none r = tt
      go (some s') (keeps, all) = (keeps, (tt, all))
  remove_from_all-RemovedAll (some a ∷ entries) s =
      go (remove_at k s a fd) (remove_at-Removed s a) (remove_from_all-RemovedAll entries)
    where
      next :
          (s' : EpollShimCtx C) (o : Option (EpollShimCtx C))
          → Removed s a (some s')
          → RemovedAll entries s' o
          → RemovedAll (some a ∷ entries) s o
      next s' none r q = tt
      next s' (some s'') (keeps, here) (keeps', all) =
          ((λ b q. keeps' b (keeps b q)), (keeps' a here, all))

      go :
          (o : Option (EpollShimCtx C))
          → Removed s a o
          → ((s' : EpollShimCtx C) → RemovedAll entries s' (remove_from_all k entries s' fd))
          → RemovedAll
              (some a ∷ entries)
              s
              (elim o [ none ↦ none | some s' ↦ remove_from_all k entries s' fd ])
      go none r rest = tt
      go (some s') r rest = next s' (remove_from_all k entries s' fd) r (rest s')

  -- No description that the table leads to has a node for the descriptor.
  abbrev pub IsForgottenByAll : EpollShimCtx C → Type 0
  IsForgottenByAll s = (i a : ℕ) → get_or s.open_files i none ≡ some a → IsForgotten s a

  pub closed-IsForgottenByAll :
      (t u v : EpollShimCtx C) (o : Option ℕ) (e : ℕ)
      → remove_from_all k t.open_files t fd ≡ some u
      → unref_found k u o ≡ some (v, e)
      → v.open_files ≡ t.open_files
      → IsForgottenByAll v
  closed-IsForgottenByAll t u v o e removed unreffed same i a found =
      let (keeps, all) : RemovedAll t.open_files t (some u) =
        rw removed at (remove_from_all-RemovedAll t.open_files t) in
      let kept : Keeps u v = rw unreffed at (unref_found-Unreffed u o) in
      kept a (
        All-get (IsForgottenEntry u) t.open_files i (some a)
          (get_or-some t.open_files i a (rw same at found)) all)
