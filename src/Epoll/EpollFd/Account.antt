-- ===== src/Epoll/EpollFd/Account.antt =====
-- The account that an epoll descriptor of epollfd_ctx.c keeps of its nodes, through the removal of a node
-- and the end of a registration.
use wwn_iland.Common.{
  ℕ, inl, inr, ◌+◌, ◌-◌, ◌<◌, ◌≡◌, refl, sym, ap, ◌∙◌, Bool, true, false, bit, Option, none, some,
  Errno, Outcome, ok, fail, blocks, fault, aborted, and_then, if◌then◌else◌, ◌==◌, arith,
  Bool-cases,
}
use wwn_iland.Epoll.EpollFd.{Node}
use wwn_iland.Epoll.EpollFd.Control.{
  registered_fds_node_destroy, drop_node, epollfd_ctx_remove_node, keep_or_remove,
}
use wwn_iland.Epoll.EpollFd.Leaving.{Left, LeftQueue, remove_node_from_kq-LeftQueue}
use wwn_iland.Epoll.EpollFd.Registering.{Setting, setting, NodeOk, Done, Post}
use wwn_iland.Epoll.EpollFd.Registration.{EpollFd, Registered, epollfd_ctx__remove_node_from_kq}
use wwn_iland.Epoll.EpollFd.Table.{NodeTree}

abbrev pub all_nodes : Node → Bool
all_nodes n = true

abbrev pub on_list : Node → Bool
on_list n = n.is_on_pollfd_list

not_zero : (k : ℕ) → 0 < k → (k == 0) ≡ false
not_zero k h = ground (arith, h)

some-injective : {A : Type 0} (x y : A) → some x ≡ some y → x ≡ y
some-injective x y h = ground (arith, h)

module _ {T : Type 0} (tree : NodeTree T) where
  -- A node of the tree: it stands at its descriptor, and its registration has succeeded.
  pub record Stored (fd : ℕ) (n : Node) : Type 0 where
    pub at : n.fd ≡ fd
    pub node_ok : NodeOk n
    pub registered : n.is_registered ≡ true

  -- The sizes are those of the tree and of the list of polled nodes.
  pub record Sound (e : EpollFd T) : Type 0 where
    pub nodes : (fd : ℕ) (n : Node) → tree.find e.registered_fds fd ≡ some n → Stored fd n
    pub size : e.registered_fds_size ≡ tree.count_if all_nodes e.registered_fds
    pub polled : e.poll_fds_size ≡ tree.count_if on_list e.registered_fds

  -- The same while the node `n` is changed, whose state in the account is `old`.
  pub record Changing (e : EpollFd T) (n old : Node) : Type 0 where
    pub stored : tree.find e.registered_fds n.fd ≡ some old
    pub others :
        (fd : ℕ) (m : Node)
        → (n.fd == fd) ≡ false
        → tree.find e.registered_fds fd ≡ some m
        → Stored fd m
    pub size : e.registered_fds_size ≡ tree.count_if all_nodes e.registered_fds
    pub polled :
        e.poll_fds_size + bit old.is_on_pollfd_list
        ≡ tree.count_if on_list e.registered_fds + bit n.is_on_pollfd_list
    pub node_ok : NodeOk n

  pub Changing-then :
      (e e' : EpollFd T) (n n' old : Node) → Changing e n old → Done e n e' n' → Changing e' n' old
  Changing-then e e' n n' old c d = record {
    stored = rw (d.tree, d.fd) c.stored;
    others = λ fd m h k. c.others fd m (rw (sym d.fd) h) (rw (sym d.tree) k);
    size = rw (d.tree, d.size) c.size;
    polled = rw (d.tree) (omega (arith, d.polled, c.polled));
    node_ok = d.node_ok;
  }

  -- The removal of the node `n`.
  pub record Removed (e : EpollFd T) (n : Node) (e' : EpollFd T) : Type 0 where
    pub sound : Sound e'
    pub found :
        (fd : ℕ)
        → tree.find e'.registered_fds fd
          ≡ (if n.fd == fd then none else tree.find e.registered_fds fd)

  pub some_room :
      (e : EpollFd T) (n old : Node)
      → Changing e n old
      → n.is_on_pollfd_list ≡ true
      → 0 < e.poll_fds_size
  some_room e n old c on =
      let counted = tree.count_if-remove on_list e.registered_fds n.fd old c.stored in
      let here : bit n.is_on_pollfd_list ≡ 1 = ap bit on in omega (arith, counted, here, c.polled)

  removed-found :
      (e : EpollFd T) (n old : Node) (t : T)
      → Changing e n old
      → t ≡ e.registered_fds
      → (fd : ℕ) (m : Node) → tree.find (tree.remove t n.fd) fd ≡ some m
      → Stored fd m
  removed-found e n old t c same fd m h =
      let found : (if n.fd == fd then none else tree.find e.registered_fds fd) ≡ some m =
        rw (sym same) (sym (tree.find-remove t n.fd fd) ∙ h) in
      elim (Bool-cases (n.fd == fd)) [
        | inl here ↦ let bad : none ≡ some m = rw (here) at found in absurd (ground (arith, bad))
        | inr other ↦ c.others fd m other (rw (other) at found)
      ]

  abbrev pub RemovedPost : EpollFd T → Node → EpollFd T × Outcome (Unit {0}) → Type 0
  RemovedPost e n (e', ok u) = Removed e n e'
  RemovedPost e n (e', fail ec) = ⊥
  RemovedPost e n (e', blocks) = ⊥
  RemovedPost e n (e', fault) = ⊥
  RemovedPost e n (e', aborted) = ⊥

  -- The tree without the node, once its filters are deleted.
  without_node :
      (e e1 : EpollFd T) (n n1 old : Node)
      → Changing e n old
      → Left e n e1 n1
      → Removed e n (
          registered_fds_node_destroy
            (record e1 {
              registered_fds = tree.remove e1.registered_fds n1.fd;
              registered_fds_size = e1.registered_fds_size - 1;
            })
            n1)
  unfolding registered_fds_node_destroy
  without_node e e1 n n1 old c l =
      let same = l.done.tree in
      let there = l.done.fd in
      let all = tree.count_if-remove all_nodes e.registered_fds n.fd old c.stored in
      let listed = tree.count_if-remove on_list e.registered_fds n.fd old c.stored in
      let here : bit n1.is_on_pollfd_list ≡ 0 = ap bit l.off_list in
      record {
        sound = record {
          nodes = λ fd m h. removed-found e n old e1.registered_fds c same fd m (rw (there) at h);
          size = rw (there, same) (omega (arith, l.done.size, c.size, all));
          polled = rw (there, same) (omega (arith, here, l.done.polled, c.polled, listed));
        };
        found = λ fd. rw (there, same) (tree.find-remove e.registered_fds n.fd fd);
      }

  then_drop :
      (e : EpollFd T) (n old : Node) (p : EpollFd T × Outcome Node)
      → Changing e n old
      → LeftQueue e n p
      → RemovedPost e n (and_then p (drop_node tree))
  unfolding drop_node
  then_drop e n old (e1, ok n1) c (l, h) =
      let all = tree.count_if-remove all_nodes e.registered_fds n.fd old c.stored in
      let some_left : (e1.registered_fds_size == 0) ≡ false =
        not_zero e1.registered_fds_size (omega (arith, all, l.done.size, c.size)) in
      rw (some_left) (without_node e e1 n n1 old c l)
  then_drop e n old (e1, fail ec) c h = h
  then_drop e n old (e1, blocks) c h = h
  then_drop e n old (e1, fault) c h = h
  then_drop e n old (e1, aborted) c h = h

  pub remove_node-Removed :
      (e : EpollFd T) (n old : Node)
      → Changing e n old
      → RemovedPost e n (epollfd_ctx_remove_node tree e n)
  unfolding epollfd_ctx_remove_node
  remove_node-Removed e n old c =
      then_drop e n old (epollfd_ctx__remove_node_from_kq e n) c
        (remove_node_from_kq-LeftQueue e n c.node_ok (some_room e n old c))

  -- How a registration of the descriptor `fd` with the setting `d` ends, from the tree `t`.
  abbrev pub Ended : T → (fd : ℕ) → (d : Setting) → EpollFd T × Outcome (Unit {0}) → Type 0
  Ended t fd d (e', ok u) =
      Sound e'
      × ((m : Node) × (setting m ≡ d)
          × (m.is_registered ≡ true)
          × ((j : ℕ) → tree.find e'.registered_fds j ≡ (if fd == j then some m else tree.find t j)))
  Ended t fd d (e', fail ec) =
      Sound e'
      × ((j : ℕ) → tree.find e'.registered_fds j ≡ (if fd == j then none else tree.find t j))
  Ended t fd d (e', blocks) = ⊥
  Ended t fd d (e', fault) = ⊥
  Ended t fd d (e', aborted) = ⊥

  written-Sound :
      (e : EpollFd T) (n old : Node)
      → Changing e n old
      → Sound (record e {
        registered_fds = tree.write e.registered_fds (record n { is_registered = true });
      })
  written-Sound e n old c =
      let n' : Node = record n { is_registered = true } in
      let all = tree.count_if-write all_nodes e.registered_fds n' old c.stored in
      let listed = tree.count_if-write on_list e.registered_fds n' old c.stored in
      record {
        nodes = λ fd m h.
            written-Stored fd m (sym (tree.find-write e.registered_fds n' old fd c.stored) ∙ h);
        size = omega (arith, all, c.size);
        polled = omega (arith, listed, c.polled);
      }
    where
      n'' : Node
      n'' = record n { is_registered = true }

      written-Stored :
          (fd : ℕ) (m : Node)
          → (if n.fd == fd then some n'' else tree.find e.registered_fds fd) ≡ some m
          → Stored fd m
      written-Stored fd m h = elim (Bool-cases (n.fd == fd)) [
        | inl here ↦
            let it : some n'' ≡ some m = rw (here) at h in
            let same : n'' ≡ m = some-injective n'' m it in
            record {
              at = ap (λ n. n.fd) (sym same) ∙ ground (arith, here);
              node_ok = rw (sym same) (record {
                ends = c.node_ok.ends;
                no_err = c.node_ok.no_err;
                no_hup = c.node_ok.no_hup;
              });
              registered = ap (λ n. n.is_registered) (sym same);
            }
        | inr other ↦ c.others fd m other (rw (other) at h)
      ]

  then_fail :
      (e : EpollFd T) (n : Node) (ec : Errno) (p : EpollFd T × Outcome (Unit {0}))
      → RemovedPost e n p
      → Ended e.registered_fds n.fd (setting n) (and_then p (λ e u. (e, fail ec)))
  then_fail e n ec (e', ok u) r = (r.sound, r.found)
  then_fail e n ec (e', fail x) r = absurd r
  then_fail e n ec (e', blocks) r = r
  then_fail e n ec (e', fault) r = r
  then_fail e n ec (e', aborted) r = r

  pub keep_or_remove-Ended :
      (e : EpollFd T) (n old : Node) (ec : Option Errno)
      → Changing e n old
      → Ended e.registered_fds n.fd (setting n) (keep_or_remove tree e (n, ec))
  unfolding keep_or_remove
  keep_or_remove-Ended e n old none c = (
    written-Sound e n old c,
    (
      record n { is_registered = true },
      refl,
      refl,
      λ j. tree.find-write e.registered_fds (record n { is_registered = true }) old j c.stored,
    ),
  )
  keep_or_remove-Ended e n old (some ec) c =
      then_fail e n ec (epollfd_ctx_remove_node tree e n) (remove_node-Removed e n old c)

  pub then_keep-Ended :
      (e : EpollFd T) (n old : Node) (p : EpollFd T × Registered)
      → Changing e n old
      → Post e n p
      → Ended e.registered_fds n.fd (setting n) (and_then p (keep_or_remove tree))
  then_keep-Ended e n old (e', ok (n', ec)) c d =
      rw (sym d.tree, sym d.fd, sym d.same_setting)
        (keep_or_remove-Ended e' n' old ec (Changing-then e e' n n' old c d))
  then_keep-Ended e n old (e', fail ec) c d = absurd d
  then_keep-Ended e n old (e', blocks) c d = d
  then_keep-Ended e n old (e', fault) c d = d
  then_keep-Ended e n old (e', aborted) c d = d
