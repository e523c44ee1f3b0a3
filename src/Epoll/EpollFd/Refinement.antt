-- ===== src/Epoll/EpollFd/Refinement.antt =====
-- The contract of epollfd_ctx_ctl of epollfd_ctx.c, for new nodes and for the whole call.
use wwn_iland.Common.{
  ℕ, ◌⊎◌, inl, inr, suc, ◌≡◌, refl, sym, ap, ◌∙◌, Bool, true, false, not, ◌||◌, Option, none, some,
  Errno, Outcome, ok, fail, blocks, fault, aborted, if◌then◌else◌, ◌==◌, ◌&&◌, arith, Bool-cases,
  either_on, einval, enomem, enoent, eexist,
}
use wwn_iland.Epoll.EpollFd.{
  NodeType, fifo, kqueue, socket, other, is_socket, is_poll, Node, registered_fds_node_create,
  registered_fds_node_update_flags_from_epoll_event,
}
use wwn_iland.Epoll.EpollFd.Account.{
  all_nodes, on_list, Sound, Changing, Removed, RemovedPost, remove_node-Removed, then_keep-Ended,
}
use wwn_iland.Epoll.EpollFd.Control.{
  rdwr, wronly, rdonly, unknown, no_access, FileKind, fifo_file, socket_file, other_file,
  node_type_of, CtlOp, ctl_add, ctl_del, ctl_mod, ctl_unknown, Control, Stat, file, no_file, System,
  is_del, epollfd_ctx_remove_node, insert_node, epollfd_ctx_add_node, control_file, control_stat,
  epollfd_ctx_ctl, remove_found, epollfd_ctx_remove_fd, ref_calls,
}
use wwn_iland.Epoll.EpollFd.Leaving.{register_events-Post}
use wwn_iland.Epoll.EpollFd.Needed.{has_end}
use wwn_iland.Epoll.EpollFd.Registration.{EpollFd, Answers, epollfd_ctx__register_events}
use wwn_iland.Epoll.EpollFd.Table.{NodeTree}
use wwn_iland.Epoll.EpollFd.Contract.{
  Result, asked, asked-own, added, refused-Result, Ended-Result, modify-Result, remove-Result,
  forget-Result,
}

same_number : (k : ℕ) → (k == k) ≡ true
same_number k = ground arith

-- A file's node can be read or written, and is not one for poll yet.
type_of_file :
    (desc : ℕ) (kind : FileKind)
    → ((ec : Errno) × (node_type_of desc kind ≡ fail ec))
      ⊎ ((type : NodeType) × (node_type_of desc kind ≡ ok type)
          × (has_end type false ≡ true)
          × (is_poll type ≡ false))
unfolding node_type_of
type_of_file desc (fifo_file true mode) = inr (kqueue desc, refl, refl, refl)
type_of_file desc (fifo_file false rdwr) = inr (fifo true true, refl, refl, refl)
type_of_file desc (fifo_file false wronly) = inr (fifo false true, refl, refl, refl)
type_of_file desc (fifo_file false rdonly) = inr (fifo true false, refl, refl, refl)
type_of_file desc (fifo_file false unknown) = inl (einval, refl)
type_of_file desc (fifo_file false (no_access ec)) = inl (ec, refl)
type_of_file desc socket_file = inr (socket, refl, refl, refl)
type_of_file desc other_file = inr (other, refl, refl, refl)

not_poll : (b : Bool) → b ≡ false → b ≡ true → ⊥
not_poll b h k = ground (arith, h, k)

module _ {T : Type 0} (tree : NodeTree T) (e : EpollFd T) (c : Control) (v : Sound tree e) where
  module _ (free : tree.find e.registered_fds c.fd2 ≡ none) (type : NodeType) where
    abbrev new_node : Node
    new_node = record (registered_fds_node_create c.fd2 type) {
      events = record c.ev.events { epollerr = false; epollhup = false };
      user_data = c.ev.user_data;
      is_edge_triggered = c.ev.epollet || c.ev.epolloneshot;
      is_oneshot = c.ev.epolloneshot;
    }

    abbrev with_node : EpollFd T
    with_node = record e {
      registered_fds = tree.insert e.registered_fds new_node;
      registered_fds_size = suc e.registered_fds_size;
      calls = ref_calls type e.calls;
    }

    new_node-Changing : has_end type false ≡ true → Changing tree with_node new_node new_node
    unfolding registered_fds_node_create
    new_node-Changing ends =
        let all = tree.count_if-insert all_nodes e.registered_fds new_node free in
        let listed = tree.count_if-insert on_list e.registered_fds new_node free in
        record {
          stored =
              tree.find-insert e.registered_fds new_node c.fd2 free ∙ rw (same_number c.fd2) refl;
          others = λ fd m h k.
              v.nodes fd m
                (sym (tree.find-insert e.registered_fds new_node fd free ∙ rw (h) refl) ∙ k);
          size = omega (arith, all, v.size);
          polled = omega (arith, listed, v.polled);
          node_ok = record { ends = ends; no_err = refl; no_hup = refl };
        }

    insert-Result :
        (a : Answers)
        → has_end type false ≡ true
        → is_poll type ≡ false
        → c.op ≡ ctl_add
        → Result tree e c (insert_node tree e c.fd2 c.ev a type)
    unfolding insert_node registered_fds_node_create
        registered_fds_node_update_flags_from_epoll_event
    insert-Result a ends no_poll is_add =
        let changing = new_node-Changing ends in
        rw (free) (
          Ended-Result tree e c v with_node.registered_fds c.fd2 (asked c.ev (is_socket type)) _
            refl (λ j h. tree.find-insert e.registered_fds new_node j free ∙ rw (h) refl)
            (λ m data_m registered_m.
              rw (free) (added m is_add (asked-own c.ev m (is_socket type) data_m) registered_m))
            (then_keep-Ended tree with_node new_node new_node
              (epollfd_ctx__register_events with_node new_node a) changing
              (register_events-Post with_node new_node changing.node_ok a
                (λ h. absurd (not_poll false refl h))
                (λ h. absurd (not_poll (is_poll type) no_poll h)) (λ h. refl))))

  add-Result :
      (s : System) (kind : FileKind)
      → tree.find e.registered_fds c.fd2 ≡ none
      → c.op ≡ ctl_add
      → Result tree e c (epollfd_ctx_add_node tree e c s kind)
  unfolding epollfd_ctx_add_node
  add-Result s kind free is_add =
      either_on (Result tree e c) (not s.has_memory) _ _ (λ h. refused-Result tree e c v enomem)
        (λ h. elim (type_of_file c.pollable_desc kind) [
          | inl (ec, failed) ↦ rw (failed) (refused-Result tree e c v ec)
          | inr (type, known, ends, no_poll) ↦
              rw (known) (insert-Result free type s.answers ends no_poll is_add)
        ])

  control_file-Result :
      (s : System) (found : Option Node) (kind : FileKind) (op : CtlOp)
      → tree.find e.registered_fds c.fd2 ≡ found
      → c.op ≡ op
      → Result tree e c (control_file tree e c s found kind op)
  unfolding control_file
  control_file-Result s none kind ctl_add f o = add-Result s kind f o
  control_file-Result s (some n) kind ctl_add f o = refused-Result tree e c v eexist
  control_file-Result s none kind ctl_del f o = refused-Result tree e c v enoent
  control_file-Result s (some n) kind ctl_del f o = remove-Result tree e c v n f o
  control_file-Result s none kind ctl_mod f o = refused-Result tree e c v enoent
  control_file-Result s (some n) kind ctl_mod f o = modify-Result tree e c v n s.answers f o
  control_file-Result s none kind ctl_unknown f o = refused-Result tree e c v einval
  control_file-Result s (some n) kind ctl_unknown f o = refused-Result tree e c v einval

  control_stat-Result :
      (s : System) (stat : Stat)
      → Result tree e c (control_stat tree e c s (tree.find e.registered_fds c.fd2) stat)
  unfolding control_stat
  control_stat-Result s (file kind) =
      control_file-Result s (tree.find e.registered_fds c.fd2) kind c.op refl refl
  control_stat-Result s (no_file ec) =
      forget-Result tree e c v (tree.find e.registered_fds c.fd2) ec refl

  -- Every call of epollfd_ctx_ctl comes to an end without a failing assertion, whatever the system
  -- answers, and implements a table from descriptors to what the caller asked for, which is
  -- EPOLLIN and EPOLLOUT, on a socket EPOLLPRI and EPOLLRDHUP, the user data, and whether the entry
  -- is edge triggered or oneshot: it adds, changes or
  -- removes the entry of its descriptor and returns 0, or fails and leaves the entry, or fails and
  -- removes it; no other entry is touched. The sizes stay those of the tree and of the list of
  -- polled nodes, and every node of the tree stands at its descriptor and is registered. A change or
  -- removal that succeeds found an entry, and an addition found none.
  pub ctl_refines : (s : System) → Result tree e c (epollfd_ctx_ctl tree e c s)
  unfolding epollfd_ctx_ctl
  ctl_refines s =
      either_on (Result tree e c) (c.kq == c.fd2) _ _ (λ h. refused-Result tree e c v einval)
        (λ h.
          either_on (Result tree e c) (not (is_del c.op) && c.ev.unsupported) _ _
            (λ h. refused-Result tree e c v einval) (λ h. control_stat-Result s s.stat))

removal_ends :
    {T : Type 0} (tree : NodeTree T) (e : EpollFd T) (n : Node) (p : EpollFd T × Outcome (Unit {0}))
    → RemovedPost tree e n p
    → (e' : EpollFd T) × (p ≡ (e', ok tt)) × Removed tree e n e'
removal_ends tree e n (e', ok u) r = (e', refl, r)
removal_ends tree e n (e', fail ec) r = absurd r
removal_ends tree e n (e', blocks) r = absurd r
removal_ends tree e n (e', fault) r = absurd r
removal_ends tree e n (e', aborted) r = absurd r

remove_found-none :
    {T : Type 0} (tree : NodeTree T) (e : EpollFd T) → remove_found tree e none ≡ (e, ok tt)
unfolding remove_found
remove_found-none tree e = refl

remove_found-some :
    {T : Type 0} (tree : NodeTree T) (e : EpollFd T) (n : Node)
    → remove_found tree e (some n) ≡ epollfd_ctx_remove_node tree e n
unfolding remove_found
remove_found-some tree e n = refl

-- A descriptor that is closed leaves the epoll descriptor, and no other one does.
pub remove_fd_removes :
    {T : Type 0} (tree : NodeTree T) (e : EpollFd T) (fd2 : ℕ)
    → Sound tree e
    → (e' : EpollFd T) × (epollfd_ctx_remove_fd tree e fd2 ≡ (e', ok tt))
      × Sound tree e'
      × ((fd : ℕ)
          → tree.find e'.registered_fds fd
            ≡ (if fd2 == fd then none else tree.find e.registered_fds fd))
unfolding epollfd_ctx_remove_fd
remove_fd_removes {T = T} tree e fd2 v = go (tree.find e.registered_fds fd2) refl
  where
    unchanged :
        (fd : ℕ)
        → tree.find e.registered_fds fd2 ≡ none
        → tree.find e.registered_fds fd
          ≡ (if fd2 == fd then none else tree.find e.registered_fds fd)
    unchanged fd h = elim (Bool-cases (fd2 == fd)) [
      | inl same ↦ let equal : fd2 ≡ fd = ground (arith, same) in rw (same) (rw (sym equal) h)
      | inr differs ↦ rw (differs) refl
    ]

    go :
        (found : Option Node)
        → tree.find e.registered_fds fd2 ≡ found
        → (e' : EpollFd T) × (remove_found tree e found ≡ (e', ok tt))
          × Sound tree e'
          × ((fd : ℕ)
              → tree.find e'.registered_fds fd
                ≡ (if fd2 == fd then none else tree.find e.registered_fds fd))
    go none h = (e, remove_found-none tree e, v, λ fd. unchanged fd h)
    go (some n) h =
        let at_n = v.nodes fd2 n h in
        let (e', removes, r) = removal_ends tree e n (epollfd_ctx_remove_node tree e n) (
          remove_node-Removed tree e n n (record {
            stored = ap (tree.find e.registered_fds) at_n.at ∙ h;
            others = λ fd m h k. v.nodes fd m k;
            size = v.size;
            polled = omega (arith, v.polled);
            node_ok = at_n.node_ok;
          })) in
        (e', remove_found-some tree e n ∙ removes, r.sound, λ fd. rw (sym at_n.at) (r.found fd))
