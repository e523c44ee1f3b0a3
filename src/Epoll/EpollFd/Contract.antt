-- ===== src/Epoll/EpollFd/Contract.antt =====
-- The contract of epollfd_ctx_ctl of epollfd_ctx.c, and the calls of it on a node that is known.
use wwn_iland.Common.{
  ℕ, ◌≡◌, refl, sym, ap, ◌∙◌, Bool, true, false, ◌||◌, ◌&&◌, Option, none, some, Errno, Outcome, ok,
  fail, blocks, fault, aborted, and_then, assert, if◌then◌else◌, ◌==◌, arith,
}
use wwn_iland.Epoll.EpollFd.{
  EpollEvent, is_socket, Node, registered_fds_node_update_flags_from_epoll_event,
}
use wwn_iland.Epoll.EpollFd.Account.{
  some_room, Sound, Changing, RemovedPost, remove_node-Removed, Ended, then_keep-Ended,
}
use wwn_iland.Epoll.EpollFd.Control.{
  ctl_add, ctl_del, ctl_mod, Control, is_del, epollfd_ctx_remove_node, epollfd_ctx_modify_node,
  forget,
}
use wwn_iland.Epoll.EpollFd.Leaving.{register_events-Post}
use wwn_iland.Epoll.EpollFd.Registering.{Setting, setting, NodeOk}
use wwn_iland.Epoll.EpollFd.Registration.{EpollFd, Answers, epollfd_ctx__register_events}
use wwn_iland.Epoll.EpollFd.Table.{NodeTree}

clash : (b : Bool) → b ≡ false → b ≡ true → ⊥
clash b h k = ground (arith, h, k)

asserted :
    {S A : Type 0} (P : S × Outcome A → Type 0) (b : Bool) (s : S) (rest : S × Outcome A)
    → b ≡ true
    → P rest
    → P (assert b s rest)
asserted P true s rest h p = p
asserted P false s rest h p = absurd (ground (arith, h))

same_number : (k : ℕ) → (k == k) ≡ true
same_number k = ground arith

-- What a caller asks for, of a socket or of another file. A oneshot entry is edge triggered, too.
abbrev pub asked : EpollEvent → (on_socket : Bool) → Setting
asked ev on_socket = record {
  on_socket = on_socket;
  input = ev.events.epollin;
  output = ev.events.epollout;
  urgent = on_socket && ev.events.epollpri;
  hang_up = on_socket && ev.events.epollrdhup;
  user = ev.user_data;
  edge_triggered = ev.epollet || ev.epolloneshot;
  oneshot = ev.epolloneshot;
}

-- An entry is set as the caller asks for its file.
abbrev pub IsAsked : EpollEvent → Node → Type 0
IsAsked ev n = setting n ≡ asked ev (is_socket n.node_type)

pub asked-own :
    (ev : EpollEvent) (n : Node) (on_socket : Bool) → setting n ≡ asked ev on_socket → IsAsked ev n
asked-own ev n on_socket h = h ∙ ap (asked ev) (sym (ap (λ (s : Setting). s.on_socket) h))

-- What a call does to the node of its descriptor: `refused` leaves it as it is, `forgotten` removes
-- it where the file is gone or the registration fails.
pub data Step (c : Control) : Option Node → Outcome (Unit {0}) → Option Node → Type 0 where
  added :
      (n' : Node)
      → c.op ≡ ctl_add
      → IsAsked c.ev n'
      → n'.is_registered ≡ true
      → Step c none (ok tt) (some n')
  modified :
      (n n' : Node)
      → c.op ≡ ctl_mod
      → IsAsked c.ev n'
      → n'.is_registered ≡ true
      → Step c (some n) (ok tt) (some n')
  deleted : (n : Node) → c.op ≡ ctl_del → Step c (some n) (ok tt) none
  refused : (before : Option Node) (ec : Errno) → Step c before (fail ec) before
  forgotten : (before : Option Node) (ec : Errno) → Step c before (fail ec) none

module _ {T : Type 0} (tree : NodeTree T) where
  -- The result of a call: the account is kept, and no other descriptor is touched.
  pub record Result (e : EpollFd T) (c : Control) (p : EpollFd T × Outcome (Unit {0}))
      : Type 0 where
    pub sound : Sound tree p.0
    pub frame :
        (fd : ℕ)
        → (c.fd2 == fd) ≡ false
        → tree.find p.0.registered_fds fd ≡ tree.find e.registered_fds fd
    pub step : Step c (tree.find e.registered_fds c.fd2) p.1 (tree.find p.0.registered_fds c.fd2)

  module _ (e : EpollFd T) (c : Control) (v : Sound tree e) where
    pub refused-Result : (ec : Errno) → Result e c (e, fail ec)
    refused-Result ec = record {
      sound = v;
      frame = λ fd h. refl;
      step = refused (tree.find e.registered_fds c.fd2) ec;
    }

    at_fd2 :
        (e' : EpollFd T) (x : Option Node) (t : T)
        → ((j : ℕ) → tree.find e'.registered_fds j ≡ (if c.fd2 == j then x else tree.find t j))
        → tree.find e'.registered_fds c.fd2 ≡ x
    at_fd2 e' x t h = h c.fd2 ∙ rw (same_number c.fd2) refl

    elsewhere :
        (e' : EpollFd T) (x : Option Node) (t : T)
        → ((j : ℕ) → tree.find e'.registered_fds j ≡ (if c.fd2 == j then x else tree.find t j))
        → (j : ℕ) → (c.fd2 == j) ≡ false
        → tree.find e'.registered_fds j ≡ tree.find t j
    elsewhere e' x t h j k = h j ∙ rw (k) refl

    -- The end of a registration, for a tree that differs from the first at the descriptor only.
    pub Ended-Result :
        (t : T) (fd : ℕ) (d : Setting) (p : EpollFd T × Outcome (Unit {0}))
        → fd ≡ c.fd2
        → ((j : ℕ) → (c.fd2 == j) ≡ false → tree.find t j ≡ tree.find e.registered_fds j)
        → ((m : Node)
            → setting m ≡ d
            → m.is_registered ≡ true
            → Step c (tree.find e.registered_fds c.fd2) (ok tt) (some m))
        → Ended tree t fd d p
        → Result e c p
    Ended-Result t fd d (e', ok u) at same step (sound, (m, data_m, registered_m, found)) = record {
      sound = sound;
      frame = λ j h. elsewhere e' (some m) t (rw (sym at) found) j h ∙ same j h;
      step = rw (at_fd2 e' (some m) t (rw (sym at) found)) (step m data_m registered_m);
    }
    Ended-Result t fd d (e', fail ec) at same step (sound, found) = record {
      sound = sound;
      frame = λ j h. elsewhere e' none t (rw (sym at) found) j h ∙ same j h;
      step =
          rw (at_fd2 e' none t (rw (sym at) found))
            (forgotten (tree.find e.registered_fds c.fd2) ec);
    }
    Ended-Result t fd d (e', blocks) at same step h = absurd h
    Ended-Result t fd d (e', fault) at same step h = absurd h
    Ended-Result t fd d (e', aborted) at same step h = absurd h

    -- The removal of the node of the descriptor.
    pub Removed-Result :
        (n : Node) (p : EpollFd T × Outcome (Unit {0}))
        → n.fd ≡ c.fd2
        → Step c (tree.find e.registered_fds c.fd2) (ok tt) none
        → RemovedPost tree e n p
        → Result e c p
    Removed-Result n (e', ok u) at step r = record {
      sound = r.sound;
      frame = elsewhere e' none e.registered_fds (rw (sym at) r.found);
      step = rw (at_fd2 e' none e.registered_fds (rw (sym at) r.found)) step;
    }
    Removed-Result n (e', fail ec) at step r = absurd r
    Removed-Result n (e', blocks) at step r = absurd r
    Removed-Result n (e', fault) at step r = absurd r
    Removed-Result n (e', aborted) at step r = absurd r

    -- The same where an error is returned.
    Forgotten-Result :
        (n : Node) (ec : Errno) (p : EpollFd T × Outcome (Unit {0}))
        → n.fd ≡ c.fd2
        → RemovedPost tree e n p
        → Result e c (and_then p (λ e u. (e, fail ec)))
    Forgotten-Result n ec (e', ok u) at r = record {
      sound = r.sound;
      frame = elsewhere e' none e.registered_fds (rw (sym at) r.found);
      step =
          rw (at_fd2 e' none e.registered_fds (rw (sym at) r.found))
            (forgotten (tree.find e.registered_fds c.fd2) ec);
    }
    Forgotten-Result n ec (e', fail x) at r = absurd r
    Forgotten-Result n ec (e', blocks) at r = absurd r
    Forgotten-Result n ec (e', fault) at r = absurd r
    Forgotten-Result n ec (e', aborted) at r = absurd r

    stored-Changing :
        (n n' : Node)
        → tree.find e.registered_fds c.fd2 ≡ some n
        → n'.fd ≡ n.fd
        → n'.is_on_pollfd_list ≡ n.is_on_pollfd_list
        → NodeOk n'
        → Changing tree e n' n
    stored-Changing n n' found same listed ok_n =
        let at : n'.fd ≡ c.fd2 = same ∙ (v.nodes c.fd2 n found).at in
        record {
          stored = rw (at) found;
          others = λ fd m h k. v.nodes fd m k;
          size = v.size;
          polled = rw (listed) (omega (arith, v.polled));
          node_ok = ok_n;
        }

    pub modify-Result :
        (n : Node) (a : Answers)
        → tree.find e.registered_fds c.fd2 ≡ some n
        → c.op ≡ ctl_mod
        → Result e c (epollfd_ctx_modify_node tree e n c.ev a)
    unfolding epollfd_ctx_modify_node registered_fds_node_update_flags_from_epoll_event
    modify-Result n a found is_mod =
        let at_n = v.nodes c.fd2 n found in
        let n' = registered_fds_node_update_flags_from_epoll_event n c.ev in
        let ok_n' : NodeOk n' = record { ends = at_n.node_ok.ends; no_err = refl; no_hup = refl } in
        let changing = stored-Changing n n' found refl refl ok_n' in
        asserted (Result e c) n.is_registered e _ at_n.registered (
          Ended-Result e.registered_fds n'.fd (asked c.ev (is_socket n.node_type)) _ at_n.at
            (λ j h. refl)
            (λ m data_m registered_m.
              rw (found) (
                modified n m is_mod (asked-own c.ev m (is_socket n.node_type) data_m) registered_m))
            (then_keep-Ended tree e n' n (epollfd_ctx__register_events e n' a) changing (
              register_events-Post e n' ok_n' a (some_room tree e n' n changing)
                (λ h. at_n.registered) (λ h. absurd (clash n.is_registered h at_n.registered)))))

    pub remove-Result :
        (n : Node)
        → tree.find e.registered_fds c.fd2 ≡ some n
        → c.op ≡ ctl_del
        → Result e c (epollfd_ctx_remove_node tree e n)
    remove-Result n found is_del =
        let at_n = v.nodes c.fd2 n found in
        Removed-Result n (epollfd_ctx_remove_node tree e n) at_n.at (rw (found) (deleted n is_del))
          (remove_node-Removed tree e n n (stored-Changing n n found refl refl at_n.node_ok))

    pub forget-Result :
        (found : Option Node) (ec : Errno)
        → tree.find e.registered_fds c.fd2 ≡ found
        → Result e c (forget tree e found ec)
    unfolding forget
    forget-Result none ec found = refused-Result ec
    forget-Result (some n) ec found =
        let at_n = v.nodes c.fd2 n found in
        Forgotten-Result n ec (epollfd_ctx_remove_node tree e n) at_n.at
          (remove_node-Removed tree e n n (stored-Changing n n found refl refl at_n.node_ok))
