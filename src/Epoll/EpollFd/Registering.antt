-- ===== src/Epoll/EpollFd/Registering.antt =====
-- A registration of epollfd_ctx.c comes to an end, and what it leaves of the node.
use wwn_iland.Common.{
  ℕ, suc, ◌+◌, ◌≡◌, refl, Bool, ◌∙◌, true, false, ◌||◌, ◌&&◌, bit, Option, none, some, [], ◌∷◌,
  ◌++◌, Errno, ok, fail, blocks, fault, aborted, ◌==◌, arith, either_on,
}
use wwn_iland.Epoll.EpollFd.{poll, is_socket, is_other, Node, add_self, add, evfilt_user}
use wwn_iland.Epoll.EpollFd.Needed.{has_end}
use wwn_iland.Epoll.EpollFd.Registration.{
  EpollFd, Answers, Registered, epollfd_ctx__trigger_repoll, registered_fds_node_add_self_trigger,
  join_poll_list, register_poll,
}

-- What a caller has set of a node.
pub record Setting : Type 0 where
  pub on_socket : Bool
  -- EPOLLIN and EPOLLOUT, and EPOLLPRI and EPOLLRDHUP, which only a socket waits for.
  pub input : Bool
  pub output : Bool
  pub urgent : Bool
  pub hang_up : Bool
  pub user : ℕ
  pub edge_triggered : Bool
  pub oneshot : Bool

abbrev pub setting : Node → Setting
setting n = record {
  on_socket = is_socket n.node_type;
  input = n.events.epollin;
  output = n.events.epollout;
  urgent = is_socket n.node_type && n.events.epollpri;
  hang_up = is_socket n.node_type && n.events.epollrdhup;
  user = n.user_data;
  edge_triggered = n.is_edge_triggered;
  oneshot = n.is_oneshot;
}

-- A node as epoll_ctl leaves it.
pub record NodeOk (n : Node) : Type 0 where
  pub ends : has_end n.node_type (n.read_eof || n.write_eof) ≡ true
  pub no_err : n.events.epollerr ≡ false
  pub no_hup : n.events.epollhup ≡ false

module _ {T : Type 0} where
  -- A step changes the node and the list of polled descriptors, and keeps their account.
  pub record Done (e : EpollFd T) (n : Node) (e' : EpollFd T) (n' : Node) : Type 0 where
    pub tree : e'.registered_fds ≡ e.registered_fds
    pub size : e'.registered_fds_size ≡ e.registered_fds_size
    pub fd : n'.fd ≡ n.fd
    pub same_setting : setting n' ≡ setting n
    pub registered : n'.is_registered ≡ n.is_registered
    pub polled :
        e'.poll_fds_size + bit n.is_on_pollfd_list ≡ e.poll_fds_size + bit n'.is_on_pollfd_list
    pub node_ok : NodeOk n'

  -- The step comes to an end.
  abbrev pub Post : EpollFd T → Node → EpollFd T × Registered → Type 0
  Post e n (e', ok (n', ec)) = Done e n e' n'
  Post e n (e', fail ec) = ⊥
  Post e n (e', blocks) = ⊥
  Post e n (e', fault) = ⊥
  Post e n (e', aborted) = ⊥

  Done-then :
      (e e' e'' : EpollFd T) (n n' n'' : Node)
      → Done e n e' n'
      → Done e' n' e'' n''
      → Done e n e'' n''
  Done-then e e' e'' n n' n'' d d' = record {
    tree = d'.tree ∙ d.tree;
    size = d'.size ∙ d.size;
    fd = d'.fd ∙ d.fd;
    same_setting = d'.same_setting ∙ d.same_setting;
    registered = d'.registered ∙ d.registered;
    polled = omega (arith, d.polled, d'.polled);
    node_ok = d'.node_ok;
  }

  pub Post-then :
      (e e' : EpollFd T) (n n' : Node) (p : EpollFd T × Registered)
      → Done e n e' n'
      → Post e' n' p
      → Post e n p
  Post-then e e' n n' (e'', ok (n'', ec)) d h = Done-then e e' e'' n n' n'' d h
  Post-then e e' n n' (e'', fail ec) d h = h
  Post-then e e' n n' (e'', blocks) d h = h
  Post-then e e' n n' (e'', fault) d h = h
  Post-then e e' n n' (e'', aborted) d h = h

  -- The fields of the descriptor that a step leaves alone.
  unfoldable pub Same : EpollFd T → EpollFd T → Type 0
  Same e e' =
      (e'.registered_fds ≡ e.registered_fds)
      × (e'.registered_fds_size ≡ e.registered_fds_size)
      × (e'.poll_fds_size ≡ e.poll_fds_size)

  pub repoll-Same : (e : EpollFd T) → Same e (epollfd_ctx__trigger_repoll e)
  unfolding epollfd_ctx__trigger_repoll Same
  repoll-Same e =
      either_on (Same e) (e.nr_polling_threads == 0) _ _ (λ h. (refl, refl, refl))
        (λ h. (refl, refl, refl))

  pub Done-Same : (e e' : EpollFd T) (n : Node) → NodeOk n → Same e e' → Done e n e' n
  unfolding Same
  Done-Same e e' n v (t, s, p) = record {
    tree = t;
    size = s;
    fd = refl;
    same_setting = refl;
    registered = refl;
    polled = omega (arith, p);
    node_ok = v;
  }

  joined :
      (e : EpollFd T) (n : Node)
      → n.is_on_pollfd_list ≡ false
      → NodeOk n
      → Done e n
          (epollfd_ctx__trigger_repoll (record e {
            calls = add_self ∷ e.calls;
            poll_fds = e.poll_fds ++ n.fd ∷ [];
            poll_fds_size = suc e.poll_fds_size;
          }))
          (record n { is_on_pollfd_list = true })
  unfolding Same
  joined e n off v =
      let (t, s, p) = repoll-Same (record e {
        calls = add_self ∷ e.calls;
        poll_fds = e.poll_fds ++ n.fd ∷ [];
        poll_fds_size = suc e.poll_fds_size;
      }) in
      record {
        tree = t;
        size = s;
        fd = refl;
        same_setting = refl;
        registered = refl;
        polled = rw (off) (omega (arith, p));
        node_ok = record { ends = v.ends; no_err = v.no_err; no_hup = v.no_hup };
      }

  join_poll_list-Post :
      (e : EpollFd T) (n : Node) (a : Option Errno) → NodeOk n → Post e n (join_poll_list e n a)
  unfolding join_poll_list Same
  join_poll_list-Post e n none v =
      either_on (Post e n) n.is_on_pollfd_list _ _ (λ h. Done-Same e _ n v (repoll-Same e))
        (λ off. joined e n off v)
  join_poll_list-Post e n (some ec) v =
      either_on (Post e n) n.is_on_pollfd_list _ _ (λ h. Done-Same e _ n v (repoll-Same e))
        (λ off. Done-Same e _ n v (refl, refl, refl))

  pub register_poll-Post :
      (e : EpollFd T) (n : Node) (a : Answers)
      → NodeOk n
      → (n.events.epollpri || n.events.epollrdhup) ≡ false
      → is_socket n.node_type ≡ false
      → (n.is_registered || is_other n.node_type) ≡ true
      → Post e n (register_poll e n a)
  unfolding register_poll registered_fds_node_add_self_trigger Same
  register_poll-Post e n a v quiet no_socket known = rw (quiet, known) (by_trigger a.node_trigger)
    where
      n' : Node
      n' = record n {
        has_evfilt_read = false;
        has_evfilt_write = false;
        has_evfilt_except = false;
        node_type = poll;
      }

      e' : EpollFd T
      e' = record e { calls = add n.fd evfilt_user true ∷ e.calls }

      v' : NodeOk n'
      v' = record { ends = refl; no_err = v.no_err; no_hup = v.no_hup }

      turned : Done e n e' n'
      turned = record {
        tree = refl;
        size = refl;
        fd = refl;
        same_setting = rw (no_socket) refl;
        registered = refl;
        polled = refl;
        node_ok = v';
      }

      by_trigger :
          (t : Option Errno)
          → Post e n (elim t [
            | some ec ↦ (e', ok (n', some ec))
            | none ↦ join_poll_list e' n' a.self_trigger
          ])
      by_trigger none =
          Post-then e e' n n' (join_poll_list e' n' a.self_trigger) turned
            (join_poll_list-Post e' n' a.self_trigger v')
      by_trigger (some ec) = turned
