-- ===== src/Epoll/EpollFd/Leaving.antt =====
-- epollfd_ctx__remove_node_from_kq and epollfd_ctx__register_events of epollfd_ctx.c: no assertion fails.
use wwn_iland.Common.{
  ℕ, ◌-◌, ◌<◌, ◌≡◌, refl, sym, ap, ◌∙◌, Bool, true, false, ◌||◌, Outcome, ok, fail, blocks, fault,
  aborted, and_then, ◌==◌, arith, either_on,
}
use wwn_iland.Epoll.EpollFd.{NodeType, fifo, kqueue, socket, other, poll, is_socket, is_poll, Node}
use wwn_iland.Epoll.EpollFd.Needed.{waits_only}
use wwn_iland.Epoll.EpollFd.Registration.{
  EpollFd, Answers, epollfd_ctx__trigger_repoll, leave_poll_list, delete_filters,
  epollfd_ctx__remove_node_from_kq, masked, without, register_filters, epollfd_ctx__register_events,
}
use wwn_iland.Epoll.EpollFd.Receipts.{quiet-other, register_filters-Post}
use wwn_iland.Epoll.EpollFd.Registering.{
  NodeOk, Done, Post, Post-then, Same, repoll-Same, register_poll-Post,
}

abbrev pub has_filters : Node → Bool
has_filters n = n.has_evfilt_read || n.has_evfilt_write || n.has_evfilt_except

some_is_not_zero : (k : ℕ) → 0 < k → (k == 0) ≡ false
some_is_not_zero k h = ground (arith, h)

clash : (b : Bool) → b ≡ false → b ≡ true → ⊥
clash b h k = ground (arith, h, k)

waits-same :
    (m n : Node)
    → n.node_type ≡ m.node_type
    → n.events ≡ m.events
    → waits_only m.node_type m.events ≡ true
    → waits_only n.node_type n.events ≡ true
waits-same m n t e w = rw (t, e) w

poll-socket : (type : NodeType) → is_poll type ≡ true → is_socket type ≡ false
poll-socket (fifo r w) h = refl
poll-socket (kqueue d) h = refl
poll-socket socket h = absurd (ground (arith, h))
poll-socket other h = refl
poll-socket poll h = refl

module _ {T : Type 0} where
  -- The node is on no list, and the type and the events stay.
  pub record Left (e : EpollFd T) (n : Node) (e' : EpollFd T) (n' : Node) : Type 0 where
    pub done : Done e n e' n'
    pub off_list : n'.is_on_pollfd_list ≡ false
    pub type : n'.node_type ≡ n.node_type
    pub events : n'.events ≡ n.events

  abbrev LeftList : EpollFd T → Node → EpollFd T × Outcome Node → Type 0
  LeftList e n (e', ok n') = Left e n e' n'
  LeftList e n (e', fail ec) = ⊥
  LeftList e n (e', blocks) = ⊥
  LeftList e n (e', fault) = ⊥
  LeftList e n (e', aborted) = ⊥

  -- So too, and the filters are deleted.
  abbrev pub LeftQueue : EpollFd T → Node → EpollFd T × Outcome Node → Type 0
  LeftQueue e n (e', ok n') =
      Left e n e' n' × (is_poll n.node_type ≡ false → has_filters n' ≡ false)
  LeftQueue e n (e', fail ec) = ⊥
  LeftQueue e n (e', blocks) = ⊥
  LeftQueue e n (e', fault) = ⊥
  LeftQueue e n (e', aborted) = ⊥

  off_the_list :
      (e : EpollFd T) (n : Node)
      → NodeOk n
      → n.is_on_pollfd_list ≡ true
      → 0 < e.poll_fds_size
      → Left e n
          (epollfd_ctx__trigger_repoll
            (record e { poll_fds = without n.fd e.poll_fds; poll_fds_size = e.poll_fds_size - 1 }))
          (record n { is_on_pollfd_list = false })
  unfolding Same
  off_the_list e n v on some_left =
      let (t, s, p) =
        repoll-Same
          (record e { poll_fds = without n.fd e.poll_fds; poll_fds_size = e.poll_fds_size - 1 }) in
      record {
        done = record {
          tree = t;
          size = s;
          fd = refl;
          same_setting = refl;
          registered = refl;
          polled = rw (on) (omega (arith, p, some_left));
          node_ok = record { ends = v.ends; no_err = v.no_err; no_hup = v.no_hup };
        };
        off_list = refl;
        type = refl;
        events = refl;
      }

  leave_poll_list-LeftList :
      (e : EpollFd T) (n : Node)
      → NodeOk n
      → (n.is_on_pollfd_list ≡ true → 0 < e.poll_fds_size)
      → LeftList e n (leave_poll_list e n)
  unfolding leave_poll_list
  leave_poll_list-LeftList e n v room =
      either_on (LeftList e n) n.is_on_pollfd_list _ _
        (λ on. rw (some_is_not_zero e.poll_fds_size (room on)) (off_the_list e n v on (room on)))
        (λ off. record {
          done = record {
            tree = refl;
            size = refl;
            fd = refl;
            same_setting = refl;
            registered = refl;
            polled = refl;
            node_ok = v;
          };
          off_list = off;
          type = refl;
          events = refl;
        })

  delete_filters-LeftQueue :
      (e e' : EpollFd T) (n n' : Node) → Left e n e' n' → LeftQueue e n (delete_filters e' n')
  unfolding delete_filters
  delete_filters-LeftQueue e e' n n' l =
      either_on (LeftQueue e n) (is_poll n'.node_type) _ _
        (λ h. (
          record {
            done = record {
              tree = l.done.tree;
              size = l.done.size;
              fd = l.done.fd;
              same_setting = l.done.same_setting;
              registered = l.done.registered;
              polled = l.done.polled;
              node_ok = l.done.node_ok;
            };
            off_list = l.off_list;
            type = l.type;
            events = l.events;
          },
          λ not_poll. absurd (clash (is_poll n.node_type) not_poll (ap is_poll (sym l.type) ∙ h)),
        ))
        (λ h. (
          record {
            done = record {
              tree = l.done.tree;
              size = l.done.size;
              fd = l.done.fd;
              same_setting = l.done.same_setting;
              registered = l.done.registered;
              polled = l.done.polled;
              node_ok = record {
                ends = l.done.node_ok.ends;
                no_err = l.done.node_ok.no_err;
                no_hup = l.done.node_ok.no_hup;
              };
            };
            off_list = l.off_list;
            type = l.type;
            events = l.events;
          },
          λ not_poll. refl,
        ))

  then_delete :
      (e : EpollFd T) (n : Node) (p : EpollFd T × Outcome Node)
      → LeftList e n p
      → LeftQueue e n (and_then p delete_filters)
  then_delete e n (e', ok n') l = delete_filters-LeftQueue e e' n n' l
  then_delete e n (e', fail ec) l = l
  then_delete e n (e', blocks) l = l
  then_delete e n (e', fault) l = l
  then_delete e n (e', aborted) l = l

  pub remove_node_from_kq-LeftQueue :
      (e : EpollFd T) (n : Node)
      → NodeOk n
      → (n.is_on_pollfd_list ≡ true → 0 < e.poll_fds_size)
      → LeftQueue e n (epollfd_ctx__remove_node_from_kq e n)
  unfolding epollfd_ctx__remove_node_from_kq
  remove_node_from_kq-LeftQueue e n v room =
      then_delete e n (leave_poll_list e n) (leave_poll_list-LeftList e n v room)

-- What the mask of the events leaves of a node.
record Masked {T : Type 0} (e : EpollFd T) (n m : Node) : Type 0 where
  done : Done e n e m
  quiet : waits_only m.node_type m.events ≡ true
  type : m.node_type ≡ n.node_type
  filters : has_filters m ≡ has_filters n
  list : m.is_on_pollfd_list ≡ n.is_on_pollfd_list

module _ {T : Type 0} (e : EpollFd T) (n : Node) (v : NodeOk n) where
  masked-Masked : Masked e n (masked n)
  masked-Masked =
      either_on (Masked e n) (is_socket n.node_type) _ _
        (λ h. record {
          done = record {
            tree = refl;
            size = refl;
            fd = refl;
            same_setting = refl;
            registered = refl;
            polled = refl;
            node_ok = v;
          };
          quiet = rw (h) refl;
          type = refl;
          filters = refl;
          list = refl;
        })
        (λ h. record {
          done = record {
            tree = refl;
            size = refl;
            fd = refl;
            same_setting = rw (h) refl;
            registered = refl;
            polled = refl;
            node_ok = record { ends = v.ends; no_err = v.no_err; no_hup = v.no_hup };
          };
          quiet = rw (h) refl;
          type = refl;
          filters = refl;
          list = refl;
        })

  then_register :
      (m : Node) (a : Answers) (p : EpollFd T × Outcome Node)
      → waits_only m.node_type m.events ≡ true
      → is_poll m.node_type ≡ false
      → LeftQueue e m p
      → Post e m (and_then p (λ e n. register_filters e a n))
  then_register m a (e', ok n') w h (l, clean) =
      Post-then e e' m n' (register_filters e' a n') l.done
        (register_filters-Post e' n' a l.done.node_ok (clean h) (waits-same m n' l.type l.events w))
  then_register m a (e', fail ec) w h l = absurd l
  then_register m a (e', blocks) w h l = absurd l
  then_register m a (e', fault) w h l = absurd l
  then_register m a (e', aborted) w h l = absurd l

  -- A registration of a node comes to an end, whatever the kqueue answers.
  pub register_events-Post :
      (a : Answers)
      → (n.is_on_pollfd_list ≡ true → 0 < e.poll_fds_size)
      → (is_poll n.node_type ≡ true → n.is_registered ≡ true)
      → (n.is_registered ≡ false → has_filters n ≡ false)
      → Post e n (epollfd_ctx__register_events e n a)
  unfolding epollfd_ctx__register_events
  register_events-Post a room polled fresh =
      let m = masked n in
      let ok_m = masked-Masked in
      either_on (Post e n) (is_poll n.node_type) _ _
        (λ h. Post-then e e n m _ ok_m.done (
          register_poll-Post e m a ok_m.done.node_ok
            (quiet-other m.node_type m.events (ap is_socket ok_m.type ∙ poll-socket n.node_type h)
              ok_m.quiet)
            (ap is_socket ok_m.type ∙ poll-socket n.node_type h)
            (rw (ok_m.done.registered ∙ polled h) refl)))
        (λ h. Post-then e e n m _ ok_m.done (
          either_on (λ p. Post e m (and_then p (λ e n. register_filters e a n))) n.is_registered _ _
            (λ r. then_register m a _ ok_m.quiet (ap is_poll ok_m.type ∙ h) (
              remove_node_from_kq-LeftQueue e m ok_m.done.node_ok
                (λ on. room (sym ok_m.list ∙ on))))
            (λ r.
              register_filters-Post e m a ok_m.done.node_ok (ok_m.filters ∙ fresh r) ok_m.quiet)))
