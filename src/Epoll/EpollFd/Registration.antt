-- ===== src/Epoll/EpollFd/Registration.antt =====
-- epollfd_ctx.c: the registration of a node in the kqueue, and epollfd_ctx_ctl.
use wwn_iland.Common.{
  ℕ, suc, ◌-◌, Bool, true, false, not, ◌&&◌, ◌||◌, Option, none, some, List, [], ◌∷◌, ◌++◌, Errno,
  Outcome, ok, aborted, sys_error, and_then, assert, if◌then◌else◌, ◌==◌,
}
use wwn_iland.Epoll.EpollFd.{
  poll, is_fifo, is_socket, is_other, is_poll, Node, EvFilter, evfilt_read, evfilt_write,
  evfilt_except, evfilt_user, Change, add, delete, trigger, add_self, trigger_self,
}
use wwn_iland.Epoll.EpollFd.Filters.{
  off, level, clear, is_on, Filter, NeededFilters, get_needed_filters,
}

-- `EpollFDCtx` without its buffers for events; `calls` is what went to the kqueue, the latest first.
pub record EpollFd (T : Type 0) : Type 0 where
  pub poll_fds : List ℕ
  pub poll_fds_size : ℕ
  pub registered_fds : T
  pub registered_fds_size : ℕ
  pub nr_polling_threads : ℕ
  pub calls : List Change

-- The data of a change's receipt.
pub data Receipt : Type 0 where
  done enodev epipe : Receipt
  failed : Errno → Receipt

-- The kqueue's answers to a registration: the error of the call, the receipts of the three filters,
-- and the errors of the two user events.
pub record Answers : Type 0 where
  pub call : Option Errno
  pub read : Receipt
  pub write : Receipt
  pub except : Receipt
  pub node_trigger : Option Errno
  pub self_trigger : Option Errno

-- TAILQ_REMOVE
abbrev pub without : ℕ → List ℕ → List ℕ
without fd [] = []
without fd (x ∷ xs) = if fd == x then xs else x ∷ without fd xs

abbrev pub is_clear : Filter → Bool
is_clear off = false
is_clear level = false
is_clear clear = true

abbrev pub add_filter : ℕ → EvFilter → Filter → List Change → List Change
add_filter fd filter f calls = if is_on f then add fd filter (is_clear f) ∷ calls else calls

-- A registration returns the node with its error.
abbrev pub Registered : Type 0
Registered = Outcome (Node × Option Errno)

-- EPIPE and ENODEV have the numbers 32 and 19.
abbrev pub error_of : Receipt → Option Errno
error_of done = none
error_of epipe = some (sys_error 32)
error_of enodev = some (sys_error 19)
error_of (failed ec) = some ec

-- The receipt of an addition, `done` where the filter is not added.
abbrev pub receipt_of : Filter → Receipt → Receipt
receipt_of f r = if is_on f then r else done

abbrev pub is_epipe : Receipt → Bool
is_epipe done = false
is_epipe enodev = false
is_epipe epipe = true
is_epipe (failed ec) = false

abbrev pub is_enodev : Receipt → Bool
is_enodev done = false
is_enodev enodev = true
is_enodev epipe = false
is_enodev (failed ec) = false

-- The receipt of the first change.
abbrev pub first_receipt : NeededFilters → Answers → Receipt
first_receipt f a = if is_on f.read then a.read else a.write

-- Only sockets support EPOLLRDHUP and EPOLLPRI.
abbrev pub masked : Node → Node
masked n =
    if is_socket n.node_type
    then n
    else record n { events = record n.events { epollpri = false; epollrdhup = false } }

module _ {T : Type 0} where
  -- The threads that poll leave before the call goes on.
  unfoldable pub epollfd_ctx__trigger_repoll : EpollFd T → EpollFd T
  epollfd_ctx__trigger_repoll e =
      if e.nr_polling_threads == 0
      then e
      else record e { nr_polling_threads = 0; calls = trigger_self ∷ e.calls }

  unfoldable pub leave_poll_list : EpollFd T → Node → EpollFd T × Outcome Node
  unfolding epollfd_ctx__trigger_repoll
  leave_poll_list e n =
      if n.is_on_pollfd_list
      then assert (not (e.poll_fds_size == 0)) e (
        epollfd_ctx__trigger_repoll
            (record e { poll_fds = without n.fd e.poll_fds; poll_fds_size = e.poll_fds_size - 1 }),
        ok (record n { is_on_pollfd_list = false }),
      )
      else (e, ok n)

  unfoldable pub delete_filters : EpollFd T → Node → EpollFd T × Outcome Node
  delete_filters e n =
      if is_poll n.node_type
      then (record e { calls = delete n.fd evfilt_user ∷ e.calls }, ok n)
      else (
        record e {
          calls =
              delete n.fd evfilt_user
              ∷ delete n.fd evfilt_write
              ∷ delete n.fd evfilt_read
              ∷ e.calls;
        },
        ok (record n {
          has_evfilt_read = false;
          has_evfilt_write = false;
          has_evfilt_except = false;
        }),
      )

  unfoldable pub epollfd_ctx__remove_node_from_kq : EpollFd T → Node → EpollFd T × Outcome Node
  unfolding leave_poll_list delete_filters
  epollfd_ctx__remove_node_from_kq e n = and_then (leave_poll_list e n) delete_filters

  unfoldable pub registered_fds_node_add_self_trigger : EpollFd T → Node → EpollFd T
  registered_fds_node_add_self_trigger e n = record e {
    calls = add n.fd evfilt_user true ∷ e.calls;
  }

  -- The node joins the list of those that are polled, unless it is on it.
  unfoldable pub join_poll_list : EpollFd T → Node → Option Errno → EpollFd T × Registered
  unfolding epollfd_ctx__trigger_repoll
  join_poll_list e n self_trigger =
      if n.is_on_pollfd_list
      then (epollfd_ctx__trigger_repoll e, ok (n, none))
      else elim self_trigger [
        | some ec ↦ (record e { calls = add_self ∷ e.calls }, ok (n, some ec))
        | none ↦ (
          epollfd_ctx__trigger_repoll (record e {
            calls = add_self ∷ e.calls;
            poll_fds = e.poll_fds ++ n.fd ∷ [];
            poll_fds_size = suc e.poll_fds_size;
          }),
          ok (record n { is_on_pollfd_list = true }, none),
        )
      ]

  -- A descriptor that only poll supports.
  unfoldable pub register_poll : EpollFd T → Node → Answers → EpollFd T × Registered
  unfolding join_poll_list registered_fds_node_add_self_trigger
  register_poll e n a = assert (not (n.events.epollpri || n.events.epollrdhup)) e (
      assert (n.is_registered || is_other n.node_type) e (
        let n' : Node = record n {
          has_evfilt_read = false;
          has_evfilt_write = false;
          has_evfilt_except = false;
          node_type = poll;
        } in
        elim a.node_trigger [
          | some ec ↦ (registered_fds_node_add_self_trigger e n', ok (n', some ec))
          | none ↦ join_poll_list (registered_fds_node_add_self_trigger e n') n' a.self_trigger
        ]))

  -- The write end of a FIFO without readers: the node is at its end, and tells itself so where
  -- EVFILT_READ does not.
  unfoldable pub write_ended :
      EpollFd T → Node → (reads : Bool) → (node_trigger : Option Errno) → EpollFd T × Registered
  unfolding registered_fds_node_add_self_trigger
  write_ended e n reads node_trigger =
      let n' : Node = record n { read_eof = true; write_eof = true; has_evfilt_write = false } in
      if reads
      then (e, ok (n', none))
      else (let e' = registered_fds_node_add_self_trigger e n' in
          elim node_trigger [
            | some ec ↦ (e', ok (n', some ec))
            | none ↦ (record e' { calls = trigger n.fd ∷ e'.calls }, ok (n', none))
          ])

  -- The error of the last receipt that is looked at.
  abbrev pub then_error : Option Errno → EpollFd T × Registered → EpollFd T × Registered
  then_error none p = p
  then_error (some ec) (e, ok (n, none)) = (e, ok (n, some ec))
  then_error (some ec) (e, r) = (e, r)

  -- The loop over the receipts: those of EVFILT_READ, EVFILT_WRITE and EVFILT_EXCEPT in this order.
  unfoldable pub check_receipts :
      EpollFd T → Node → NeededFilters → Answers → EpollFd T × Registered
  unfolding write_ended
  check_receipts e n f a = elim (error_of (receipt_of f.read a.read)) [
    | some ec ↦ (e, ok (n, some ec))
    | none ↦
        if is_epipe (receipt_of f.write a.write) && is_fifo n.node_type
        then then_error (error_of (receipt_of f.except a.except))
            (write_ended e n (is_on f.read) a.node_trigger)
        else elim (error_of (receipt_of f.write a.write)) [
          | some ec ↦ (e, ok (n, some ec))
          | none ↦ (e, ok (n, error_of (receipt_of f.except a.except)))
        ]
  ]

  -- The additions of the needed filters; EVFILT_EXCEPT is always added with EV_CLEAR on macOS.
  unfoldable pub add_filters : EpollFd T → Node → Answers → NeededFilters → EpollFd T × Registered
  unfolding register_poll check_receipts
  add_filters e n a f =
      let n' : Node = record n {
        has_evfilt_read = is_on f.read;
        has_evfilt_write = is_on f.write;
        has_evfilt_except = is_on f.except;
      } in
      let e' : EpollFd T = record e {
        calls =
            add_filter n.fd evfilt_except (if is_on f.except then clear else off)
              (add_filter n.fd evfilt_write f.write (add_filter n.fd evfilt_read f.read e.calls));
      } in
      elim a.call [
        | some ec ↦ (e', ok (n', some ec))
        | none ↦
            if is_other n.node_type && is_enodev (first_receipt f a)
            then register_poll e' n' a
            else check_receipts e' n' f a
      ]

  unfoldable pub with_filters :
      Option NeededFilters → EpollFd T → Node → Answers → EpollFd T × Registered
  unfolding add_filters
  with_filters none e n a = (e, aborted)
  with_filters (some f) e n a = add_filters e n a f

  unfoldable pub register_filters : EpollFd T → Answers → Node → EpollFd T × Registered
  unfolding with_filters get_needed_filters
  register_filters e a n =
      assert (not (n.has_evfilt_read || n.has_evfilt_write || n.has_evfilt_except)) e
        (with_filters (get_needed_filters n) e n a)

  unfoldable pub epollfd_ctx__register_events : EpollFd T → Node → Answers → EpollFd T × Registered
  unfolding register_poll register_filters epollfd_ctx__remove_node_from_kq
  epollfd_ctx__register_events e n a =
      if is_poll n.node_type
      then register_poll e (masked n) a
      else and_then
          (if n.is_registered
            then epollfd_ctx__remove_node_from_kq e (masked n)
            else (e, ok (masked n)))
          (λ e n. register_filters e a n)
