-- ===== src/Epoll/EpollFd/Control.antt =====
-- epollfd_ctx.c: epollfd_ctx_ctl, epollfd_ctx_remove_fd and epollfd_ctx_fill_pollfds.
use wwn_iland.Common.{
  ℕ, suc, ◌-◌, Bool, true, false, not, ◌&&◌, Option, none, some, List, [], ◌∷◌, Errno, Outcome, ok,
  fail, einval, enoent, enomem, eexist, and_then, assert, if◌then◌else◌, ◌==◌,
}
use wwn_iland.Epoll.EpollFd.{
  Events, EpollEvent, NodeType, fifo, kqueue, socket, other, poll, is_poll, Node, no_events,
  registered_fds_node_create, registered_fds_node_update_flags_from_epoll_event, Change, desc_ref,
  desc_unref, desc_poll,
}
use wwn_iland.Epoll.EpollFd.Registration.{
  EpollFd, Answers, epollfd_ctx__register_events, epollfd_ctx__remove_node_from_kq,
}
use wwn_iland.Epoll.EpollFd.Table.{NodeTree}

-- The kind of a file as fstat tells it, with what the calls of ioctl (FIONREAD, whether it fails with
-- ENOTTY) and of fcntl (F_GETFL) say of a FIFO: its access mode, an unknown one, or an error.
pub data AccessMode : Type 0 where
  rdwr wronly rdonly unknown : AccessMode
  no_access : Errno → AccessMode

pub data FileKind : Type 0 where
  fifo_file : (is_kqueue : Bool) → AccessMode → FileKind
  socket_file other_file : FileKind

-- The type of a new node.
unfoldable pub node_type_of : (pollable_desc : ℕ) → FileKind → Outcome NodeType
node_type_of desc (fifo_file true mode) = ok (kqueue desc)
node_type_of desc (fifo_file false rdwr) = ok (fifo true true)
node_type_of desc (fifo_file false wronly) = ok (fifo false true)
node_type_of desc (fifo_file false rdonly) = ok (fifo true false)
node_type_of desc (fifo_file false unknown) = fail einval
node_type_of desc (fifo_file false (no_access ec)) = fail ec
node_type_of desc socket_file = ok socket
node_type_of desc other_file = ok other

-- `op` of epoll_ctl
pub data CtlOp : Type 0 where
  ctl_add ctl_del ctl_mod ctl_unknown : CtlOp

abbrev pub is_del : CtlOp → Bool
is_del ctl_add = false
is_del ctl_del = true
is_del ctl_mod = false
is_del ctl_unknown = false

-- `pollable_desc_ref` and the first poll of a kqueue.
abbrev pub ref_calls : NodeType → List Change → List Change
ref_calls (kqueue desc) calls = desc_poll desc ∷ desc_ref desc ∷ calls
ref_calls (fifo readable writable) calls = calls
ref_calls socket calls = calls
ref_calls other calls = calls
ref_calls poll calls = calls

abbrev unref_calls : NodeType → List Change → List Change
unref_calls (kqueue desc) calls = desc_unref desc ∷ calls
unref_calls (fifo readable writable) calls = calls
unref_calls socket calls = calls
unref_calls other calls = calls
unref_calls poll calls = calls

abbrev pub is_absent : Option Node → Bool
is_absent none = true
is_absent (some n) = false

-- The arguments of epollfd_ctx_ctl.
pub record Control : Type 0 where
  pub kq : ℕ
  pub op : CtlOp
  pub fd2 : ℕ
  pub pollable_desc : ℕ
  pub ev : EpollEvent

pub data Stat : Type 0 where
  file : FileKind → Stat
  no_file : Errno → Stat

-- What the system says: the file, or the error of fstat; whether malloc has memory; the kqueue.
pub record System : Type 0 where
  pub stat : Stat
  pub has_memory : Bool
  pub answers : Answers

unfoldable pub registered_fds_node_destroy : {T : Type 0} → EpollFd T → Node → EpollFd T
registered_fds_node_destroy e n = record e { calls = unref_calls n.node_type e.calls }

module _ {T : Type 0} (tree : NodeTree T) where
  -- The node leaves the tree.
  unfoldable pub drop_node : EpollFd T → Node → EpollFd T × Outcome (Unit {0})
  unfolding registered_fds_node_destroy
  drop_node e n = assert (not (e.registered_fds_size == 0)) e (
    registered_fds_node_destroy
        (record e {
          registered_fds = tree.remove e.registered_fds n.fd;
          registered_fds_size = e.registered_fds_size - 1;
        })
        n,
    ok tt,
  )

  unfoldable pub epollfd_ctx_remove_node : EpollFd T → Node → EpollFd T × Outcome (Unit {0})
  unfolding epollfd_ctx__remove_node_from_kq drop_node
  epollfd_ctx_remove_node e n = and_then (epollfd_ctx__remove_node_from_kq e n) drop_node

  -- After a registration: the node is kept, or removed where there was an error.
  unfoldable pub keep_or_remove : EpollFd T → Node × Option Errno → EpollFd T × Outcome (Unit {0})
  unfolding epollfd_ctx_remove_node
  keep_or_remove e (n, none) = (
    record e { registered_fds = tree.write e.registered_fds (record n { is_registered = true }) },
    ok tt,
  )
  keep_or_remove e (n, some ec) = and_then (epollfd_ctx_remove_node e n) (λ e u. (e, fail ec))

  -- The node of a file of the type.
  unfoldable pub insert_node :
      EpollFd T → (fd2 : ℕ) → EpollEvent → Answers → NodeType → EpollFd T × Outcome (Unit {0})
  unfolding registered_fds_node_create registered_fds_node_update_flags_from_epoll_event
      epollfd_ctx__register_events keep_or_remove
  insert_node e fd2 ev a type =
      let n : Node =
        registered_fds_node_update_flags_from_epoll_event (registered_fds_node_create fd2 type)
          ev in
      assert (is_absent (tree.find e.registered_fds fd2)) e (
        and_then
          (epollfd_ctx__register_events
            (record e {
              registered_fds = tree.insert e.registered_fds n;
              registered_fds_size = suc e.registered_fds_size;
              calls = ref_calls type e.calls;
            })
            n a)
          keep_or_remove)

  unfoldable pub epollfd_ctx_add_node :
      EpollFd T → Control → System → FileKind → EpollFd T × Outcome (Unit {0})
  unfolding node_type_of insert_node
  epollfd_ctx_add_node e c s kind =
      if not s.has_memory
      then (e, fail enomem)
      else and_then (e, node_type_of c.pollable_desc kind)
          (λ e type. insert_node e c.fd2 c.ev s.answers type)

  unfoldable pub epollfd_ctx_modify_node :
      EpollFd T → Node → EpollEvent → Answers → EpollFd T × Outcome (Unit {0})
  unfolding registered_fds_node_update_flags_from_epoll_event epollfd_ctx__register_events
      keep_or_remove
  epollfd_ctx_modify_node e n ev a = assert n.is_registered e (
      and_then
        (epollfd_ctx__register_events e (registered_fds_node_update_flags_from_epoll_event n ev) a)
        keep_or_remove)

  -- The call on a file that exists, by the node of the descriptor.
  unfoldable pub control_file :
      EpollFd T → Control → System → Option Node → FileKind → CtlOp → EpollFd T × Outcome (Unit {0})
  unfolding epollfd_ctx_add_node epollfd_ctx_modify_node epollfd_ctx_remove_node
  control_file e c s (some n) kind ctl_add = (e, fail eexist)
  control_file e c s none kind ctl_add = epollfd_ctx_add_node e c s kind
  control_file e c s (some n) kind ctl_del = epollfd_ctx_remove_node e n
  control_file e c s none kind ctl_del = (e, fail enoent)
  control_file e c s (some n) kind ctl_mod = epollfd_ctx_modify_node e n c.ev s.answers
  control_file e c s none kind ctl_mod = (e, fail enoent)
  control_file e c s (some n) kind ctl_unknown = (e, fail einval)
  control_file e c s none kind ctl_unknown = (e, fail einval)

  -- A descriptor that fstat refuses is forgotten.
  unfoldable pub forget : EpollFd T → Option Node → Errno → EpollFd T × Outcome (Unit {0})
  unfolding epollfd_ctx_remove_node
  forget e none ec = (e, fail ec)
  forget e (some n) ec = and_then (epollfd_ctx_remove_node e n) (λ e u. (e, fail ec))

  unfoldable pub control_stat :
      EpollFd T → Control → System → Option Node → Stat → EpollFd T × Outcome (Unit {0})
  unfolding control_file forget
  control_stat e c s found (file kind) = control_file e c s found kind c.op
  control_stat e c s found (no_file ec) = forget e found ec

  unfoldable pub epollfd_ctx_ctl : EpollFd T → Control → System → EpollFd T × Outcome (Unit {0})
  unfolding control_stat
  epollfd_ctx_ctl e c s =
      if c.kq == c.fd2
      then (e, fail einval)
      else if not (is_del c.op) && c.ev.unsupported
      then (e, fail einval)
      else control_stat e c s (tree.find e.registered_fds c.fd2) s.stat

  -- The epoll descriptor forgets a descriptor that is closed.
  unfoldable pub remove_found : EpollFd T → Option Node → EpollFd T × Outcome (Unit {0})
  unfolding epollfd_ctx_remove_node
  remove_found e none = (e, ok tt)
  remove_found e (some n) = epollfd_ctx_remove_node e n

  unfoldable pub epollfd_ctx_remove_fd : EpollFd T → (fd2 : ℕ) → EpollFd T × Outcome (Unit {0})
  unfolding remove_found
  epollfd_ctx_remove_fd e fd2 = remove_found e (tree.find e.registered_fds fd2)

-- `struct pollfd`
pub record PollFd : Type 0 where
  pub fd : ℕ
  pub events : Events

abbrev only_in : Events
only_in = record no_events { epollin = true }

abbrev only_pri : Events
only_pri = record no_events { epollpri = true }

abbrev polled_events : Option Node → Events
polled_events none = no_events
polled_events (some n) = if is_poll n.node_type then n.events else only_pri

-- The list `pfds` after the first entry. The pointers of `poll_fds` are to nodes of the tree.
unfoldable pub fill_from : {T : Type 0} → NodeTree T → T → List ℕ → List PollFd
fill_from tree nodes [] = []
fill_from tree nodes (fd ∷ fds) =
    record { fd = fd; events = polled_events (tree.find nodes fd) } ∷ fill_from tree nodes fds

unfoldable pub epollfd_ctx_fill_pollfds : {T : Type 0} → NodeTree T → EpollFd T → ℕ → List PollFd
unfolding fill_from
epollfd_ctx_fill_pollfds tree e kq =
    record { fd = kq; events = only_in } ∷ fill_from tree e.registered_fds e.poll_fds
