-- ===== src/Epoll/EpollFd.antt =====
-- epollfd_ctx.c: the descriptors that an epoll descriptor watches, in the build for macOS: with
-- EVFILT_USER and EVFILT_EXCEPT, and with EPOLLRDHUP as 0x2000, so that no translation of it is needed
-- and no pipes stand in for user events.
pub mod Filters
pub mod Needed
pub mod Table
pub mod Registration
pub mod Control
pub mod Registering
pub mod Receipts
pub mod Leaving
pub mod Contract
pub mod Refinement
pub mod Leftover
pub mod Feeding
pub mod Reports
pub mod Account
mod Tests
use wwn_iland.Common.{ℕ, Bool, true, false, not, ◌&&◌, ◌||◌, List, []}

-- The bits of EPOLL_EVENTS that a node can wait for or report.
pub record Events : Type 0 where
  pub epollin : Bool
  pub epollpri : Bool
  pub epollout : Bool
  pub epollerr : Bool
  pub epollhup : Bool
  pub epollrdhup : Bool

abbrev pub no_events : Events
no_events = record {
  epollin = false;
  epollpri = false;
  epollout = false;
  epollerr = false;
  epollhup = false;
  epollrdhup = false;
}

-- `events == 0`
abbrev pub is_none : Events → Bool
is_none e = not (e.epollin || e.epollpri || e.epollout || e.epollerr || e.epollhup || e.epollrdhup)

-- `a | b` and `a & b`
abbrev pub union : Events → Events → Events
union a b = record {
  epollin = a.epollin || b.epollin;
  epollpri = a.epollpri || b.epollpri;
  epollout = a.epollout || b.epollout;
  epollerr = a.epollerr || b.epollerr;
  epollhup = a.epollhup || b.epollhup;
  epollrdhup = a.epollrdhup || b.epollrdhup;
}

abbrev pub meet : Events → Events → Events
meet a b = record {
  epollin = a.epollin && b.epollin;
  epollpri = a.epollpri && b.epollpri;
  epollout = a.epollout && b.epollout;
  epollerr = a.epollerr && b.epollerr;
  epollhup = a.epollhup && b.epollhup;
  epollrdhup = a.epollrdhup && b.epollrdhup;
}

-- `struct epoll_event` as a caller gives it; `unsupported` is any bit that epollfd_ctx_ctl refuses.
pub record EpollEvent : Type 0 where
  pub events : Events
  pub epollet : Bool
  pub epolloneshot : Bool
  pub unsupported : Bool
  pub user_data : ℕ

-- `NodeType` with `node_data`
pub data NodeType : Type 0 where
  fifo : (readable writable : Bool) → NodeType
  kqueue : (pollable_desc : ℕ) → NodeType
  socket other poll : NodeType

abbrev pub is_fifo : NodeType → Bool
is_fifo (fifo readable writable) = true
is_fifo (kqueue desc) = false
is_fifo socket = false
is_fifo other = false
is_fifo poll = false

abbrev pub is_socket : NodeType → Bool
is_socket (fifo readable writable) = false
is_socket (kqueue desc) = false
is_socket socket = true
is_socket other = false
is_socket poll = false

abbrev pub is_other : NodeType → Bool
is_other (fifo readable writable) = false
is_other (kqueue desc) = false
is_other socket = false
is_other other = true
is_other poll = false

abbrev pub is_poll : NodeType → Bool
is_poll (fifo readable writable) = false
is_poll (kqueue desc) = false
is_poll socket = false
is_poll other = false
is_poll poll = true

-- `RegisteredFDsNode`; `read_eof` and `write_eof` are the bits of `eof_state`.
pub record Node : Type 0 where
  pub fd : ℕ
  pub user_data : ℕ
  pub is_registered : Bool
  pub has_evfilt_read : Bool
  pub has_evfilt_write : Bool
  pub has_evfilt_except : Bool
  pub got_evfilt_read : Bool
  pub got_evfilt_write : Bool
  pub got_evfilt_except : Bool
  pub node_type : NodeType
  pub read_eof : Bool
  pub write_eof : Bool
  pub events : Events
  pub revents : Events
  pub is_edge_triggered : Bool
  pub is_oneshot : Bool
  pub is_on_pollfd_list : Bool

unfoldable pub registered_fds_node_create : (fd : ℕ) → NodeType → Node
registered_fds_node_create fd node_type = record {
  fd = fd;
  user_data = 0;
  is_registered = false;
  has_evfilt_read = false;
  has_evfilt_write = false;
  has_evfilt_except = false;
  got_evfilt_read = false;
  got_evfilt_write = false;
  got_evfilt_except = false;
  node_type = node_type;
  read_eof = false;
  write_eof = false;
  events = no_events;
  revents = no_events;
  is_edge_triggered = false;
  is_oneshot = false;
  is_on_pollfd_list = false;
}

-- EPOLLIN, EPOLLPRI, EPOLLRDHUP and EPOLLOUT of a caller's events.
abbrev watched : Events → Events
watched e = record e { epollerr = false; epollhup = false }

unfoldable pub registered_fds_node_update_flags_from_epoll_event : Node → EpollEvent → Node
registered_fds_node_update_flags_from_epoll_event n ev = record n {
  events = watched ev.events;
  user_data = ev.user_data;
  is_edge_triggered = ev.epollet || ev.epolloneshot;
  is_oneshot = ev.epolloneshot;
}

-- A filter of kqueue, and what epollfd_ctx.c asks of the kqueue, for the descriptor or the node
-- `fd`, and of the descriptor behind a node of the type NODE_TYPE_KQUEUE.
pub data EvFilter : Type 0 where
  evfilt_read evfilt_write evfilt_except evfilt_user : EvFilter

pub data Change : Type 0 where
  add : (fd : ℕ) → EvFilter → (clear : Bool) → Change
  delete : (fd : ℕ) → EvFilter → Change
  -- NOTE_TRIGGER of the user event of a node
  trigger : (fd : ℕ) → Change
  -- the user event of the epoll descriptor itself, with the ident 0
  add_self trigger_self : Change
  -- pollable_desc_ref, pollable_desc_unref, and a pollable_desc_poll that does not ask for events
  desc_ref desc_unref desc_poll : (pollable_desc : ℕ) → Change
