-- ===== src/Epoll/EpollFd/Tests.antt =====
-- Examples for the theorems on the epoll descriptors of epollfd_ctx.c.
use wwn_iland.Common.{
  ℕ, zero, suc, sym, ◌≡◌, refl, true, false, Option, none, some, List, [], ◌∷◌, ok, arith,
  if◌then◌else◌, ◌==◌,
}
use wwn_iland.Epoll.EpollFd.{Events, no_events, socket, Node, evfilt_read, evfilt_except, add}
use wwn_iland.Epoll.EpollFd.Account.{Stored, Sound}
use wwn_iland.Epoll.EpollFd.Contract.{Result}
use wwn_iland.Epoll.EpollFd.Control.{
  ctl_add, Control, System, file, socket_file, epollfd_ctx_ctl, epollfd_ctx_remove_fd,
}
use wwn_iland.Epoll.EpollFd.Feeding.{
  Kevent, Replies, reports, no_kqueue, registered_fds_node_feed_event,
}
use wwn_iland.Epoll.EpollFd.Filters.{NeededFilters}
use wwn_iland.Epoll.EpollFd.Leftover.{Leaves, remove_node_from_kq-Leaves}
use wwn_iland.Epoll.EpollFd.Needed.{Needs, get_needed_filters_total}
use wwn_iland.Epoll.EpollFd.Refinement.{ctl_refines, remove_fd_removes}
use wwn_iland.Epoll.EpollFd.Registration.{EpollFd, Answers, done, epollfd_ctx__remove_node_from_kq}
use wwn_iland.Epoll.EpollFd.Reports.{Reports, feed_socket}
use wwn_iland.Epoll.EpollFd.Table.{array_tree}

abbrev urgent_input : Events
urgent_input = record no_events { epollin = true; epollpri = true; epollrdhup = true }

-- A socket at the descriptor 1 that waits for input and for urgent data.
abbrev listener : Node
listener = record {
  fd = 1;
  user_data = 70;
  is_registered = true;
  has_evfilt_read = true;
  has_evfilt_write = false;
  has_evfilt_except = true;
  got_evfilt_read = false;
  got_evfilt_write = false;
  got_evfilt_except = false;
  node_type = socket;
  read_eof = false;
  write_eof = false;
  events = urgent_input;
  revents = no_events;
  is_edge_triggered = false;
  is_oneshot = false;
  is_on_pollfd_list = false;
}

abbrev watching : EpollFd (List (Option Node))
watching = record {
  poll_fds = [];
  poll_fds_size = 0;
  registered_fds = none ∷ some listener ∷ [];
  registered_fds_size = 1;
  nr_polling_threads = 0;
  calls = add 1 evfilt_except true ∷ add 1 evfilt_read false ∷ [];
}

at_one :
    (fd : ℕ) (n : Node)
    → array_tree.find watching.registered_fds fd ≡ some n
    → Stored array_tree fd n
unfolding array_tree
at_one zero n h = absurd (ground (arith, h))
at_one (suc zero) n h =
    let same : listener ≡ n = ground (arith, h) in
    rw (sym same) (record {
      at = refl;
      node_ok = record { ends = refl; no_err = refl; no_hup = refl };
      registered = refl;
    })
at_one (suc (suc fd)) n h = absurd (ground (arith, h))

watching-Sound : Sound array_tree watching
unfolding array_tree
watching-Sound = record { nodes = at_one; size = refl; polled = refl }

get_needed_filters_total_example : (f : NeededFilters) × Needs listener f
get_needed_filters_total_example = get_needed_filters_total listener refl refl refl refl

abbrev accepts : Answers
accepts = record {
  call = none;
  read = done;
  write = done;
  except = done;
  node_trigger = none;
  self_trigger = none;
}

abbrev socket_system : System
socket_system = record { stat = file socket_file; has_memory = true; answers = accepts }

abbrev another : Control
another = record {
  kq = 9;
  op = ctl_add;
  fd2 = 4;
  pollable_desc = 0;
  ev = record {
    events = urgent_input;
    epollet = true;
    epolloneshot = false;
    unsupported = false;
    user_data = 71;
  };
}

ctl_refines_example :
    Result array_tree watching another (epollfd_ctx_ctl array_tree watching another socket_system)
ctl_refines_example = ctl_refines array_tree watching another watching-Sound socket_system

remove_fd_removes_example :
    (e' : EpollFd (List (Option Node))) × (epollfd_ctx_remove_fd array_tree watching 1
      ≡ (e', ok tt))
    × Sound array_tree e'
    × ((fd : ℕ)
        → array_tree.find e'.registered_fds fd
          ≡ (if 1 == fd then none else array_tree.find watching.registered_fds fd))
remove_fd_removes_example = remove_fd_removes array_tree watching 1 watching-Sound

remove_node_from_kq-Leaves_example :
    Leaves watching listener (epollfd_ctx__remove_node_from_kq watching listener)
remove_node_from_kq-Leaves_example =
    remove_node_from_kq-Leaves watching listener refl (λ h. absurd (ground (arith, h)))

-- The other side has closed its end.
abbrev closed : Kevent
closed = record {
  filter = evfilt_read;
  is_fd = true;
  is_eof = true;
  is_error = false;
  has_fflags = false;
  is_oob = false;
  bytes = 0;
}

abbrev nothing_else : Replies
nothing_else = record {
  polled = reports no_events;
  write_added = true;
  oob = no_kqueue;
  poll_desc = λ e. e;
}

feed_socket_example :
    (n' : Node) × (registered_fds_node_feed_event [] listener closed nothing_else ≡ ([], ok n'))
    × Reports listener closed n'
feed_socket_example = feed_socket [] listener closed nothing_else refl refl refl refl refl
