-- ===== src/Epoll/EpollFd/Feeding.antt =====
-- epollfd_ctx.c: what an event of the kqueue makes of a node (registered_fds_node_feed_event).
use wwn_iland.Common.{
  ℕ, Bool, true, false, not, ◌&&◌, ◌||◌, Option, none, some, List, ◌∷◌, Outcome, ok, aborted,
  assert, if◌then◌else◌, ltb, ◌==◌,
}
use wwn_iland.Epoll.EpollFd.{
  Events, no_events, is_none, union, meet, NodeType, fifo, kqueue, socket, other, poll, is_fifo,
  is_poll, is_socket, Node, EvFilter, evfilt_read, evfilt_write, evfilt_except, evfilt_user, Change,
  add, delete, trigger,
}
use wwn_iland.Epoll.EpollFd.Filters.{NeededFilters, is_on, is_level, get_needed_filters}
use wwn_iland.Epoll.EpollFd.Registration.{is_clear}

-- `struct kevent`: `is_eof`, `is_error` and `is_oob` are EV_EOF, EV_ERROR and NOTE_OOB, `has_fflags` is
-- `fflags != 0`, and `is_fd` tells that the ident is the node's descriptor.
pub record Kevent : Type 0 where
  pub filter : EvFilter
  pub is_fd : Bool
  pub is_eof : Bool
  pub is_error : Bool
  pub has_fflags : Bool
  pub is_oob : Bool
  pub bytes : ℕ

-- `real_poll` on the node's descriptor.
pub data PollReply : Type 0 where
  poll_fails invalid : PollReply
  reports : Events → PollReply

-- The second look at out-of-band data, by a kqueue of its own.
pub data OobCheck : Type 0 where
  no_kqueue oob_gone oob_pending : OobCheck

-- What the system says while an event is fed.
pub record Replies : Type 0 where
  pub polled : PollReply
  pub write_added : Bool
  pub oob : OobCheck
  -- `pollable_desc_poll` on the events of the node
  pub poll_desc : Events → Events

-- PIPE_BUF
abbrev pipe_buf : ℕ
pipe_buf = 512

abbrev pub is_read : EvFilter → Bool
is_read evfilt_read = true
is_read evfilt_write = false
is_read evfilt_except = false
is_read evfilt_user = false

abbrev pub is_write : EvFilter → Bool
is_write evfilt_read = false
is_write evfilt_write = true
is_write evfilt_except = false
is_write evfilt_user = false

abbrev pub is_except : EvFilter → Bool
is_except evfilt_read = false
is_except evfilt_write = false
is_except evfilt_except = true
is_except evfilt_user = false

abbrev pub is_user : EvFilter → Bool
is_user evfilt_read = false
is_user evfilt_write = false
is_user evfilt_except = false
is_user evfilt_user = true

-- A fed node, with what went to the kqueue.
abbrev pub Fed : Type 0
Fed = List Change × Outcome Node

-- `fd2_node->revents` of a polled node.
abbrev poll_revents : PollReply → Events
poll_revents poll_fails = record no_events { epollerr = true }
poll_revents invalid = no_events
poll_revents (reports e) = e

unfoldable pub feed_poll : List Change → Node → Kevent → Replies → Fed
feed_poll cs n k r = assert (is_none n.revents && is_user k.filter) cs (
    assert (not ((poll_revents r.polled).epollpri || (poll_revents r.polled).epollrdhup)) cs
      (cs, ok (record n { revents = poll_revents r.polled })))

-- `fd2_node->events | EPOLLHUP | EPOLLERR`
abbrev pub reportable : Node → Events
reportable n = record n.events { epollhup = true; epollerr = true }

abbrev pub got_flags : Node → Kevent → Node
got_flags n k =
    if not (is_none n.revents) && k.is_fd
    then record n {
      got_evfilt_read = n.got_evfilt_read || is_read k.filter;
      got_evfilt_write = n.got_evfilt_write || is_write k.filter;
      got_evfilt_except = n.got_evfilt_except || is_except k.filter;
    }
    else n

abbrev pub desc_revents : NodeType → Events → Replies → Events → Events
desc_revents (fifo readable writable) mask r e = e
desc_revents (kqueue desc) mask r e = meet (r.poll_desc e) mask
desc_revents socket mask r e = e
desc_revents other mask r e = e
desc_revents poll mask r e = e

-- The code after the label `out`.
unfoldable pub feed_out : Node → Kevent → Replies → (revents : Events) → Node
feed_out n k r revents =
    let n' : Node =
      got_flags (record n { revents = meet (union n.revents revents) (reportable n) }) k in
    record n' { revents = desc_revents n.node_type (reportable n) r n'.revents }

-- EVFILT_WRITE of a FIFO is tried again.
unfoldable pub retry_write : List Change → Node → Kevent → Replies → NeededFilters → Fed
unfolding feed_out
retry_write cs n k r f = assert (is_on f.write) cs (
    let cs' : List Change = add n.fd evfilt_write (is_clear f.write) ∷ cs in
    if r.write_added then (cs', ok (record n { has_evfilt_write = true })) else (
      if n.is_edge_triggered then cs' else trigger n.fd ∷ cs',
      ok (feed_out n k r (record no_events { epollerr = true; epollout = true })),
    ))

unfoldable pub with_needed : Option NeededFilters → List Change → (NeededFilters → Fed) → Fed
with_needed none cs rest = (cs, aborted)
with_needed (some f) cs rest = rest f

unfoldable pub feed_fifo_user : List Change → Node → Kevent → Replies → Fed
unfolding retry_write with_needed get_needed_filters
feed_fifo_user cs n k r =
    assert
      (is_none n.revents && not (n.has_evfilt_read || n.has_evfilt_write || n.has_evfilt_except)) cs
      (with_needed (get_needed_filters n) cs (retry_write cs n k r))

-- EVFILT_EXCEPT is deleted and added again.
abbrev reset_except : Node → List Change → List Change
reset_except n cs = add n.fd evfilt_except true ∷ delete n.fd evfilt_except ∷ cs

unfoldable pub look_again : List Change → Node → Kevent → Replies → OobCheck → Fed
unfolding feed_out with_needed get_needed_filters
look_again cs n k r no_kqueue = (cs, ok (feed_out n k r no_events))
look_again cs n k r oob_gone = (reset_except n cs, ok (feed_out n k r no_events))
look_again cs n k r oob_pending = with_needed (get_needed_filters n) cs (λ f. (
  if is_level f.except then reset_except n cs else cs,
  ok (feed_out n k r (record no_events { epollpri = true })),
))

unfoldable pub feed_except : List Change → Node → Kevent → Replies → Fed
unfolding look_again feed_out
feed_except cs n k r =
    if k.is_oob then look_again cs n k r r.oob else (cs, ok (feed_out n k r no_events))

-- The ends that are closed.
unfoldable pub feed_eof : Node → Kevent → Node
feed_eof n k =
    if is_socket n.node_type
    then record n {
      read_eof = if is_read k.filter then k.is_eof else n.read_eof;
      write_eof = if is_write k.filter then k.is_eof else n.write_eof;
    }
    else record n { read_eof = k.is_eof; write_eof = k.is_eof }

-- `revents` before the ends are looked at.
abbrev pub first_revents : Kevent → Events
first_revents k = record no_events {
  epollin = is_read k.filter;
  epollout = is_write k.filter;
  epollerr = k.is_error || (k.is_eof && k.has_fflags);
}

-- `revents` of a socket with an end that is closed.
abbrev pub socket_revents : Node → Events → Events
socket_revents n e = record e {
  epollin = e.epollin || n.read_eof;
  epollrdhup = e.epollrdhup || n.read_eof;
  epollout = e.epollout || n.write_eof;
  epollhup = e.epollhup || (n.read_eof && n.write_eof);
}

abbrev is_both : NodeType → Bool
is_both (fifo readable writable) = readable && writable
is_both (kqueue desc) = false
is_both socket = false
is_both other = false
is_both poll = false

-- An end of a FIFO is closed.
unfoldable pub feed_fifo_eof : List Change → Node → Kevent → Replies → Fed
unfolding feed_out
feed_fifo_eof cs n k r =
    if is_read k.filter
    then (
      cs,
      ok (
          feed_out n k r
            (record (first_revents k) { epollhup = true; epollin = not (k.bytes == 0) })),
    )
    else if n.has_evfilt_read
    then assert (is_both n.node_type) cs (
      cs,
      ok (record n {
        revents = if is_none n.revents then n.revents else record n.revents { epollhup = true };
      }),
    )
    else (
      cs,
      ok (
          feed_out n k r
            (record (first_revents k) { epollerr = true; epollout = not (ltb k.bytes pipe_buf) })),
    )

-- An event of EVFILT_READ or EVFILT_WRITE, with the ends known.
unfoldable pub feed_ends : List Change → Node → Kevent → Replies → Fed
unfolding feed_fifo_eof feed_out
feed_ends cs n k r =
    if not (n.read_eof || n.write_eof)
    then (cs, ok (feed_out n k r (first_revents k)))
    else if is_fifo n.node_type
    then feed_fifo_eof cs n k r
    else if is_socket n.node_type
    then (cs, ok (feed_out n k r (socket_revents n (first_revents k))))
    else (cs, ok (feed_out n k r (record (first_revents k) { epollhup = true })))

unfoldable pub registered_fds_node_feed_event : List Change → Node → Kevent → Replies → Fed
unfolding feed_poll feed_fifo_user feed_except feed_ends feed_eof
registered_fds_node_feed_event cs n k r =
    if is_poll n.node_type
    then feed_poll cs n k r
    else if is_fifo n.node_type && is_user k.filter
    then feed_fifo_user cs n k r
    else assert (not (is_user k.filter) && k.is_fd) cs
        (if is_except k.filter then feed_except cs n k r else feed_ends cs (feed_eof n k) k r)
