-- ===== src/Epoll/EpollFd/Needed.antt =====
-- What the filters of get_needed_filters of epollfd_ctx.c cover.
use wwn_iland.Common.{◌≡◌, refl, sym, ap, ◌∙◌, Bool, true, false, not, ◌&&◌, ◌||◌, some, arith}
use wwn_iland.Epoll.EpollFd.{Events, NodeType, fifo, kqueue, socket, other, poll, Node, is_socket}
use wwn_iland.Epoll.EpollFd.Filters.{
  Filter, edge, off, level, clear, is_on, is_level, NeededFilters, fifo_filters, kqueue_filters,
  socket_filters, plain_filters, type_filters, out_filters, get_needed_filters,
}

-- What the registration makes of a node: a FIFO has an end that is open, a kqueue has none that is
-- closed, and only sockets wait for EPOLLPRI and EPOLLRDHUP.
abbrev pub has_end : NodeType → (eof : Bool) → Bool
has_end (fifo readable writable) eof = readable || writable
has_end (kqueue desc) eof = not eof
has_end socket eof = true
has_end other eof = true
has_end poll eof = true

abbrev pub waits_only : NodeType → Events → Bool
waits_only type events = is_socket type || not (events.epollpri || events.epollrdhup)

abbrev pub can_read : NodeType → Bool
can_read (fifo readable writable) = readable
can_read (kqueue desc) = true
can_read socket = true
can_read other = true
can_read poll = true

abbrev pub can_write : NodeType → Bool
can_write (fifo readable writable) = writable
can_write (kqueue desc) = false
can_write socket = true
can_write other = true
can_write poll = true

module _ (type : NodeType) (r w : Bool) (events : Events) where
  pub record Covers (f : NeededFilters) : Type 0 where
    pub something : (is_on f.read || is_on f.write) ≡ true
    pub reads : (events.epollin && can_read type) ≡ true → is_on f.read ≡ true
    pub writes :
        (events.epollout && can_write type && not (is_socket type && r && w)) ≡ true
        → is_on f.write ≡ true
    pub hung_up :
        (is_socket type && r && w) ≡ true
        → (is_on f.write ≡ (events.epollout && not (events.epollin || events.epollrdhup)))
          × (is_on f.read ≡ not (is_on f.write))
    pub urgent : is_on f.except ≡ (is_socket type && events.epollpri)

socket-Covers :
    (r w : Bool) (events : Events) → Covers socket r w events (socket_filters r w events)
unfolding socket_filters
socket-Covers true true events = record {
  something = ground arith;
  reads = λ x. ground (arith, x);
  writes = λ x. ground (arith, x);
  urgent = ground arith;
  hung_up = λ x. (ground (arith, x), ground (arith, x));
}
socket-Covers true false events = record {
  something = ground arith;
  reads = λ x. ground (arith, x);
  writes = λ x. ground (arith, x);
  urgent = ground arith;
  hung_up = λ x. (ground (arith, x), ground (arith, x));
}
socket-Covers false true events = record {
  something = ground arith;
  reads = λ x. ground (arith, x);
  writes = λ x. ground (arith, x);
  urgent = ground arith;
  hung_up = λ x. (ground (arith, x), ground (arith, x));
}
socket-Covers false false events = record {
  something = ground arith;
  reads = λ x. ground (arith, x);
  writes = λ x. ground (arith, x);
  urgent = ground arith;
  hung_up = λ x. (ground (arith, x), ground (arith, x));
}

type-Covers :
    (type : NodeType) (r w : Bool) (events : Events)
    → has_end type (r || w) ≡ true
    → waits_only type events ≡ true
    → events.epollerr ≡ false
    → events.epollhup ≡ false
    → (f : NeededFilters) × (type_filters type r w events ≡ some f) × Covers type r w events f
unfolding type_filters fifo_filters kqueue_filters socket_filters plain_filters
type-Covers (fifo true true) r w events h o e u = (
  _,
  refl,
  record {
    something = ground (arith, o, e, u);
    reads = λ x. ground (arith, x);
    writes = λ x. ground (arith, x);
    urgent = refl;
    hung_up = λ x. absurd (ground (arith, x));
  },
)
type-Covers (fifo true false) r w events h o e u = (
  _,
  refl,
  record {
    something = ground (arith, o);
    reads = λ x. ground (arith, x);
    writes = λ x. ground (arith, x);
    urgent = refl;
    hung_up = λ x. absurd (ground (arith, x));
  },
)
type-Covers (fifo false true) r w events h o e u = (
  _,
  refl,
  record {
    something = ground (arith, o);
    reads = λ x. ground (arith, x);
    writes = λ x. ground (arith, x);
    urgent = refl;
    hung_up = λ x. absurd (ground (arith, x));
  },
)
type-Covers (fifo false false) r w events h o e u = absurd (ground (arith, h))
type-Covers (kqueue desc) false false events h o e u = (
  _,
  refl,
  record {
    something = ground (arith, o);
    reads = λ x. ground (arith, x);
    writes = λ x. ground (arith, x);
    urgent = refl;
    hung_up = λ x. absurd (ground (arith, x));
  },
)
type-Covers (kqueue desc) true w events h o e u = absurd (ground (arith, h))
type-Covers (kqueue desc) false true events h o e u = absurd (ground (arith, h))
type-Covers socket r w events h o e u = (_, refl, socket-Covers r w events)
type-Covers other r w events h o e u = (
  _,
  refl,
  record {
    something = ground (arith, o, e, u);
    reads = λ x. ground (arith, x);
    writes = λ x. ground (arith, x);
    urgent = refl;
    hung_up = λ x. absurd (ground (arith, x));
  },
)
type-Covers poll r w events h o e u = (
  _,
  refl,
  record {
    something = ground (arith, o, e, u);
    reads = λ x. ground (arith, x);
    writes = λ x. ground (arith, x);
    urgent = refl;
    hung_up = λ x. absurd (ground (arith, x));
  },
)

edge-on : (e : Bool) (f : Filter) → is_on (edge e f) ≡ is_on f
edge-on true off = refl
edge-on true level = refl
edge-on true clear = refl
edge-on false f = refl

edge-level : (e : Bool) (f : Filter) → e ≡ true → is_level (edge e f) ≡ false
edge-level true off h = refl
edge-level true level h = refl
edge-level true clear h = refl
edge-level false f h = absurd (ground (arith, h))

-- The filters of a node, each of them EV_CLEAR or none where the node is edge triggered.
pub record Needs (n : Node) (f : NeededFilters) : Type 0 where
  pub filters : get_needed_filters n ≡ some f
  pub covers : Covers n.node_type n.read_eof n.write_eof n.events f
  pub edges :
      n.is_edge_triggered ≡ true
      → (is_level f.read ≡ false) × (is_level f.write ≡ false) × (is_level f.except ≡ false)

-- The assertions of get_needed_filters hold for every node whose descriptor can be read or written
-- (and, where it is a kqueue, has no end closed), that waits for EPOLLPRI or EPOLLRDHUP only on a
-- socket, and that does not ask for EPOLLERR and EPOLLHUP, which need not be asked for. One of
-- EVFILT_READ and EVFILT_WRITE watches the descriptor, whatever the caller waits for. EVFILT_READ
-- does where EPOLLIN is asked for and the descriptor can be read, and EVFILT_WRITE does where EPOLLOUT
-- is asked for and it can be written, except on a socket with both ends closed: there EVFILT_WRITE
-- watches alone where EPOLLOUT is asked for and neither EPOLLIN nor EPOLLRDHUP is, and EVFILT_READ
-- alone otherwise. EVFILT_EXCEPT is used for EPOLLPRI on a socket alone, and an edge-triggered node
-- has EV_CLEAR on every filter.
pub get_needed_filters_total :
    (n : Node)
    → has_end n.node_type (n.read_eof || n.write_eof) ≡ true
    → waits_only n.node_type n.events ≡ true
    → n.events.epollerr ≡ false
    → n.events.epollhup ≡ false
    → (f : NeededFilters) × Needs n f
unfolding get_needed_filters out_filters
get_needed_filters_total n h o e u =
    let (f, found, covers) = type-Covers n.node_type n.read_eof n.write_eof n.events h o e u in
    let f' : NeededFilters = record {
      read = edge n.is_edge_triggered f.read;
      write = edge n.is_edge_triggered f.write;
      except = edge n.is_edge_triggered f.except;
    } in
    let same = edge-on n.is_edge_triggered in
    (
      f',
      record {
        filters = rw (found, out_filters, covers.something) refl;
        covers = record {
          something = rw (same f.read, same f.write) covers.something;
          reads = λ x. same f.read ∙ covers.reads x;
          writes = λ x. same f.write ∙ covers.writes x;
          urgent = same f.except ∙ covers.urgent;
          hung_up = λ x.
              let (write, read) = covers.hung_up x in
              (same f.write ∙ write, same f.read ∙ read ∙ ap not (sym (same f.write)));
        };
        edges = λ x. (edge-level _ f.read x, edge-level _ f.write x, edge-level _ f.except x);
      },
    )
