-- ===== src/Epoll/EpollFd/Filters.antt =====
-- epollfd_ctx.c: the kqueue filters that a node needs (get_needed_filters).
use wwn_iland.Common.{Bool, true, false, not, ◌&&◌, ◌||◌, Option, none, some, if◌then◌else◌}
use wwn_iland.Epoll.EpollFd.{Events, is_none, NodeType, fifo, kqueue, socket, other, poll, Node}

-- The values 0, 1 and EV_CLEAR.
pub data Filter : Type 0 where
  off level clear : Filter

abbrev pub is_on : Filter → Bool
is_on off = false
is_on level = true
is_on clear = true

abbrev pub is_level : Filter → Bool
is_level off = false
is_level level = true
is_level clear = false

-- `!!(events & bit)`
abbrev pub flag : Bool → Filter
flag b = if b then level else off

pub record NeededFilters : Type 0 where
  pub read : Filter
  pub write : Filter
  pub except : Filter

-- `eof_state ? 1 : EV_CLEAR`
abbrev pub idle : Bool → Filter
idle eof = if eof then level else clear

abbrev pub or_idle : Filter → (eof : Bool) → Filter
or_idle f eof = if is_on f then f else idle eof

-- Neither readable nor writable is a case that the source calls unreachable.
unfoldable pub fifo_filters :
    (readable writable : Bool) → (eof : Bool) → Events → Option NeededFilters
fifo_filters true true eof events = some (record {
  read = if is_none events then idle eof else flag events.epollin;
  write = flag events.epollout;
  except = off;
})
fifo_filters true false eof events =
    some (record { read = or_idle (flag events.epollin) eof; write = off; except = off })
fifo_filters false true eof events =
    some (record { read = off; write = or_idle (flag events.epollout) eof; except = off })
fifo_filters false false eof events = none

-- A kqueue has no end: the assertion on `eof_state`.
unfoldable pub kqueue_filters : (eof : Bool) → Events → Option NeededFilters
kqueue_filters eof events =
    if eof
    then none
    else some (record { read = or_idle (flag events.epollin) false; write = off; except = off })

-- `evfilt_read` of a socket before its ends are looked at.
abbrev socket_read : (read_eof : Bool) → Events → Filter
socket_read read_eof events =
    if not (is_on (flag events.epollin)) && events.epollrdhup
    then idle read_eof
    else flag events.epollin

-- With both ends closed, EVFILT_READ drives POLLHUP.
abbrev hang_up : (both : Bool) → NeededFilters → NeededFilters
hang_up both f =
    if both
    then (let read = if not (is_level f.read) && not (is_level f.write) then level else f.read in
        record f { read = read; write = if is_on read then off else f.write })
    else f

-- Something has to detect the rest.
abbrev keep_watching : (read_eof write_eof : Bool) → NeededFilters → NeededFilters
keep_watching false false f = if is_on f.read || is_on f.write then f else record f { read = clear }
keep_watching true false f = if is_on f.write then f else record f { write = clear }
keep_watching false true f = if is_on f.read then f else record f { read = clear }
keep_watching true true f = f

unfoldable pub socket_filters : (read_eof write_eof : Bool) → Events → NeededFilters
socket_filters read_eof write_eof events = keep_watching read_eof write_eof (
    hang_up (read_eof && write_eof) (record {
      read = socket_read read_eof events;
      write = flag events.epollout;
      except = flag events.epollpri;
    }))

unfoldable pub plain_filters : (eof : Bool) → Events → NeededFilters
plain_filters eof events = record {
  read = if is_none events then idle eof else flag events.epollin;
  write = flag events.epollout;
  except = off;
}

unfoldable pub type_filters : NodeType → (read_eof write_eof : Bool) → Events → Option NeededFilters
unfolding fifo_filters kqueue_filters socket_filters plain_filters
type_filters (fifo readable writable) read_eof write_eof events =
    fifo_filters readable writable (read_eof || write_eof) events
type_filters (kqueue desc) read_eof write_eof events = kqueue_filters (read_eof || write_eof) events
type_filters socket read_eof write_eof events = some (socket_filters read_eof write_eof events)
type_filters other read_eof write_eof events = some (plain_filters (read_eof || write_eof) events)
type_filters poll read_eof write_eof events = some (plain_filters (read_eof || write_eof) events)

abbrev pub edge : (is_edge_triggered : Bool) → Filter → Filter
edge is_edge_triggered f = if is_edge_triggered && is_on f then clear else f

-- The code after the label `out`: its first assertion, and the others hold by the type.
unfoldable pub out_filters :
    (is_edge_triggered : Bool) → Option NeededFilters → Option NeededFilters
out_filters e none = none
out_filters e (some f) =
    if is_on f.read || is_on f.write
    then some (record { read = edge e f.read; write = edge e f.write; except = edge e f.except })
    else none

-- `none` where an assertion fails.
unfoldable pub get_needed_filters : Node → Option NeededFilters
unfolding type_filters out_filters
get_needed_filters n =
    out_filters n.is_edge_triggered (type_filters n.node_type n.read_eof n.write_eof n.events)
