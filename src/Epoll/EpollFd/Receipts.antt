-- ===== src/Epoll/EpollFd/Receipts.antt =====
-- epollfd_ctx__register_events of epollfd_ctx.c comes to an end: no assertion fails.
use wwn_iland.Common.{
  ◌≡◌, refl, ◌∙◌, Bool, true, false, ◌&&◌, ◌||◌, Option, none, some, Errno, ok, fail, blocks, fault,
  aborted, if◌then◌else◌, arith, either_on,
}
use wwn_iland.Epoll.EpollFd.{
  Events, NodeType, fifo, kqueue, socket, other, poll, is_fifo, is_socket, is_other, Node,
  evfilt_read, evfilt_write, evfilt_except,
}
use wwn_iland.Epoll.EpollFd.Filters.{off, clear, NeededFilters, is_on}
use wwn_iland.Epoll.EpollFd.Needed.{has_end, waits_only, get_needed_filters_total}
use wwn_iland.Epoll.EpollFd.Registration.{
  EpollFd, Answers, Registered, registered_fds_node_add_self_trigger, register_poll, error_of,
  receipt_of, is_epipe, is_enodev, first_receipt, write_ended, check_receipts, add_filter,
  then_error, add_filters, with_filters, register_filters,
}
use wwn_iland.Epoll.EpollFd.Registering.{
  NodeOk, Done, Post, Post-then, Same, Done-Same, register_poll-Post,
}

has_end-fifo :
    (type : NodeType) (x y : Bool) → is_fifo type ≡ true → has_end type x ≡ has_end type y
has_end-fifo (fifo r w) x y h = refl
has_end-fifo (kqueue d) x y h = absurd (ground (arith, h))
has_end-fifo socket x y h = absurd (ground (arith, h))
has_end-fifo other x y h = absurd (ground (arith, h))
has_end-fifo poll x y h = absurd (ground (arith, h))

pub quiet-other :
    (type : NodeType) (events : Events)
    → is_socket type ≡ false
    → waits_only type events ≡ true
    → (events.epollpri || events.epollrdhup) ≡ false
quiet-other type events h w = ground (arith, h, w)

other-socket : (type : NodeType) → is_other type ≡ true → is_socket type ≡ false
other-socket (fifo r w) h = refl
other-socket (kqueue d) h = refl
other-socket socket h = absurd (ground (arith, h))
other-socket other h = refl
other-socket poll h = refl

both-left : (a b : Bool) → (a && b) ≡ true → a ≡ true
both-left a b h = ground (arith, h)

both-right : (a b : Bool) → (a && b) ≡ true → b ≡ true
both-right a b h = ground (arith, h)

or-right : (a b : Bool) → b ≡ true → (a || b) ≡ true
or-right a b h = ground (arith, h)

module _ {T : Type 0} where
  -- An error that is returned at once.
  erred :
      (e : EpollFd T) (n : Node) (r : Option Errno) (rest : EpollFd T × Registered)
      → NodeOk n
      → Post e n rest
      → Post e n (elim r [ some ec ↦ (e, ok (n, some ec)) | none ↦ rest ])
  unfolding Same
  erred e n none rest v h = h
  erred e n (some ec) rest v h = Done-Same e e n v (refl, refl, refl)

  then_error-Post :
      (e : EpollFd T) (n : Node) (r : Option Errno) (p : EpollFd T × Registered)
      → Post e n p
      → Post e n (then_error r p)
  then_error-Post e n none p h = h
  then_error-Post e n (some ec) (e', ok (n', none)) h = h
  then_error-Post e n (some ec) (e', ok (n', some x)) h = h
  then_error-Post e n (some ec) (e', fail x) h = h
  then_error-Post e n (some ec) (e', blocks) h = h
  then_error-Post e n (some ec) (e', fault) h = h
  then_error-Post e n (some ec) (e', aborted) h = h

  write_ended-Post :
      (e : EpollFd T) (n : Node) (reads : Bool) (t : Option Errno)
      → NodeOk n
      → is_fifo n.node_type ≡ true
      → Post e n (write_ended e n reads t)
  unfolding write_ended registered_fds_node_add_self_trigger
  write_ended-Post e n true t v h = record {
    tree = refl;
    size = refl;
    fd = refl;
    same_setting = refl;
    registered = refl;
    polled = refl;
    node_ok = record {
      ends = has_end-fifo n.node_type true (n.read_eof || n.write_eof) h ∙ v.ends;
      no_err = v.no_err;
      no_hup = v.no_hup;
    };
  }
  write_ended-Post e n false none v h = record {
    tree = refl;
    size = refl;
    fd = refl;
    same_setting = refl;
    registered = refl;
    polled = refl;
    node_ok = record {
      ends = has_end-fifo n.node_type true (n.read_eof || n.write_eof) h ∙ v.ends;
      no_err = v.no_err;
      no_hup = v.no_hup;
    };
  }
  write_ended-Post e n false (some ec) v h = record {
    tree = refl;
    size = refl;
    fd = refl;
    same_setting = refl;
    registered = refl;
    polled = refl;
    node_ok = record {
      ends = has_end-fifo n.node_type true (n.read_eof || n.write_eof) h ∙ v.ends;
      no_err = v.no_err;
      no_hup = v.no_hup;
    };
  }

  check_receipts-Post :
      (e : EpollFd T) (n : Node) (f : NeededFilters) (a : Answers)
      → NodeOk n
      → Post e n (check_receipts e n f a)
  unfolding check_receipts Same
  check_receipts-Post e n f a v = erred e n (error_of (receipt_of f.read a.read)) _ v (
      either_on (Post e n) (is_epipe (receipt_of f.write a.write) && is_fifo n.node_type) _ _
        (λ h.
          then_error-Post e n (error_of (receipt_of f.except a.except))
            (write_ended e n (is_on f.read) a.node_trigger)
            (write_ended-Post e n (is_on f.read) a.node_trigger v
              (both-right (is_epipe (receipt_of f.write a.write)) (is_fifo n.node_type) h)))
        (λ h.
          erred e n (error_of (receipt_of f.write a.write)) _ v
            (Done-Same e e n v (refl, refl, refl))))

  module _ (e : EpollFd T) (n : Node) (a : Answers) (v : NodeOk n) where
    add_filters-Post :
        (f : NeededFilters)
        → waits_only n.node_type n.events ≡ true
        → Post e n (add_filters e n a f)
    unfolding add_filters
    add_filters-Post f w = called a.call
      where
        n' : Node
        n' = record n {
          has_evfilt_read = is_on f.read;
          has_evfilt_write = is_on f.write;
          has_evfilt_except = is_on f.except;
        }

        v' : NodeOk n'
        v' = record { ends = v.ends; no_err = v.no_err; no_hup = v.no_hup }

        e' : EpollFd T
        e' = record e {
          calls =
              add_filter n.fd evfilt_except (if is_on f.except then clear else off)
                (add_filter n.fd evfilt_write f.write (add_filter n.fd evfilt_read f.read e.calls));
        }

        changed : Done e n e' n'
        changed = record {
          tree = refl;
          size = refl;
          fd = refl;
          same_setting = refl;
          registered = refl;
          polled = refl;
          node_ok = v';
        }

        rest : EpollFd T × Registered
        rest =
            if is_other n.node_type && is_enodev (first_receipt f a)
            then register_poll e' n' a
            else check_receipts e' n' f a

        called :
            (c : Option Errno)
            → Post e n (elim c [ some ec ↦ (e', ok (n', some ec)) | none ↦ rest ])
        called (some ec) = changed
        called none = Post-then e e' n n' rest changed (
            either_on (Post e' n') (is_other n.node_type && is_enodev (first_receipt f a)) _ _
              (λ h.
                let is = both-left (is_other n.node_type) (is_enodev (first_receipt f a)) h in
                register_poll-Post e' n' a v'
                  (quiet-other n.node_type n.events (other-socket n.node_type is) w)
                  (other-socket n.node_type is)
                  (or-right n.is_registered (is_other n.node_type) is))
              (λ h. check_receipts-Post e' n' f a v'))

    pub register_filters-Post :
        (n.has_evfilt_read || n.has_evfilt_write || n.has_evfilt_except) ≡ false
        → waits_only n.node_type n.events ≡ true
        → Post e n (register_filters e a n)
    unfolding register_filters with_filters
    register_filters-Post clean w =
        let (f, needs) = get_needed_filters_total n v.ends w v.no_err v.no_hup in
        rw (clean, needs.filters, with_filters) (add_filters-Post f w)
