-- ===== src/Epoll/EpollFd/Reports.antt =====
-- What registered_fds_node_feed_event of epollfd_ctx.c reports of a socket.
use wwn_iland.Common.{
  ◌≡◌, refl, sym, ap, ◌∙◌, Bool, true, false, not, ◌&&◌, ◌||◌, List, Outcome, ok, assert,
  if◌then◌else◌, arith, Bool-cases, inl, inr, either_on,
}
use wwn_iland.Epoll.EpollFd.{
  Events, no_events, is_none, union, meet, NodeType, socket, is_fifo, is_poll, is_socket, Node,
  Change,
}
use wwn_iland.Epoll.EpollFd.Feeding.{
  Kevent, Replies, is_read, is_write, is_except, is_user, reportable, desc_revents, got_flags,
  feed_out, feed_eof, first_revents, socket_revents, feed_ends, registered_fds_node_feed_event,
}

-- `a` has no bit that `b` lacks.
abbrev pub subset : Events → Events → Bool
subset a b =
    (not a.epollin || b.epollin)
    && ((not a.epollpri || b.epollpri)
        && ((not a.epollout || b.epollout)
            && ((not a.epollerr || b.epollerr)
                && ((not a.epollhup || b.epollhup) && (not a.epollrdhup || b.epollrdhup)))))

-- The socket `n'` after the event `k`, from a socket `n` that had nothing to report.
pub record Reports (n : Node) (k : Kevent) (n' : Node) : Type 0 where
  pub read_end : n'.read_eof ≡ (if is_read k.filter then k.is_eof else n.read_eof)
  pub write_end : n'.write_eof ≡ (if is_write k.filter then k.is_eof else n.write_eof)
  pub asked : subset n'.revents (reportable n) ≡ true
  pub readable : n'.revents.epollin ≡ ((is_read k.filter || n'.read_eof) && n.events.epollin)
  pub writable : n'.revents.epollout ≡ ((is_write k.filter || n'.write_eof) && n.events.epollout)
  pub hang_up : n'.revents.epollhup ≡ (n'.read_eof && n'.write_eof)
  pub read_hang_up : n'.revents.epollrdhup ≡ (n'.read_eof && n.events.epollrdhup)
  pub failure : n'.revents.epollerr ≡ (k.is_error || (k.is_eof && k.has_fflags))

clash : (b : Bool) → b ≡ false → b ≡ true → ⊥
clash b h k = ground (arith, h, k)

and_true : (b : Bool) → (b && true) ≡ b
and_true b = ground arith

or_false : (b : Bool) → (b || false) ≡ b
or_false b = ground arith

neither : (a b : Bool) → (a || b) ≡ false → (a ≡ false) × (b ≡ false)
neither a b h = ground (arith, h)

got_flags-fields :
    (m : Node) (k : Kevent)
    → ((got_flags m k).revents ≡ m.revents)
      × ((got_flags m k).read_eof ≡ m.read_eof)
      × ((got_flags m k).write_eof ≡ m.write_eof)
got_flags-fields m k =
    either_on
      (λ (x : Node).
        (x.revents ≡ m.revents) × (x.read_eof ≡ m.read_eof) × (x.write_eof ≡ m.write_eof))
      (not (is_none m.revents) && k.is_fd) _ _ (λ h. (refl, refl, refl)) (λ h. (refl, refl, refl))

desc_revents-socket :
    (type : NodeType) (mask : Events) (r : Replies) (e : Events)
    → type ≡ socket
    → desc_revents type mask r e ≡ e
desc_revents-socket type mask r e h = rw (h) refl

feed_out-fields :
    (n : Node) (k : Kevent) (r : Replies) (e : Events)
    → n.node_type ≡ socket
    → ((feed_out n k r e).revents ≡ meet (union n.revents e) (reportable n))
      × ((feed_out n k r e).read_eof ≡ n.read_eof)
      × ((feed_out n k r e).write_eof ≡ n.write_eof)
unfolding feed_out
feed_out-fields n k r e h =
    let m : Node = record n { revents = meet (union n.revents e) (reportable n) } in
    let (same, left, right) = got_flags-fields m k in
    (desc_revents-socket n.node_type (reportable n) r (got_flags m k).revents h ∙ same, left, right)

feed_eof-fields :
    (n : Node) (k : Kevent)
    → n.node_type ≡ socket
    → ((feed_eof n k).node_type ≡ n.node_type)
      × ((feed_eof n k).events ≡ n.events)
      × ((feed_eof n k).revents ≡ n.revents)
      × ((feed_eof n k).read_eof ≡ (if is_read k.filter then k.is_eof else n.read_eof))
      × ((feed_eof n k).write_eof ≡ (if is_write k.filter then k.is_eof else n.write_eof))
unfolding feed_eof
feed_eof-fields n k h =
    let is : is_socket n.node_type ≡ true = ap is_socket h in
    either_on
      (λ (x : Node).
        (x.node_type ≡ n.node_type)
        × (x.events ≡ n.events)
        × (x.revents ≡ n.revents)
        × (x.read_eof ≡ (if is_read k.filter then k.is_eof else n.read_eof))
        × (x.write_eof ≡ (if is_write k.filter then k.is_eof else n.write_eof)))
      (is_socket n.node_type) _ _ (λ yes. (refl, refl, refl, refl, refl))
      (λ no. absurd (clash (is_socket n.node_type) no is))

-- What an event says of a socket `m`, whatever is asked.
record Raw (m : Node) (k : Kevent) (e : Events) : Type 0 where
  epollin : e.epollin ≡ (is_read k.filter || m.read_eof)
  epollout : e.epollout ≡ (is_write k.filter || m.write_eof)
  epollhup : e.epollhup ≡ (m.read_eof && m.write_eof)
  epollrdhup : e.epollrdhup ≡ m.read_eof
  epollerr : e.epollerr ≡ (k.is_error || (k.is_eof && k.has_fflags))

subset-meet : (a b : Events) → subset (meet a b) b ≡ true
subset-meet a b = ground arith

Raw-Reports :
    (n : Node) (k : Kevent) (r : Replies) (e : Events)
    → n.node_type ≡ socket
    → n.revents ≡ no_events
    → Raw (feed_eof n k) k e
    → Reports n k (feed_out (feed_eof n k) k r e)
Raw-Reports n k r e h quiet raw =
    let m = feed_eof n k in
    let n' = feed_out m k r e in
    let (type, events, revents, read_end, write_end) = feed_eof-fields n k h in
    let (reported, left, right) = feed_out-fields m k r e (type ∙ h) in
    let found : n'.revents ≡ meet (union no_events e) (reportable n) =
      reported ∙ rw (revents, events, quiet) refl in
    record {
      read_end = left ∙ read_end;
      write_end = right ∙ write_end;
      asked = rw (found) (subset-meet (union no_events e) (reportable n));
      readable = ap (λ e. e.epollin) found ∙ rw (left, raw.epollin) refl;
      writable = ap (λ e. e.epollout) found ∙ rw (right, raw.epollout) refl;
      hang_up = ap (λ e. e.epollhup) found ∙ rw (left, right, raw.epollhup) (and_true _);
      read_hang_up = ap (λ e. e.epollrdhup) found ∙ rw (left, raw.epollrdhup) refl;
      failure = ap (λ e. e.epollerr) found ∙ rw (raw.epollerr) (and_true _);
    }

socket-chain :
    {A : Type 0} (b1 b2 b3 b4 : Bool) (cs : List Change) (x y z w : List Change × Outcome A)
    → b1 ≡ false
    → b2 ≡ false
    → b3 ≡ true
    → b4 ≡ false
    → (if b1 then x else if b2 then y else assert b3 cs (if b4 then z else w)) ≡ w
socket-chain b1 b2 b3 b4 cs x y z w h1 h2 h3 h4 = rw (h1, h2, h3, h4) refl

module _ (cs : List Change) (n : Node) (k : Kevent) (r : Replies) (h : n.node_type ≡ socket)
    (quiet : n.revents ≡ no_events) where
  feed_ends-socket : (n' : Node) × (feed_ends cs (feed_eof n k) k r ≡ (cs, ok n')) × Reports n k n'
  unfolding feed_ends
  feed_ends-socket =
      let m = feed_eof n k in
      let (type, events, revents, read_end, write_end) = feed_eof-fields n k h in
      let no_fifo : is_fifo m.node_type ≡ false = ap is_fifo (type ∙ h) in
      let is : is_socket m.node_type ≡ true = ap is_socket (type ∙ h) in
      elim (Bool-cases (m.read_eof || m.write_eof)) [
        | inl closed ↦ (
          feed_out m k r (socket_revents m (first_revents k)),
          rw (closed, no_fifo, is) refl,
          Raw-Reports n k r (socket_revents m (first_revents k)) h quiet (record {
            epollin = refl;
            epollout = refl;
            epollhup = refl;
            epollrdhup = refl;
            epollerr = refl;
          }),
        )
        | inr open_ends ↦
            let (no_read, no_write) = neither m.read_eof m.write_eof open_ends in
            (
              feed_out m k r (first_revents k),
              rw (open_ends) refl,
              Raw-Reports n k r (first_revents k) h quiet (record {
                epollin = rw (no_read) (sym (or_false _));
                epollout = rw (no_write) (sym (or_false _));
                epollhup = rw (no_read) refl;
                epollrdhup = rw (no_read) refl;
                epollerr = refl;
              }),
            )
      ]

  -- An event of EVFILT_READ or EVFILT_WRITE on a socket that has nothing to report is fed without a
  -- failing assertion and without a call of the kqueue. The end of the filter is closed exactly
  -- where the event says so. What is reported was asked for, or is EPOLLHUP or EPOLLERR; EPOLLIN and
  -- EPOLLOUT are reported for the event's own direction and for a closed end, EPOLLHUP exactly where
  -- both ends are closed, EPOLLRDHUP, if asked for, exactly where the read end is, and EPOLLERR
  -- exactly for an error.
  pub feed_socket :
      is_user k.filter ≡ false
      → is_except k.filter ≡ false
      → k.is_fd ≡ true
      → (n' : Node) × (registered_fds_node_feed_event cs n k r ≡ (cs, ok n')) × Reports n k n'
  unfolding registered_fds_node_feed_event
  feed_socket no_user no_except fd =
      let (n', fed, reports) = feed_ends-socket in
      (
        n',
        socket-chain (is_poll n.node_type) (is_fifo n.node_type && is_user k.filter)
              (not (is_user k.filter) && k.is_fd) (is_except k.filter) cs _ _ _
              (feed_ends cs (feed_eof n k) k r) (ap is_poll h)
              (ap (λ t. is_fifo t && is_user k.filter) h) (rw (no_user, fd) refl) no_except
            ∙ fed,
        reports,
      )
