-- ===== src/Epoll/EpollFd/Leftover.antt =====
-- What epollfd_ctx__remove_node_from_kq of epollfd_ctx.c leaves in the kqueue.
use wwn_iland.Common.{
  ℕ, ◌<◌, ◌≡◌, refl, Bool, true, false, ◌&&◌, List, [], ◌∷◌, Outcome, ok, fail, blocks, fault,
  aborted, and_then, if◌then◌else◌, ◌==◌, arith, either_on,
}
use wwn_iland.Epoll.EpollFd.{
  is_poll, Node, EvFilter, evfilt_read, evfilt_write, evfilt_except, evfilt_user, Change, add,
  delete, trigger, add_self, trigger_self, desc_ref, desc_unref, desc_poll,
}
use wwn_iland.Epoll.EpollFd.Registration.{
  EpollFd, epollfd_ctx__trigger_repoll, leave_poll_list, delete_filters,
  epollfd_ctx__remove_node_from_kq,
}

abbrev same_filter : EvFilter → EvFilter → Bool
same_filter evfilt_read evfilt_read = true
same_filter evfilt_write evfilt_write = true
same_filter evfilt_except evfilt_except = true
same_filter evfilt_user evfilt_user = true
same_filter f g = false

-- Whether the changes leave the filter of the descriptor in the kqueue: an addition puts it there and
-- a deletion takes it away.
abbrev pub in_kqueue : List Change → ℕ → EvFilter → Bool
in_kqueue [] fd f = false
in_kqueue (add fd' f' clear ∷ cs) fd f =
    if (fd' == fd) && same_filter f' f then true else in_kqueue cs fd f
in_kqueue (delete fd' f' ∷ cs) fd f =
    if (fd' == fd) && same_filter f' f then false else in_kqueue cs fd f
in_kqueue (trigger fd' ∷ cs) fd f = in_kqueue cs fd f
in_kqueue (add_self ∷ cs) fd f = in_kqueue cs fd f
in_kqueue (trigger_self ∷ cs) fd f = in_kqueue cs fd f
in_kqueue (desc_ref d ∷ cs) fd f = in_kqueue cs fd f
in_kqueue (desc_unref d ∷ cs) fd f = in_kqueue cs fd f
in_kqueue (desc_poll d ∷ cs) fd f = in_kqueue cs fd f

some_is_not_zero : (k : ℕ) → 0 < k → (k == 0) ≡ false
some_is_not_zero k h = ground (arith, h)

same_number : (k : ℕ) → (k == k) ≡ true
same_number k = ground arith

module _ {T : Type 0} (e : EpollFd T) (n : Node) where
  -- The kqueue is as it was, and so is what the deletion reads of the node.
  Untouched : EpollFd T × Outcome Node → Type 0
  Untouched (e', ok n') =
      (n'.fd ≡ n.fd)
      × (n'.node_type ≡ n.node_type)
      × ((fd : ℕ) (f : EvFilter) → in_kqueue e'.calls fd f ≡ in_kqueue e.calls fd f)
  Untouched (e', fail ec) = ⊥
  Untouched (e', blocks) = ⊥
  Untouched (e', fault) = ⊥
  Untouched (e', aborted) = ⊥

  -- What is left of the node's filters.
  pub record Leftover (e' : EpollFd T) : Type 0 where
    pub no_read : in_kqueue e'.calls n.fd evfilt_read ≡ false
    pub no_write : in_kqueue e'.calls n.fd evfilt_write ≡ false
    pub no_user : in_kqueue e'.calls n.fd evfilt_user ≡ false
    pub except_stays : in_kqueue e'.calls n.fd evfilt_except ≡ in_kqueue e.calls n.fd evfilt_except

  abbrev pub Leaves : EpollFd T × Outcome Node → Type 0
  Leaves (e', ok n') = Leftover e'
  Leaves (e', fail ec) = ⊥
  Leaves (e', blocks) = ⊥
  Leaves (e', fault) = ⊥
  Leaves (e', aborted) = ⊥

  leave_poll_list-Untouched :
      (n.is_on_pollfd_list ≡ true → 0 < e.poll_fds_size) → Untouched (leave_poll_list e n)
  unfolding leave_poll_list epollfd_ctx__trigger_repoll Untouched
  leave_poll_list-Untouched room =
      either_on Untouched n.is_on_pollfd_list _ _
        (λ on. rw (some_is_not_zero e.poll_fds_size (room on)) (
          either_on (λ x. Untouched (x, ok (record n { is_on_pollfd_list = false })))
            (e.nr_polling_threads == 0) _ _ (λ k. (refl, refl, λ fd f. refl))
            (λ k. (refl, refl, λ fd f. refl))))
        (λ off. (refl, refl, λ fd f. refl))

  then_delete :
      (p : EpollFd T × Outcome Node)
      → is_poll n.node_type ≡ false
      → Untouched p
      → Leaves (and_then p delete_filters)
  unfolding delete_filters Untouched
  then_delete (e', ok n') h (same, type, untouched) =
      rw (type, h)
        (record {
          no_read = rw (same, same_number n.fd) refl;
          no_write = rw (same, same_number n.fd) refl;
          no_user = rw (same, same_number n.fd) refl;
          except_stays = rw (same, same_number n.fd) (untouched n.fd evfilt_except);
        })
  then_delete (e', fail ec) h u = u
  then_delete (e', blocks) h u = u
  then_delete (e', fault) h u = u
  then_delete (e', aborted) h u = u

  -- The removal of a node's filters comes to an end, and deletes its EVFILT_READ, EVFILT_WRITE and
  -- EVFILT_USER, but not its EVFILT_EXCEPT: where that was added, the kqueue keeps it. The node is not
  -- one for poll, and a node on the list of polled nodes is counted.
  pub remove_node_from_kq-Leaves :
      is_poll n.node_type ≡ false
      → (n.is_on_pollfd_list ≡ true → 0 < e.poll_fds_size)
      → Leaves (epollfd_ctx__remove_node_from_kq e n)
  unfolding epollfd_ctx__remove_node_from_kq
  remove_node_from_kq-Leaves h room =
      then_delete (leave_poll_list e n) h (leave_poll_list-Untouched room)
