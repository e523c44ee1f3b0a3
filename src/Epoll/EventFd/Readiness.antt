-- ===== src/Epoll/EventFd/Readiness.antt =====
-- When the kqueue of an event descriptor of eventfd_ctx.c reports it, and what reads give back.
use wwn_iland.Common.{
  ℕ, ◌+◌, ◌<◌, ◌≤◌, ◌≡◌, ◌≢◌, ◌⊎◌, inl, inr, refl, ap, Bool, true, false, Option, none, some, Errno,
  ok, fail, einval, eagain, arith, if◌then◌else◌, ◌^◌, ltb, Bool-cases, ◌==◌,
}
use wwn_iland.Epoll.KQueue.{
  KQueue, KQueueEvent, kqueue_event_init, kqueue_event_trigger, kqueue_event_clear, drain-pending,
  triggered, registered, with_event_added,
}
use wwn_iland.Epoll.EventFd.{
  EventFd, uint64_max, made, eventfd_ctx_init, add_to_counter, eventfd_ctx_write, counter_after,
  eventfd_ctx_read,
}

-- The flag says whether the kqueue has an event to report, and a counter above 0 is reported.
pub record IsSynced {K : Type 0} (q : KQueue K) (e : EventFd K) : Type 0 where
  pub fits : e.counter < uint64_max
  pub flag : e.event.is_triggered ≡ ltb 0 (q.pending e.event.kq)
  pub reported : (e.counter ≡ 0) ⊎ (e.event.is_triggered ≡ true)

module _ {K : Type 0} (q : KQueue K) where
  after_trigger :
      (v v' : KQueueEvent K) (r : K × Option Errno)
      → q.trigger v.kq ≡ r
      → triggered v r ≡ (v', ok tt)
      → (v'.is_triggered ≡ true) × (0 < q.pending v'.kq)
  unfolding triggered
  after_trigger v v' (k, none) p h = ground (arith, h, q.trigger_done v.kq k p)
  after_trigger v v' (k, some e) p h = ground (arith, h)

  trigger_sets :
      (v v' : KQueueEvent K)
      → v.is_triggered ≡ ltb 0 (q.pending v.kq)
      → kqueue_event_trigger q v ≡ (v', ok tt)
      → (v'.is_triggered ≡ true) × (0 < q.pending v'.kq)
  unfolding kqueue_event_trigger
  trigger_sets v v' flag h = elim (Bool-cases v.is_triggered) [
    | inl set ↦ ground (arith, h, flag, set)
    | inr clear ↦ after_trigger v v' (q.trigger v.kq) refl (ground (arith, h, clear))
  ]

  written :
      (e : EventFd K) (value : ℕ) (e' : EventFd K)
      → IsSynced q e
      → eventfd_ctx_write q e value ≡ (e', ok tt)
      → (e'.counter < uint64_max)
        × (e'.counter ≡ e.counter + value)
        × (e'.event.is_triggered ≡ true)
        × (0 < q.pending e'.event.kq)
  unfolding eventfd_ctx_write add_to_counter
  written e value e' v h =
      let (fits, sum, event, done) : (e.counter + value < uint64_max)
          × (e'.counter ≡ e.counter + value)
          × (e'.event ≡ (kqueue_event_trigger q e.event).0)
          × ((kqueue_event_trigger q e.event).1 ≡ ok tt) =
        ground (arith, h) in
      let (set, ready) =
        trigger_sets e.event (kqueue_event_trigger q e.event).0 v.flag
          (ap (λ r. ((kqueue_event_trigger q e.event).0, r)) done) in
      (omega (arith, fits, sum), sum, rw event set, rw event ready)

  -- A write that succeeds adds its value to the counter, which stays below UINT64_MAX, and leaves an
  -- event for the kqueue to report, as the flag of the descriptor then says.
  pub write-IsSynced :
      (e : EventFd K) (value : ℕ) (e' : EventFd K)
      → IsSynced q e
      → eventfd_ctx_write q e value ≡ (e', ok tt)
      → IsSynced q e'
        × (e'.counter ≡ e.counter + value)
        × (e'.event.is_triggered ≡ true)
        × (0 < q.pending e'.event.kq)
  write-IsSynced e value e' v h =
      let (fits, sum, set, ready) = written e value e' v h in
      (
        record { fits = fits; flag = ground (arith, set, ready); reported = inr set },
        sum,
        set,
        ready,
      )

  trigger_accepted :
      (v : KQueueEvent K) (k : K)
      → q.trigger v.kq ≡ (k, none)
      → (v' : KQueueEvent K) × (kqueue_event_trigger q v ≡ (v', ok tt))
  unfolding kqueue_event_trigger triggered
  trigger_accepted v k h = elim (Bool-cases v.is_triggered) [
    | inl set ↦ (v, rw (set) refl)
    | inr clear ↦ (record { is_triggered = true; kq = k }, rw (clear, h) refl)
  ]

  -- A write of 0 to a descriptor with the counter 0 succeeds, where the kqueue accepts NOTE_TRIGGER,
  -- and makes the descriptor report an event, although a read then finds nothing, and no such read
  -- makes it stop.
  pub write_zero_reports :
      (e : EventFd K) (k : K)
      → IsSynced q e
      → e.counter ≡ 0
      → q.trigger e.event.kq ≡ (k, none)
      → (e' : EventFd K) × (eventfd_ctx_write q e 0 ≡ (e', ok tt))
        × (0 < q.pending e'.event.kq)
        × (eventfd_ctx_read q e' ≡ (e', fail eagain))
  unfolding eventfd_ctx_write eventfd_ctx_read add_to_counter
  write_zero_reports e k v zero' accepted =
      let (event, t) = trigger_accepted e.event k accepted in
      let e' : EventFd K = record {
        semaphore = e.semaphore;
        counter = e.counter + 0;
        event = event;
      } in
      let h : eventfd_ctx_write q e 0 ≡ (e', ok tt) = rw (zero', t) refl in
      let (fits, sum, set, ready) = written e 0 e' v h in
      let still : e'.counter ≡ 0 = omega (arith, sum, zero') in
      (e', h, ready, ground (arith, still))

  -- What a read that succeeds returns.
  abbrev taken : EventFd K → ℕ
  taken e = if e.semaphore then 1 else e.counter

  -- A read fails with EAGAIN and changes nothing on the counter 0. On any other counter it takes from
  -- the counter what it returns: 1 for a semaphore, all of it otherwise.
  pub read_outcome :
      (e : EventFd K)
      → let (e', r) = eventfd_ctx_read q e in
        ((e.counter ≡ 0) × (r ≡ fail eagain) × (e' ≡ e))
        ⊎ ((value : ℕ) × (0 < value)
            × (r ≡ ok value)
            × (e'.counter + value ≡ e.counter)
            × (value ≡ (if e.semaphore then 1 else e.counter)))
  unfolding eventfd_ctx_read counter_after
  read_outcome e = elim (Bool-cases (e.counter == 0)) [
    | inl zero' ↦ inl (ground (arith, zero'))
    | inr some' ↦
        let (a, b, c) : (0 < taken e)
            × ((eventfd_ctx_read q e).1 ≡ ok (taken e))
            × ((eventfd_ctx_read q e).0.counter + taken e ≡ e.counter) =
          ground (arith, some') in
        inr (taken e, a, b, c, refl)
  ]

  clear-flag :
      (v : KQueueEvent K)
      → (kqueue_event_clear q v).is_triggered ≡ ltb 0 (q.pending (kqueue_event_clear q v).kq)
  unfolding kqueue_event_clear
  clear-flag v = ground (arith, drain-pending q (q.pending v.kq) v.kq (omega arith))

  -- A read keeps the descriptor's readiness in step with its counter, whether it succeeds or not.
  pub read-IsSynced : (e : EventFd K) → IsSynced q e → IsSynced q (eventfd_ctx_read q e).0
  unfolding eventfd_ctx_read
  read-IsSynced e v = ground (arith, v.fits, v.flag, v.reported, clear-flag e.event)

  after_init :
      (kq : K) (counter : ℕ) (semaphore : Bool) (e : EventFd K) (r : K × Option Errno)
      → q.trigger kq ≡ r
      → counter < uint64_max
      → made counter semaphore (registered r) ≡ ok e
      → IsSynced q e × (e.counter ≡ counter)
  unfolding made registered
  after_init kq counter semaphore e (k, none) p small h =
      let ready = q.trigger_done kq k p in
      let same : e ≡ record {
        semaphore = semaphore;
        counter = counter;
        event = record { is_triggered = true; kq = k };
      } =
        ground (arith, h) in
      rw same (record { fits = small; flag = ground (arith, ready); reported = inr refl }, refl)
  after_init kq counter semaphore e (k, some err) p small h = ground (arith, h)

  -- A write is refused with EINVAL for UINT64_MAX and with EAGAIN where the sum would be above
  -- UINT64_MAX - 1, and then changes nothing; otherwise it adds its value, also where the kqueue then
  -- reports an error.
  pub write_outcome :
      (e : EventFd K) (value : ℕ)
      → let (e', r) = eventfd_ctx_write q e value in
        ((value ≡ uint64_max) × (r ≡ fail einval) × (e' ≡ e))
        ⊎ ((value ≢ uint64_max) × (uint64_max ≤ e.counter + value) × (r ≡ fail eagain) × (e' ≡ e))
        ⊎ ((e.counter + value < uint64_max) × (e'.counter ≡ e.counter + value))
  unfolding eventfd_ctx_write add_to_counter
  write_outcome e value = ground arith

  added-IsSynced :
      (kq : K) (counter : ℕ) (semaphore : Bool) (e : EventFd K) (r : K × Option Errno)
      → q.add_event kq ≡ r
      → q.pending kq ≡ 0
      → counter < 2 ^ 32
      → made counter semaphore (with_event_added q (ltb 0 counter) r) ≡ ok e
      → IsSynced q e × (e.counter ≡ counter)
  unfolding with_event_added made
  added-IsSynced kq counter semaphore e (k, some err) p empty small h = ground (arith, h)
  added-IsSynced kq counter semaphore e (k, none) p empty small h =
      elim (Bool-cases (ltb 0 counter)) [
        | inl some' ↦
            after_init k counter semaphore e (q.trigger k) refl (omega (arith, small))
              (ground (arith, h, some'))
        | inr zero' ↦
            let none' : counter ≡ 0 = ground (arith, zero') in
            let still : q.pending k ≡ 0 = omega (arith, q.add_event_done kq k p, empty) in
            let same : e ≡ record {
              semaphore = semaphore;
              counter = counter;
              event = record { is_triggered = false; kq = k };
            } =
              ground (arith, h, zero') in
            rw same (
              record {
                fits = omega (arith, small);
                flag = ground (arith, still);
                reported = inl none';
              },
              refl,
            )
      ]

  -- A new descriptor on a kqueue with nothing to report is in step, and has its first counter.
  pub init-IsSynced :
      (kq : K) (counter : ℕ) (semaphore : Bool) (e : EventFd K)
      → q.pending kq ≡ 0
      → counter < 2 ^ 32
      → eventfd_ctx_init q kq counter semaphore ≡ ok e
      → IsSynced q e × (e.counter ≡ counter)
  unfolding eventfd_ctx_init kqueue_event_init
  init-IsSynced kq counter semaphore e empty small h =
      added-IsSynced kq counter semaphore e (q.add_event kq) refl empty small h
