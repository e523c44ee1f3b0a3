-- ===== src/Epoll/EventFd.antt =====
-- eventfd_ctx.c: the counter behind an event descriptor, and the kqueue that reports it.
pub mod Readiness
mod Tests
use wwn_iland.Common.{
  ℕ, ◌+◌, ◌-◌, ◌^◌, Bool, true, false, ◌&&◌, ◌||◌, Option, none, some, Errno, Outcome, ok, fail,
  blocks, fault, aborted, einval, eagain, if◌then◌else◌, leb, ltb, ◌==◌,
}
use wwn_iland.Epoll.KQueue.{
  KQueue, KQueueEvent, kqueue_event_init, kqueue_event_is_triggered, kqueue_event_trigger,
  kqueue_event_clear,
}

-- `UINT64_MAX`
abbrev pub uint64_max : ℕ
uint64_max = 2 ^ 64 - 1

-- `EventFDCtx`; `semaphore` is the flag EVENTFD_CTX_FLAG_SEMAPHORE.
pub record EventFd (K : Type 0) : Type 0 where
  pub semaphore : Bool
  pub counter : ℕ
  pub event : KQueueEvent K

-- A failed registration leaves no context.
unfoldable pub made :
    {K : Type 0}
    → (counter : ℕ) → (semaphore : Bool) → KQueueEvent K × Outcome (Unit {0})
    → Outcome (EventFd K)
made counter semaphore (event, ok u) =
    ok (record { semaphore = semaphore; counter = counter; event = event })
made counter semaphore (event, fail e) = fail e
made counter semaphore (event, blocks) = blocks
made counter semaphore (event, fault) = fault
made counter semaphore (event, aborted) = aborted

unfoldable pub eventfd_ctx_init :
    {K : Type 0} → KQueue K → K → (counter : ℕ) → (semaphore : Bool) → Outcome (EventFd K)
unfolding kqueue_event_init made
eventfd_ctx_init q kq counter semaphore =
    made counter semaphore (kqueue_event_init q kq (ltb 0 counter))

-- The rest of a write, once the new counter is known to fit.
unfoldable pub add_to_counter :
    {K : Type 0} → KQueue K → EventFd K → (value : ℕ) → EventFd K × Outcome (Unit {0})
unfolding kqueue_event_trigger
add_to_counter q e value =
    let (event, r) = kqueue_event_trigger q e.event in
    (record { semaphore = e.semaphore; counter = e.counter + value; event = event }, r)

-- The sum overflows 64 bits or is UINT64_MAX exactly if it is above UINT64_MAX - 1.
unfoldable pub eventfd_ctx_write :
    {K : Type 0} → KQueue K → EventFd K → (value : ℕ) → EventFd K × Outcome (Unit {0})
unfolding add_to_counter
eventfd_ctx_write q e value =
    if value == uint64_max
    then (e, fail einval)
    else if ltb uint64_max (e.counter + value) || ltb (uint64_max - 1) (e.counter + value)
    then (e, fail eagain)
    else add_to_counter q e value

-- The counter that a read leaves.
unfoldable pub counter_after : {K : Type 0} → EventFd K → ℕ
counter_after e = if e.semaphore then e.counter - 1 else 0

unfoldable pub eventfd_ctx_read : {K : Type 0} → KQueue K → EventFd K → EventFd K × Outcome ℕ
unfolding counter_after kqueue_event_clear kqueue_event_is_triggered
eventfd_ctx_read q e = if e.counter == 0 then (e, fail eagain) else (
  record {
    semaphore = e.semaphore;
    counter = counter_after e;
    event =
        if counter_after e == 0 && kqueue_event_is_triggered e.event
        then kqueue_event_clear q e.event
        else e.event;
  },
  ok (if e.semaphore then 1 else e.counter),
)
