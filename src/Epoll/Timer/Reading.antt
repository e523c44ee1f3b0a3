-- ===== src/Epoll/Timer/Reading.antt =====
-- timerfd_ctx.c: timerfd_ctx_read.
use wwn_iland.Common.{
  ℕ, Bool, true, false, not, ◌&&◌, Option, none, some, List, [], ◌∷◌, Outcome, ok, fail, blocks,
  fault, aborted, eagain, ecanceled, and_then, assert, if◌then◌else◌, ◌==◌,
}
use wwn_iland.Epoll.Timespec.{Timespec}
use wwn_iland.Epoll.Timer.{
  TimerFd, timerfd_ctx_is_interval_timer, timerfd_ctx_can_jump, timerfd_ctx_disarm,
  timerfd_ctx_update_to_current_time,
}
use wwn_iland.Epoll.Timer.Kevents.{
  Clock, Reply, timerfd_ctx_get_clocktime, timerfd_ctx_rearm_kevent, timerfd_ctx_check_for_cancel,
}
use wwn_iland.Epoll.Timer.Calls.{is_unspecified, updated}

-- The ident that the events of the kqueue amount to: the first, or 0 if that is among them.
unfoldable pub event_ident : (seen : Option ℕ) → (idents : List ℕ) → Option ℕ
event_ident seen [] = seen
event_ident none (ident ∷ idents) = event_ident (some ident) idents
event_ident (some seen) (ident ∷ idents) =
    event_ident (some (if ident == 0 then 0 else seen)) idents

-- `got_kevent && event_ident == 0`
abbrev pub is_timer_event : Option ℕ → Bool
is_timer_event none = false
is_timer_event (some ident) = ident == 0

abbrev got_kevent : Option ℕ → Bool
got_kevent none = false
got_kevent (some ident) = true

-- What the read returns, once the timer event is registered again.
unfoldable pub rearm_and_return :
    {A : Type 0}
    → TimerFd
    → (current_time : Timespec) → (event : Option ℕ) → Reply
    → Outcome A
    → TimerFd × Outcome A
unfolding timerfd_ctx_rearm_kevent
rearm_and_return t current_time event reply r =
    and_then (timerfd_ctx_rearm_kevent t current_time (not (is_timer_event event)) reply)
      (λ t u. (t, r))

-- No expiration was counted although the timer event came: the clock has been set back.
unfoldable pub read_early :
    TimerFd → (current_time : Timespec) → (event : Option ℕ) → Reply → TimerFd × Outcome ℕ
unfolding rearm_and_return timerfd_ctx_is_interval_timer timerfd_ctx_disarm timerfd_ctx_can_jump
read_early t current_time event reply =
    if not (got_kevent event)
    then (t, fail eagain)
    else assert (is_timer_event event && timerfd_ctx_can_jump t) t (
        if t.is_cancel_on_set
        then rearm_and_return t current_time event reply (fail ecanceled)
        else if not (timerfd_ctx_is_interval_timer t)
        then rearm_and_return (timerfd_ctx_disarm t) current_time event reply (ok 1)
        else rearm_and_return t current_time event reply (ok 0))

-- The count of the updated timer, which starts again.
unfoldable pub read_count :
    TimerFd → (current_time : Timespec) → (event : Option ℕ) → Reply → TimerFd × Outcome ℕ
unfolding read_early rearm_and_return
read_count t current_time event reply =
    if t.nr_expirations == 0
    then read_early (record t { nr_expirations = 0 }) current_time event reply
    else rearm_and_return (record t { nr_expirations = 0 }) current_time event reply
        (ok t.nr_expirations)

unfoldable pub read_at :
    TimerFd
    → (is_cancelled : Bool) → (event : Option ℕ) → Reply
    → (current_time : Timespec) → TimerFd × Outcome ℕ
unfolding read_count rearm_and_return updated timerfd_ctx_update_to_current_time
read_at t true event reply current_time =
    rearm_and_return t current_time event reply (fail ecanceled)
read_at t false event reply current_time =
    updated (timerfd_ctx_update_to_current_time t current_time) t
      (λ t'. read_count t' current_time event reply)

-- The error of a clock that fails.
unfoldable pub clock_error : (is_cancelled : Bool) → Outcome Timespec → Outcome Timespec
clock_error true (fail e) = fail ecanceled
clock_error false (fail e) = fail e
clock_error is_cancelled (ok current_time) = ok current_time
clock_error is_cancelled blocks = blocks
clock_error is_cancelled fault = fault
clock_error is_cancelled aborted = aborted

-- A read with the events known. The assertion that a cancellation comes without the timer event is
-- what the test before it leaves.
unfoldable pub read_events :
    TimerFd → Clock → (offset : Option Timespec) → Reply → (event : Option ℕ) → TimerFd × Outcome ℕ
unfolding timerfd_ctx_check_for_cancel timerfd_ctx_get_clocktime read_at clock_error
read_events t clock offset reply event =
    let (t', is_cancelled) = timerfd_ctx_check_for_cancel t offset in
    if is_cancelled && is_timer_event event
    then (t', fail ecanceled)
    else and_then
        (
          t',
          clock_error is_cancelled (timerfd_ctx_get_clocktime clock t'.is_realtime t'.timer_type),
        )
        (λ t' current_time. read_at t' is_cancelled event reply current_time)

-- `pending` is what `kevent` returns without waiting: the idents of at most three timer events.
unfoldable pub timerfd_ctx_read :
    TimerFd
    → Clock
    → (offset : Option Timespec) → (pending : Outcome (List ℕ)) → Reply
    → TimerFd × Outcome ℕ
unfolding read_events event_ident
timerfd_ctx_read t clock offset pending reply =
    if is_unspecified t.timer_type
    then (t, fail eagain)
    else and_then (t, pending)
        (λ t idents. read_events t clock offset reply (event_ident none idents))
