-- ===== src/Epoll/Timer/Kevents.antt =====
-- timerfd_ctx.c: the clocks behind a timer, its changes to the kqueue, and steps of CLOCK_REALTIME.
use wwn_iland.Common.{
  ℕ, ◌+◌, ◌*◌, ◌/◌, ◌%◌, Bool, true, false, not, ◌&&◌, ◌||◌, Option, none, some, ◌∷◌, Errno,
  Outcome, ok, fail, aborted, and_then, assert, if◌then◌else◌, leb, ◌==◌,
}
use wwn_iland.Epoll.Timespec.{
  pos, Timespec, TimeResult, time, overflow, magnitude, timespecsub_safe,
}
use wwn_iland.Epoll.Timer.{
  TimerType, unspecified, relative, absolute, delete_timer, arm_timer, delete_cancel, arm_cancel,
  TimerFd, zero_time, int_lt, time_eq, timerfd_ctx_is_disarmed, timerfd_ctx_can_jump,
  timerfd_ctx_disarm,
}

-- `clock_gettime` of CLOCK_REALTIME (`true`) and of CLOCK_MONOTONIC (`false`), with its error.
abbrev pub Clock : Type 0
Clock = (is_realtime : Bool) → Outcome Timespec

unfoldable pub timerfd_ctx_get_clocktime :
    Clock → (is_realtime : Bool) → TimerType → Outcome Timespec
timerfd_ctx_get_clocktime clock is_realtime unspecified = aborted
timerfd_ctx_get_clocktime clock is_realtime relative = clock false
timerfd_ctx_get_clocktime clock is_realtime absolute = clock is_realtime

-- What `kevent` says to a change of the timer event: the call fails, or its receipts come with the
-- error of the last change. The receipt of the deletion is not looked at.
pub data Reply : Type 0 where
  call_fails : Errno → Reply
  accepted : Reply
  refused : Errno → Reply

-- The time until `new`, 0 once it has passed.
abbrev time_until : TimeResult → Outcome Timespec
time_until (time diff_time) = ok (if int_lt diff_time.tv_sec (pos 0) then zero_time else diff_time)
time_until overflow = ok zero_time
time_until TimeResult.aborted = Outcome.aborted

-- 3650 days, in seconds.
abbrev pub longest_timeout : ℕ
longest_timeout = 315360000

-- Microseconds, rounded up, as `kev[1].data` with 64 bits takes them.
unfoldable pub micros_of : (seconds nanoseconds : ℕ) → ℕ
micros_of seconds nanoseconds =
    seconds * 1000000 + nanoseconds / 1000 + (if nanoseconds % 1000 == 0 then 0 else 1)

unfoldable pub deletion_reply : Reply → Outcome (Unit {0})
deletion_reply (call_fails e) = fail e
deletion_reply accepted = ok tt
deletion_reply (refused e) = ok tt

unfoldable pub arming_reply : Reply → Outcome (Unit {0})
arming_reply (call_fails e) = fail e
arming_reply accepted = ok tt
arming_reply (refused e) = fail e

unfoldable pub register_timeout :
    TimerFd → (diff_time : Timespec) → Reply → TimerFd × Outcome (Unit {0})
unfolding deletion_reply arming_reply micros_of
register_timeout t diff_time reply =
    if leb longest_timeout (magnitude diff_time.tv_sec)
    then (record t { calls = delete_timer ∷ t.calls }, deletion_reply reply)
    else (
      record t {
        calls =
            arm_timer (micros_of (magnitude diff_time.tv_sec) (magnitude diff_time.tv_nsec))
            ∷ delete_timer
            ∷ t.calls;
      },
      arming_reply reply,
    )

-- With NOTE_USECONDS.
unfoldable pub timerfd_ctx_register_event :
    TimerFd → (new current_time : Timespec) → Reply → TimerFd × Outcome (Unit {0})
unfolding register_timeout
timerfd_ctx_register_event t new current_time reply = assert (not (time_eq new zero_time)) t (
    and_then (t, time_until (timespecsub_safe new current_time))
      (λ t diff_time. register_timeout t diff_time reply))

-- A registration that fails disarms the timer.
unfoldable pub rearmed : TimerFd × Outcome (Unit {0}) → TimerFd × Outcome (Unit {0})
unfolding timerfd_ctx_disarm
rearmed (t, ok u) = (t, ok tt)
rearmed (t, aborted) = (t, aborted)
rearmed (t, r) = (timerfd_ctx_disarm t, ok tt)

unfoldable pub timerfd_ctx_rearm_kevent :
    TimerFd
    → (current_time : Timespec) → (need_kevent_delete_on_disarmed_timer : Bool) → Reply
    → TimerFd × Outcome (Unit {0})
unfolding timerfd_ctx_register_event rearmed timerfd_ctx_is_disarmed
timerfd_ctx_rearm_kevent t current_time need_kevent_delete_on_disarmed_timer reply =
    if not (timerfd_ctx_is_disarmed t)
    then rearmed (timerfd_ctx_register_event t t.it_value current_time reply)
    else if need_kevent_delete_on_disarmed_timer
    then (record t { calls = delete_timer ∷ t.calls }, ok tt)
    else (t, ok tt)

unfoldable pub timerfd_ctx_clear_force_cancel : TimerFd → TimerFd
timerfd_ctx_clear_force_cancel t = record t {
  force_cancel = false;
  calls = if t.force_cancel then delete_cancel ∷ t.calls else t.calls;
}

-- The boot time as the system reports it, or the one that is known.
abbrev pub offset_or : Option Timespec → Timespec → Timespec
offset_or none known = known
offset_or (some offset) known = offset

-- `offset` is the result of timerfd_ctx_get_monotonic_offset.
unfoldable pub timerfd_ctx_check_for_cancel : TimerFd → (offset : Option Timespec) → TimerFd × Bool
unfolding timerfd_ctx_clear_force_cancel timerfd_ctx_can_jump
timerfd_ctx_check_for_cancel t offset =
    if not t.is_realtime
    then (t, false)
    else if timerfd_ctx_can_jump t
    then (
      timerfd_ctx_clear_force_cancel
          (record t { monotonic_offset = offset_or offset t.monotonic_offset }),
      (t.force_cancel || not (time_eq t.monotonic_offset (offset_or offset t.monotonic_offset)))
          && t.is_cancel_on_set,
    )
    else (timerfd_ctx_clear_force_cancel t, false)

-- A clock that fails leaves the timer as it is.
unfoldable pub rearm_at : TimerFd → Reply → Outcome Timespec → TimerFd × Outcome (Unit {0})
unfolding timerfd_ctx_rearm_kevent
rearm_at t reply (ok current_time) = timerfd_ctx_rearm_kevent t current_time true reply
rearm_at t reply aborted = (t, aborted)
rearm_at t reply r = (t, ok tt)

-- The step of the clock, once it is known to be one; `is_pending` is the result of the poll.
unfoldable pub realtime_stepped :
    TimerFd → (is_pending : Bool) → Clock → Reply → TimerFd × Outcome (Unit {0})
unfolding rearm_at timerfd_ctx_get_clocktime
realtime_stepped t is_pending clock reply =
    if not t.is_cancel_on_set
    then (if is_pending
        then (t, ok tt)
        else rearm_at t reply (timerfd_ctx_get_clocktime clock t.is_realtime t.timer_type))
    else (record t { force_cancel = true; calls = arm_cancel ∷ delete_cancel ∷ t.calls }, ok tt)

-- The step of the clock to the boot time `offset`.
unfoldable pub realtime_moved :
    TimerFd
    → (offset : Option Timespec) → (is_pending : Bool) → Clock
    → Reply
    → TimerFd × Outcome (Unit {0})
unfolding realtime_stepped
realtime_moved t none is_pending clock reply = (t, ok tt)
realtime_moved t (some offset) is_pending clock reply =
    if time_eq t.monotonic_offset offset
    then (t, ok tt)
    else realtime_stepped (record t { monotonic_offset = offset }) is_pending clock reply

unfoldable pub timerfd_ctx_realtime_change :
    TimerFd
    → (offset : Option Timespec) → (is_pending : Bool) → Clock
    → Reply
    → TimerFd × Outcome (Unit {0})
unfolding realtime_moved timerfd_ctx_can_jump
timerfd_ctx_realtime_change t offset is_pending clock reply =
    if timerfd_ctx_can_jump t then realtime_moved t offset is_pending clock reply else (t, ok tt)

-- Whether the descriptor is readable: `none` where the call does not ask for the events and only
-- looks for a step of the clock.
unfoldable pub timerfd_ctx_poll :
    TimerFd
    → (wants_revents : Bool) → (offset : Option Timespec) → (is_pending : Bool) → Clock
    → Reply
    → TimerFd × Outcome Bool
unfolding timerfd_ctx_realtime_change
timerfd_ctx_poll t wants_revents offset is_pending clock reply =
    if wants_revents
    then (t, ok true)
    else and_then (timerfd_ctx_realtime_change t offset is_pending clock reply)
        (λ t u. (t, ok false))
