-- ===== src/Epoll/Timer/Calls.antt =====
-- timerfd_ctx.c: timerfd_ctx_settime, timerfd_ctx_gettime and timerfd_ctx_read.
use wwn_iland.Common.{
  ◌-◌, ◌+◌, Bool, true, false, not, ◌&&◌, Option, none, some, ◌∷◌, Outcome, ok, fail, aborted,
  einval, ecanceled, and_then, assert, if◌then◌else◌, ltb,
}
use wwn_iland.Epoll.Timespec.{
  pos, Timespec, Itimerspec, TimeResult, time, overflow, billion, magnitude, difference, decrement,
  itimerspec_is_valid, timespecadd_safe,
}
use wwn_iland.Epoll.Timer.{
  TimerType, unspecified, relative, absolute, delete_timer, TimerFd, zero_time, time_eq, time_lt,
  timerfd_ctx_is_disarmed, timerfd_ctx_disarm, timerfd_ctx_update_to_current_time,
}
use wwn_iland.Epoll.Timer.Kevents.{
  Clock, Reply, timerfd_ctx_get_clocktime, timerfd_ctx_register_event, timerfd_ctx_check_for_cancel,
}

-- `timespecsub` on times that are not negative.
unfoldable pub timespecsub : Timespec → Timespec → Timespec
unfolding difference decrement
timespecsub tsp usp =
    if ltb (magnitude tsp.tv_nsec) (magnitude usp.tv_nsec)
    then record {
      tv_sec = decrement (difference (magnitude tsp.tv_sec) (magnitude usp.tv_sec));
      tv_nsec = pos (magnitude tsp.tv_nsec + billion - magnitude usp.tv_nsec);
    }
    else record {
      tv_sec = difference (magnitude tsp.tv_sec) (magnitude usp.tv_sec);
      tv_nsec = pos (magnitude tsp.tv_nsec - magnitude usp.tv_nsec);
    }

abbrev pub setting : TimerFd → Itimerspec
setting t = record { it_value = t.it_value; it_interval = t.it_interval }

-- The time that is left at `current_time`, from the updated timer.
unfoldable pub remaining : TimerFd → (current_time : Timespec) → TimerFd × Outcome Itimerspec
unfolding timerfd_ctx_is_disarmed timespecsub
remaining t current_time =
    if timerfd_ctx_is_disarmed t
    then (t, ok (setting t))
    else assert (time_lt current_time t.it_value) t
        (t, ok (record (setting t) { it_value = timespecsub t.it_value current_time }))

-- `none` of the update fails an assertion.
unfoldable pub updated :
    {A : Type 0} → Option TimerFd → TimerFd → (TimerFd → TimerFd × Outcome A) → TimerFd × Outcome A
updated none t rest = (t, aborted)
updated (some t') t rest = rest t'

-- With a time; without one the call is `(t, ok (setting t))`.
unfoldable pub timerfd_ctx_gettime_impl :
    TimerFd → (current_time : Timespec) → TimerFd × Outcome Itimerspec
unfolding remaining updated timerfd_ctx_update_to_current_time
timerfd_ctx_gettime_impl t current_time =
    updated (timerfd_ctx_update_to_current_time t current_time) t (λ t'. remaining t' current_time)

abbrev pub is_unspecified : TimerType → Bool
is_unspecified unspecified = true
is_unspecified relative = false
is_unspecified absolute = false

unfoldable pub timerfd_ctx_gettime : TimerFd → Clock → TimerFd × Outcome Itimerspec
unfolding timerfd_ctx_gettime_impl timerfd_ctx_get_clocktime
timerfd_ctx_gettime t clock =
    if is_unspecified t.timer_type
    then (t, ok (setting t))
    else and_then (t, timerfd_ctx_get_clocktime clock t.is_realtime t.timer_type)
        timerfd_ctx_gettime_impl

-- `TimerType new_timer_type`
abbrev pub type_of : (is_abstime : Bool) → TimerType
type_of true = absolute
type_of false = relative

-- The arguments of timerfd_ctx_settime: `wants_old` is `old != NULL`.
pub record Request : Type 0 where
  pub is_abstime : Bool
  pub is_cancel_on_set : Bool
  pub new : Itimerspec
  pub wants_old : Bool

-- What the system says during the call: its clocks when the old setting is read and when the new
-- one is made, the boot time, and the answer of the kqueue.
pub record Replies : Type 0 where
  pub clock_old : Clock
  pub clock_new : Clock
  pub offset : Option Timespec
  pub kevent : Reply

-- The old setting, where it is asked for, with the time at which it was read.
unfoldable pub read_old :
    TimerFd → (wants_old : Bool) → Clock → TimerFd × Outcome (Option Itimerspec × Option Timespec)
unfolding timerfd_ctx_gettime_impl timerfd_ctx_get_clocktime
read_old t wants_old clock =
    if not wants_old
    then (t, ok (none, none))
    else if is_unspecified t.timer_type
    then (t, ok (some (setting t), none))
    else and_then (t, timerfd_ctx_get_clocktime clock t.is_realtime t.timer_type)
        (λ t current_time.
          and_then (timerfd_ctx_gettime_impl t current_time)
            (λ t old. (t, ok (some old, some current_time))))

abbrev same_type : TimerType → TimerType → Bool
same_type unspecified unspecified = true
same_type relative relative = true
same_type absolute absolute = true
same_type unspecified relative = false
same_type unspecified absolute = false
same_type relative unspecified = false
same_type relative absolute = false
same_type absolute unspecified = false
same_type absolute relative = false

-- The time for the new setting: the time of the old one serves where it is of the same type.
unfoldable pub new_time : TimerFd → (is_abstime : Bool) → Option Timespec → Clock → Outcome Timespec
unfolding timerfd_ctx_get_clocktime
new_time t is_abstime none clock =
    timerfd_ctx_get_clocktime clock t.is_realtime (type_of is_abstime)
new_time t is_abstime (some current_time) clock =
    if same_type t.timer_type (type_of is_abstime)
    then ok current_time
    else timerfd_ctx_get_clocktime clock t.is_realtime (type_of is_abstime)

-- `new_absolute.it_value`
unfoldable pub absolute_value :
    (is_abstime : Bool) → (value current_time : Timespec) → Outcome Timespec
absolute_value true value current_time = ok value
absolute_value false value current_time = elim (timespecadd_safe current_time value) [
  | time v ↦ ok v
  | overflow ↦ fail einval
  | TimeResult.aborted ↦ aborted
]

unfoldable pub disarm_setting : TimerFd → TimerFd × Outcome (Unit {0})
unfolding timerfd_ctx_disarm
disarm_setting t = (
  record (timerfd_ctx_disarm t) {
    is_cancel_on_set = false;
    is_abstime = false;
    calls = delete_timer ∷ t.calls;
  },
  ok tt,
)

unfoldable pub arm_setting :
    TimerFd → Request → Option Timespec → Replies → TimerFd × Outcome (Unit {0})
unfolding new_time absolute_value timerfd_ctx_register_event
arm_setting t r read_at replies =
    and_then (t, new_time t r.is_abstime read_at replies.clock_new)
      (λ t current_time.
        and_then (t, absolute_value r.is_abstime r.new.it_value current_time)
          (λ t value.
            and_then (timerfd_ctx_register_event t value current_time replies.kevent) (λ t u. (
              record t {
                it_value = value;
                it_interval = r.new.it_interval;
                timer_type = type_of r.is_abstime;
                is_cancel_on_set = r.is_cancel_on_set && t.is_realtime && r.is_abstime;
                is_abstime = r.is_abstime;
              },
              ok tt,
            ))))

-- The count starts again, and a step of the clock that the old setting asked for is reported.
unfoldable pub finish_setting :
    TimerFd
    → (old_is_cancel_on_set : Bool) → (old : Option Itimerspec) → (offset : Option Timespec)
    → TimerFd × Outcome (Option Itimerspec)
unfolding timerfd_ctx_check_for_cancel
finish_setting t old_is_cancel_on_set old offset =
    let (t', is_cancelled) =
      timerfd_ctx_check_for_cancel (record t { nr_expirations = 0 }) offset in
    (t', if is_cancelled && old_is_cancel_on_set then fail ecanceled else ok old)

unfoldable pub timerfd_ctx_settime :
    TimerFd → Request → Replies → TimerFd × Outcome (Option Itimerspec)
unfolding read_old disarm_setting arm_setting finish_setting itimerspec_is_valid
timerfd_ctx_settime t r replies =
    if not (itimerspec_is_valid r.new)
    then (t, fail einval)
    else and_then (read_old t r.wants_old replies.clock_old) (λ t' (old, read_at).
      and_then
        (if time_eq r.new.it_value zero_time
          then disarm_setting t'
          else arm_setting t' r read_at replies)
        (λ t'' u. finish_setting t'' t.is_cancel_on_set old replies.offset))
