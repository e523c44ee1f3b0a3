-- ===== src/Epoll/Timer.antt =====
-- timerfd_ctx.c: the timer behind a timer descriptor. What its kqueue holds is the system's: the model
-- keeps the calls of kevent, and what the kqueue reports is an argument.
pub mod Arming
pub mod Calls
pub mod Clocks
pub mod Expirations
pub mod Intervals
pub mod Kevents
pub mod ReadCounts
pub mod Positive
pub mod Reading
pub mod Remaining
pub mod Settings
mod Tests
use wwn_iland.Common.{
  ℕ, suc, ◌+◌, ◌-◌, ◌*◌, ◌/◌, ◌%◌, ◌^◌, Bool, true, false, not, ◌&&◌, ◌||◌, Option, none, some,
  List, [], ◌∷◌, if◌then◌else◌, ltb, leb, ◌==◌,
}
use wwn_iland.Epoll.Timespec.{
  ℤ, pos, negsuc, Timespec, Itimerspec, TimeResult, time, overflow, int64_max, billion, magnitude,
  timespecadd_safe, timespecsub_safe,
}

-- `TimerType`
pub data TimerType : Type 0 where
  unspecified relative absolute : TimerType

-- The changes that the timer makes to its kqueue: the timer event has the ident 0, the event of a
-- cancellation the ident 1.
pub data KeventCall : Type 0 where
  delete_timer : KeventCall
  arm_timer : (micros : ℕ) → KeventCall
  delete_cancel : KeventCall
  arm_cancel : KeventCall

-- `TimerFDCtx`; `is_realtime` is `clockid == CLOCK_REALTIME`, the other clock being CLOCK_MONOTONIC.
-- `calls` is what went to the kqueue, the latest first.
pub record TimerFd : Type 0 where
  pub is_abstime : Bool
  pub is_realtime : Bool
  pub timer_type : TimerType
  pub is_cancel_on_set : Bool
  pub force_cancel : Bool
  pub monotonic_offset : Timespec
  pub it_value : Timespec
  pub it_interval : Timespec
  pub nr_expirations : ℕ
  pub calls : List KeventCall

abbrev pub zero_time : Timespec
zero_time = record { tv_sec = pos 0; tv_nsec = pos 0 }

abbrev pub int_eq : ℤ → ℤ → Bool
int_eq (pos a) (pos b) = a == b
int_eq (negsuc a) (negsuc b) = a == b
int_eq (pos a) (negsuc b) = false
int_eq (negsuc a) (pos b) = false

abbrev pub int_lt : ℤ → ℤ → Bool
int_lt (pos a) (pos b) = ltb a b
int_lt (negsuc a) (negsuc b) = ltb b a
int_lt (pos a) (negsuc b) = false
int_lt (negsuc a) (pos b) = true

-- `tv_sec == 0 && tv_nsec == 0`, and the comparison of both parts with those of another time.
abbrev pub time_eq : Timespec → Timespec → Bool
time_eq a b = int_eq a.tv_sec b.tv_sec && int_eq a.tv_nsec b.tv_nsec

-- `timespeccmp(a, b, <)`
abbrev pub time_lt : Timespec → Timespec → Bool
time_lt a b =
    if int_eq a.tv_sec b.tv_sec then int_lt a.tv_nsec b.tv_nsec else int_lt a.tv_sec b.tv_sec

unfoldable pub timerfd_ctx_init : (is_realtime : Bool) → TimerFd
timerfd_ctx_init is_realtime = record {
  is_abstime = false;
  is_realtime = is_realtime;
  timer_type = unspecified;
  is_cancel_on_set = false;
  force_cancel = false;
  monotonic_offset = zero_time;
  it_value = zero_time;
  it_interval = zero_time;
  nr_expirations = 0;
  calls = [];
}

unfoldable pub timerfd_ctx_is_disarmed : TimerFd → Bool
timerfd_ctx_is_disarmed t = time_eq t.it_value zero_time

unfoldable pub timerfd_ctx_is_interval_timer : TimerFd → Bool
timerfd_ctx_is_interval_timer t = not (time_eq t.it_interval zero_time)

unfoldable pub timerfd_ctx_disarm : TimerFd → TimerFd
timerfd_ctx_disarm t = record t { it_value = zero_time; timer_type = unspecified }

abbrev pub is_absolute : TimerType → Bool
is_absolute unspecified = false
is_absolute relative = false
is_absolute absolute = true

unfoldable pub timerfd_ctx_can_jump : TimerFd → Bool
timerfd_ctx_can_jump t = t.is_realtime && is_absolute t.timer_type

-- The nanoseconds of a time that is not negative, `none` for EOVERFLOW.
unfoldable pub ts_to_nanos : Timespec → Option ℕ
ts_to_nanos ts =
    if ltb int64_max (magnitude ts.tv_sec * billion + magnitude ts.tv_nsec)
    then none
    else some (magnitude ts.tv_sec * billion + magnitude ts.tv_nsec)

unfoldable pub nanos_to_ts : (nanos : ℕ) → Timespec
nanos_to_ts nanos = record { tv_sec = pos (nanos / billion); tv_nsec = pos (nanos % billion) }

-- The assertion at the end of `timerfd_ctx_update_to_current_time`; `none` where it fails.
unfoldable pub checked : TimerFd → (now : Timespec) → Option TimerFd
checked t now = if time_lt now t.it_value then some t else none

-- `++nr_expirations` or more, on `uint64_t`.
abbrev pub add_expirations : TimerFd → ℕ → TimerFd
add_expirations t n = record t { nr_expirations = (t.nr_expirations + n) % 2 ^ 64 }

-- A new expiration time, once it is known to fit.
unfoldable pub advance_to :
    TimerFd → (now : Timespec) → (expirations : ℕ) → TimeResult → Option TimerFd
unfolding checked
advance_to t now expirations (time next_ts) =
    checked (record (add_expirations t expirations) { it_value = next_ts }) now
advance_to t now expirations overflow = some (timerfd_ctx_disarm t)
advance_to t now expirations TimeResult.aborted = none

-- The expirations of an interval timer that is due, `diff` nanoseconds after its time.
unfoldable pub advance : TimerFd → (now : Timespec) → (diff interval : Option ℕ) → Option TimerFd
unfolding advance_to timerfd_ctx_disarm nanos_to_ts
advance t now none interval = some (timerfd_ctx_disarm t)
advance t now (some diff) none = some (timerfd_ctx_disarm t)
advance t now (some diff) (some interval) =
    if diff / interval == int64_max
    then some (timerfd_ctx_disarm t)
    else if ltb int64_max ((diff / interval + 1) * interval)
    then some (timerfd_ctx_disarm t)
    else advance_to t now (diff / interval + 1)
        (timespecadd_safe (nanos_to_ts ((diff / interval + 1) * interval)) t.it_value)

-- The interval timer, once the time since its expiration time is known.
unfoldable pub update_interval : TimerFd → (now : Timespec) → TimeResult → Option TimerFd
unfolding advance checked ts_to_nanos timerfd_ctx_disarm
update_interval t now (time diff_time) =
    if int_lt diff_time.tv_sec (pos 0)
    then checked t now
    else advance t now (ts_to_nanos diff_time) (ts_to_nanos t.it_interval)
update_interval t now overflow = some (timerfd_ctx_disarm t)
update_interval t now TimeResult.aborted = none

-- `none` where an assertion fails.
unfoldable pub timerfd_ctx_update_to_current_time : TimerFd → (now : Timespec) → Option TimerFd
unfolding update_interval checked timerfd_ctx_is_disarmed timerfd_ctx_is_interval_timer
    timerfd_ctx_disarm
timerfd_ctx_update_to_current_time t now =
    if timerfd_ctx_is_disarmed t
    then some t
    else if timerfd_ctx_is_interval_timer t
    then update_interval t now (timespecsub_safe now t.it_value)
    else if not (time_lt now t.it_value)
    then some (timerfd_ctx_disarm (add_expirations t 1))
    else checked t now
