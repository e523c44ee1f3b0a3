-- ===== src/Epoll/Timer/Tests.antt =====
-- Examples for the theorems on the timers of timerfd_ctx.c.
use wwn_iland.Common.{ℕ, ◌+◌, ◌<◌, ◌≤◌, ◌≡◌, ◌⊎◌, refl, false, none, some, [], ◌∷◌, ok, arith}
use wwn_iland.Epoll.Timespec.{pos, Timespec, Itimerspec, int64_max, billion, timespec_is_valid}
use wwn_iland.Epoll.Timespec.Exactness.{nanoseconds}
use wwn_iland.Epoll.Timer.{relative, TimerFd, zero_time, timerfd_ctx_update_to_current_time}
use wwn_iland.Epoll.Timer.Arming.{Armed, TooFar, register_event_timely}
use wwn_iland.Epoll.Timer.Calls.{Replies, timerfd_ctx_gettime, timerfd_ctx_settime}
use wwn_iland.Epoll.Timer.Expirations.{IsTime, IsTimer}
use wwn_iland.Epoll.Timer.Intervals.{updates_compose}
use wwn_iland.Epoll.Timer.Kevents.{Clock, accepted}
use wwn_iland.Epoll.Timer.Reading.{timerfd_ctx_read}
use wwn_iland.Epoll.Timer.Settings.{relative_request, settime_gettime}

abbrev at_time : (seconds nanos : ℕ) → Timespec
at_time seconds nanos = record { tv_sec = pos seconds; tv_nsec = pos nanos }

-- Due at 5 s, then every 1.5 s.
abbrev metronome : TimerFd
metronome = record {
  is_abstime = false;
  is_realtime = false;
  timer_type = relative;
  is_cancel_on_set = false;
  force_cancel = false;
  monotonic_offset = zero_time;
  it_value = at_time 5 0;
  it_interval = at_time 1 500000000;
  nr_expirations = 2;
  calls = [];
}

abbrev clock_at : Timespec → Clock
clock_at now is_realtime = ok now

is_time : (s n : ℕ) → s ≤ int64_max → n < billion → IsTime (at_time s n)
unfolding timespec_is_valid
is_time s n hs hn = record { valid = ground (arith, hn); fits = hs }

is_timer : IsTimer metronome
is_timer = record {
  value = is_time 5 0 (omega arith) (omega arith);
  interval = is_time 1 500000000 (omega arith) (omega arith);
  expirations = omega arith;
}

register_event_timely_example :
    TooFar metronome (at_time 5 0) (at_time 3 999999999) accepted
    ⊎ ((micros : ℕ) × Armed metronome (at_time 5 0) (at_time 3 999999999) accepted micros)
register_event_timely_example =
    register_event_timely metronome (at_time 5 0) (at_time 3 999999999) accepted
      (is_time 5 0 (omega arith) (omega arith)) (is_time 3 999999999 (omega arith) (omega arith))
      (omega arith)

updates_compose_example :
    (t1 : TimerFd) × (t2 : TimerFd) × (t3 : TimerFd) × (timerfd_ctx_update_to_current_time metronome
        (at_time 7 250000000)
      ≡ some t1)
    × (timerfd_ctx_update_to_current_time t1 (at_time 9 0) ≡ some t2)
    × (timerfd_ctx_update_to_current_time metronome (at_time 9 0) ≡ some t3)
    × (t2.nr_expirations ≡ t3.nr_expirations)
    × (nanoseconds t2.it_value ≡ nanoseconds t3.it_value)
updates_compose_example =
    updates_compose metronome (at_time 7 250000000) (at_time 9 0) is_timer
      (is_time 7 250000000 (omega arith) (omega arith)) (is_time 9 0 (omega arith) (omega arith))
      (omega arith) (omega arith) (omega arith) (omega arith)

-- What a read leaves.
abbrev after_read : TimerFd
after_read = (timerfd_ctx_read metronome (clock_at (at_time 7 0)) none (ok (0 ∷ [])) accepted).0

abbrev replies : Replies
replies = record {
  clock_old = clock_at zero_time;
  clock_new = clock_at (at_time 10 800000000);
  offset = none;
  kevent = accepted;
}

abbrev half_past : Itimerspec
half_past = record { it_value = at_time 1 500000000; it_interval = at_time 2 0 }

settime_gettime_example :
    (t' : TimerFd) × (left : Timespec) × (timerfd_ctx_settime metronome
        (relative_request half_past)
        replies
      ≡ (t', ok none))
    × (timerfd_ctx_gettime t' (clock_at (at_time 11 900000000))
        ≡ (t', ok (record { it_value = left; it_interval = half_past.it_interval })))
    × (nanoseconds left + nanoseconds (at_time 11 900000000)
        ≡ nanoseconds (at_time 10 800000000) + nanoseconds half_past.it_value)
unfolding timespec_is_valid
settime_gettime_example =
    settime_gettime metronome half_past replies (at_time 10 800000000)
      (clock_at (at_time 11 900000000)) (at_time 11 900000000)
      (is_time 1 500000000 (omega arith) (omega arith)) refl (omega arith)
      (is_time 10 800000000 (omega arith) (omega arith))
      (is_time 11 900000000 (omega arith) (omega arith)) (omega arith) refl refl refl (omega arith)
