-- ===== src/Epoll/Timer/Positive.antt =====
-- timerfd_ctx_read of timerfd_ctx.c never returns a count of 0 for a timer on CLOCK_MONOTONIC.
use wwn_iland.Common.{
  ℕ, ◌<◌, ◌≡◌, ◌≢◌, refl, sym, ap, ◌∙◌, Bool, true, false, ◌==◌, not, branch, ◌+◌, ◌*◌, ◌/◌, ltb,
  arith, Option, none, some, List, Outcome, ok, fail, blocks, fault, aborted, and_then, assert,
  ecanceled, branch_on, ◌&&◌,
}
use wwn_iland.Epoll.Timespec.{
  Timespec, pos, int64_max, TimeResult, time, overflow, timespecsub_safe,
}
use wwn_iland.Epoll.Timer.{
  is_absolute, add_expirations, timerfd_ctx_is_disarmed, timerfd_ctx_is_interval_timer, int_lt,
  TimerFd, timerfd_ctx_can_jump, timerfd_ctx_update_to_current_time, update_interval, advance,
  advance_to, checked, timerfd_ctx_disarm, ts_to_nanos, time_lt,
}
use wwn_iland.Epoll.Timer.Calls.{is_unspecified, updated}
use wwn_iland.Epoll.Timer.Kevents.{
  Clock, Reply, timerfd_ctx_get_clocktime, timerfd_ctx_rearm_kevent, timerfd_ctx_check_for_cancel,
}
use wwn_iland.Epoll.Timer.Reading.{
  event_ident, clock_error, rearm_and_return, read_early, read_count, read_at, read_events,
  is_timer_event, timerfd_ctx_read,
}

-- The clock of a timer stays.
module _ (t : TimerFd) (now : Timespec) (t' : TimerFd) where
  checked-some :
      {u : TimerFd}
      → u.is_realtime ≡ t.is_realtime
      → some u ≡ some t'
      → t'.is_realtime ≡ t.is_realtime
  checked-some h e = ground (arith, h, e)

  disarm-clock :
      (u : TimerFd)
      → u.is_realtime ≡ t.is_realtime
      → some (timerfd_ctx_disarm u) ≡ some t'
      → t'.is_realtime ≡ t.is_realtime
  unfolding timerfd_ctx_disarm
  disarm-clock u h e = ground (arith, h, e)

  checked-clock :
      (u : TimerFd)
      → u.is_realtime ≡ t.is_realtime
      → checked u now ≡ some t'
      → t'.is_realtime ≡ t.is_realtime
  unfolding checked
  checked-clock u h e = ground (arith, h, e)

  advance_to-clock :
      (n : ℕ) (r : TimeResult) → advance_to t now n r ≡ some t' → t'.is_realtime ≡ t.is_realtime
  unfolding advance_to timerfd_ctx_disarm
  advance_to-clock n (time v) e = checked-clock _ refl e
  advance_to-clock n overflow e = ground (arith, e)
  advance_to-clock n TimeResult.aborted e = ground (arith, e)

  advance-clock : (d i : Option ℕ) → advance t now d i ≡ some t' → t'.is_realtime ≡ t.is_realtime
  unfolding advance timerfd_ctx_disarm
  advance-clock none i e = ground (arith, e)
  advance-clock (some d) none e = ground (arith, e)
  advance-clock (some d) (some i) e =
      branch (d / i == int64_max) (disarm-clock t refl)
        (branch (ltb int64_max ((d / i + 1) * i)) (disarm-clock t refl) (advance_to-clock _ _)) e

  update_interval-clock :
      (r : TimeResult) → update_interval t now r ≡ some t' → t'.is_realtime ≡ t.is_realtime
  unfolding update_interval timerfd_ctx_disarm
  update_interval-clock (time v) e =
      branch (int_lt v.tv_sec (pos 0)) (checked-clock t refl)
        (advance-clock (ts_to_nanos v) (ts_to_nanos t.it_interval)) e
  update_interval-clock overflow e = ground (arith, e)
  update_interval-clock TimeResult.aborted e = ground (arith, e)

  update-clock : timerfd_ctx_update_to_current_time t now ≡ some t' → t'.is_realtime ≡ t.is_realtime
  unfolding timerfd_ctx_update_to_current_time timerfd_ctx_disarm
  update-clock e =
      branch (timerfd_ctx_is_disarmed t) (checked-some refl)
        (branch (timerfd_ctx_is_interval_timer t)
          (update_interval-clock (timespecsub_safe now t.it_value))
          (branch (not (time_lt now t.it_value)) (disarm-clock (add_expirations t 1) refl)
            (checked-clock t refl)))
        e

-- A call that returns a value has returned one from its first step.
then-value :
    {A S P : Type 0} (s s' : S) (o : Outcome A) (rest : S → A → S × Outcome ℕ) (n : ℕ)
    → ((a : A) → rest s a ≡ (s', ok n) → P)
    → and_then (s, o) rest ≡ (s', ok n)
    → P
then-value s s' (ok a) rest n f e = f a e
then-value s s' (fail x) rest n f e = absurd (ground (arith, e))
then-value s s' blocks rest n f e = absurd (ground (arith, e))
then-value s s' fault rest n f e = absurd (ground (arith, e))
then-value s s' aborted rest n f e = absurd (ground (arith, e))

updated-value :
    {P : Type 0} (t s' : TimerFd) (r : Option TimerFd) (rest : TimerFd → TimerFd × Outcome ℕ)
    (n : ℕ)
    → ((u : TimerFd) → r ≡ some u → rest u ≡ (s', ok n) → P)
    → updated r t rest ≡ (s', ok n)
    → P
unfolding updated
updated-value t s' none rest n f e = absurd (ground (arith, e))
updated-value t s' (some u) rest n f e = f u refl e

no_jump : (a b c : Bool) → b ≡ false → (a && (b && c)) ≡ false
no_jump a b c h = ground (arith, h)

assert-fails :
    (s t' : TimerFd) (n : ℕ) (test : Bool) (rest : TimerFd × Outcome ℕ)
    → test ≡ false
    → assert test s rest ≢ (t', ok n)
assert-fails s t' n true rest h e = ground (arith, h)
assert-fails s t' n false rest h e = ground (arith, e)

positive-ok : (m n : ℕ) → (m == 0) ≡ false → ok m ≡ ok n → 0 < n
positive-ok m n h e = let same : m ≡ n = ground (arith, e) in ground (arith, h, same)

module _ (event : Option ℕ) (reply : Reply) (t' : TimerFd) (n : ℕ) where
  returned :
      (t : TimerFd) (now : Timespec) (r : Outcome ℕ)
      → rearm_and_return t now event reply r ≡ (t', ok n)
      → r ≡ ok n
  unfolding rearm_and_return
  returned t now r e =
      let (s, o) = timerfd_ctx_rearm_kevent t now (not (is_timer_event event)) reply in
      then-value s t' o (λ t u. (t, r)) n (λ a e. ap (λ p. p.1) e) e

  read_early-fails :
      (t : TimerFd) (now : Timespec) (event : Option ℕ)
      → t.is_realtime ≡ false
      → read_early t now event reply ≢ (t', ok n)
  unfolding read_early timerfd_ctx_can_jump
  read_early-fails t now none h e = ground (arith, e)
  read_early-fails t now (some i) h e =
      assert-fails t t' n ((i == 0) && (t.is_realtime && is_absolute t.timer_type)) _
        (no_jump (i == 0) t.is_realtime (is_absolute t.timer_type) h) e

  read_count-positive :
      (t : TimerFd) (now : Timespec)
      → t.is_realtime ≡ false
      → read_count t now event reply ≡ (t', ok n)
      → 0 < n
  unfolding read_count
  read_count-positive t now h =
      branch_on (t.nr_expirations == 0)
        (λ z e. absurd (read_early-fails (record t { nr_expirations = 0 }) now event h e))
        (λ nz e.
          positive-ok t.nr_expirations n nz
            (returned (record t { nr_expirations = 0 }) now (ok t.nr_expirations) e))

  read_at-positive :
      (t : TimerFd) (now : Timespec) (is_cancelled : Bool)
      → t.is_realtime ≡ false
      → read_at t is_cancelled event reply now ≡ (t', ok n)
      → 0 < n
  unfolding read_at
  read_at-positive t now true h e =
      let failed : fail ecanceled ≡ ok n = returned t now (fail ecanceled) e in
      absurd (ground (arith, failed))
  read_at-positive t now false h e =
      updated-value t t' (timerfd_ctx_update_to_current_time t now)
        (λ u. read_count u now event reply) n
        (λ u updates e. read_count-positive u now (update-clock t now u updates ∙ h) e) e

read_events-monotonic :
    (t : TimerFd) (clock : Clock) (offset : Option Timespec) (reply : Reply) (event : Option ℕ)
    → t.is_realtime ≡ false
    → read_events t clock offset reply event
      ≡ and_then
          (t, clock_error false (timerfd_ctx_get_clocktime clock t.is_realtime t.timer_type))
          (λ t' now. read_at t' false event reply now)
unfolding read_events timerfd_ctx_check_for_cancel
read_events-monotonic t clock offset reply event h = rw (h) refl

-- A read of a timer on CLOCK_MONOTONIC that succeeds returns at least one expiration, whatever the
-- kqueue and the clock say.
pub read_positive :
    (t : TimerFd) (clock : Clock) (offset : Option Timespec) (pending : Outcome (List ℕ))
    (reply : Reply) (t' : TimerFd) (n : ℕ)
    → t.is_realtime ≡ false
    → timerfd_ctx_read t clock offset pending reply ≡ (t', ok n)
    → 0 < n
unfolding timerfd_ctx_read
read_positive t clock offset pending reply t' n h =
    branch_on (is_unspecified t.timer_type) (λ z e. absurd (ground (arith, e)))
      (λ z e.
        then-value t t' pending _ n
          (λ idents e.
            let event = event_ident none idents in
            let e' : and_then
                  (
                    t,
                    clock_error false (timerfd_ctx_get_clocktime clock t.is_realtime t.timer_type),
                  )
                  (λ t' now. read_at t' false event reply now)
                ≡ (t', ok n) =
              sym (read_events-monotonic t clock offset reply event h) ∙ e in
            then-value t t'
              (clock_error false (timerfd_ctx_get_clocktime clock t.is_realtime t.timer_type)) _ n
              (λ now e. read_at-positive event reply t' n t now false h e) e')
          e)
