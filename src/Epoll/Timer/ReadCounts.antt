-- ===== src/Epoll/Timer/ReadCounts.antt =====
-- What timerfd_ctx_read of timerfd_ctx.c returns for a timer on CLOCK_MONOTONIC.
use wwn_iland.Common.{
  ℕ, ◌+◌, ◌*◌, ◌<◌, ◌≤◌, ◌≡◌, ◌⊎◌, refl, false, arith, Option, List, ◌∷◌, ok, fail, eagain,
}
use wwn_iland.Epoll.Timespec.{Timespec, billion}
use wwn_iland.Epoll.Timespec.Exactness.{nanoseconds}
use wwn_iland.Epoll.Timer.{
  TimerType, unspecified, relative, absolute, KeventCall, delete_timer, arm_timer, TimerFd,
}
use wwn_iland.Epoll.Timer.Calls.{is_unspecified}
use wwn_iland.Epoll.Timer.Kevents.{Clock, accepted, longest_timeout, timerfd_ctx_get_clocktime}
use wwn_iland.Epoll.Timer.Reading.{timerfd_ctx_read}

pub monotonic-clocktime :
    (clock : Clock) (type : TimerType)
    → is_unspecified type ≡ false
    → timerfd_ctx_get_clocktime clock false type ≡ clock false
unfolding timerfd_ctx_get_clocktime
monotonic-clocktime clock unspecified h = absurd (ground (arith, h))
monotonic-clocktime clock relative h = refl
monotonic-clocktime clock absolute h = refl

-- The timer event is asked for again: the old one is deleted, and the new one comes at the time
-- `value` or less than a microsecond after it, unless that time is 3650 days away or more.
pub data Rearmed (value now : Timespec) (before : List KeventCall) : List KeventCall → Type 0 where
  too_far :
      nanoseconds now + longest_timeout * billion ≤ nanoseconds value
      → Rearmed value now before (delete_timer ∷ before)
  asked_for :
      (micros : ℕ)
      → nanoseconds value < nanoseconds now + longest_timeout * billion
      → nanoseconds value ≤ nanoseconds now + micros * 1000
      → (micros ≡ 0) ⊎ (nanoseconds now + micros * 1000 < nanoseconds value + 1000)
      → Rearmed value now before (arm_timer micros ∷ delete_timer ∷ before)

module _ (t : TimerFd) (clock : Clock) (offset : Option Timespec) (now : Timespec)
    (idents : List ℕ) where
  -- The count `n` of the updated timer, that leaves nothing to count.
  pub data Counted (t' : TimerFd) : Type 0 where
    nothing :
        t'.nr_expirations ≡ 0
        → timerfd_ctx_read t clock offset (ok idents) accepted
          ≡ (record t' { nr_expirations = 0 }, fail eagain)
        → Counted t'
    some_expirations :
        (calls : List KeventCall)
        → 0 < t'.nr_expirations
        → timerfd_ctx_read t clock offset (ok idents) accepted
          ≡ (record t' { nr_expirations = 0; calls = calls }, ok t'.nr_expirations)
        → Rearmed t'.it_value now t'.calls calls
        → Counted t'
