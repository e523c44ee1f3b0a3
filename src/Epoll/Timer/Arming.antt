-- ===== src/Epoll/Timer/Arming.antt =====
-- When the timer event that timerfd_ctx_register_event of timerfd_ctx.c asks for comes.
use wwn_iland.Common.{
  ℕ, ◌+◌, ◌*◌, ◌<◌, ◌≤◌, ◌≡◌, ◌⊎◌, inl, inr, refl, ◌∙◌, true, false, ◌∷◌, arith, leb, Bool-cases,
}
use wwn_iland.Epoll.Timespec.{pos, Timespec, billion, magnitude}
use wwn_iland.Epoll.Timespec.Exactness.{nanoseconds}
use wwn_iland.Epoll.Timer.{TimerFd, zero_time, time_eq, int_lt, delete_timer, arm_timer}
use wwn_iland.Epoll.Timer.Clocks.{time_eq-zero, difference-cases}
use wwn_iland.Epoll.Timer.Expirations.{IsTime, not_less, less_than}
use wwn_iland.Epoll.Timer.Kevents.{
  Reply, longest_timeout, micros_of, deletion_reply, arming_reply, register_timeout,
  timerfd_ctx_register_event,
}

micros_of-bounds :
    (s n : ℕ)
    → (s * billion + n ≤ micros_of s n * 1000) × (micros_of s n * 1000 < s * billion + n + 1000)
unfolding micros_of
micros_of-bounds s n = ground arith

less_than_ten_years :
    (s n a b : ℕ)
    → leb longest_timeout s ≡ false
    → n < billion
    → s * billion + n + b ≡ a
    → a < b + longest_timeout * billion
less_than_ten_years s n a b near low sum =
    let below : s < longest_timeout = ground (arith, near) in omega (arith, below, low, sum)

module _ (t : TimerFd) (new now : Timespec) (reply : Reply) where
  -- The timer event is asked for `micros` microseconds from now.
  pub record Armed (micros : ℕ) : Type 0 where
    pub asked :
        timerfd_ctx_register_event t new now reply
        ≡ (record t { calls = arm_timer micros ∷ delete_timer ∷ t.calls }, arming_reply reply)
    pub not_early : nanoseconds new ≤ nanoseconds now + micros * 1000
    pub not_late : (micros ≡ 0) ⊎ (nanoseconds now + micros * 1000 < nanoseconds new + 1000)
    pub near : nanoseconds new < nanoseconds now + longest_timeout * billion

  -- The timer event is not asked for, as it is ten years away.
  pub record TooFar : Type 0 where
    pub not_asked :
        timerfd_ctx_register_event t new now reply
        ≡ (record t { calls = delete_timer ∷ t.calls }, deletion_reply reply)
    pub years_away : nanoseconds now + longest_timeout * billion ≤ nanoseconds new

  -- The timer event of a registration never comes before the expiration time, and at once where that
  -- has passed, else less than a microsecond after it; it is left out where that time is 3650 days
  -- away or more. The old timer event is always deleted first.
  pub register_event_timely :
      IsTime new → IsTime now → 0 < nanoseconds new → TooFar ⊎ ((micros : ℕ) × Armed micros)
  unfolding timerfd_ctx_register_event register_timeout
  register_event_timely vn vc positive =
      let nonzero : time_eq new zero_time ≡ false =
        time_eq-zero new vn.valid ∙ ground (arith, positive) in
      let (diff, e, low, sign, exact) =
        difference-cases new now vn.valid vc.valid vn.fits vc.fits in
      elim exact [
        | inl passed ↦
            let negative : int_lt diff.tv_sec (pos 0) ≡ true =
              sign ∙ less_than (nanoseconds new) (nanoseconds now) passed in
            inr (
              0,
              record {
                asked = rw (nonzero, e, negative, micros_of) refl;
                not_early = omega (arith, passed);
                not_late = inl refl;
                near = omega (arith, passed);
              },
            )
        | inr ahead ↦
            let nonnegative : int_lt diff.tv_sec (pos 0) ≡ false =
              sign ∙ not_less (nanoseconds new) (nanoseconds now) (nanoseconds diff) ahead in
            elim (Bool-cases (leb longest_timeout (magnitude diff.tv_sec))) [
              | inl far ↦ inl (record {
                not_asked = rw (nonzero, e, nonnegative, far) refl;
                years_away = ground (arith, far, ahead);
              })
              | inr near ↦
                  let (above, below) =
                    micros_of-bounds (magnitude diff.tv_sec) (magnitude diff.tv_nsec) in
                  inr (
                    micros_of (magnitude diff.tv_sec) (magnitude diff.tv_nsec),
                    record {
                      asked = rw (nonzero, e, nonnegative, near) refl;
                      not_early = omega (arith, above, ahead);
                      not_late = inr (omega (arith, below, ahead));
                      near =
                          less_than_ten_years (magnitude diff.tv_sec) (magnitude diff.tv_nsec)
                            (nanoseconds new) (nanoseconds now) near low ahead;
                    },
                  )
            ]
      ]
