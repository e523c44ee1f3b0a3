-- ===== src/Epoll/Timer/Expirations.antt =====
-- What timerfd_ctx_update_to_current_time of timerfd_ctx.c counts.
use wwn_iland.Common.{
  ℕ, ◌+◌, ◌*◌, ◌/◌, ◌%◌, ◌^◌, ◌<◌, ◌≤◌, ◌≡◌, ◌⊎◌, inl, inr, refl, ◌∙◌, true, false, arith, ltb,
  ◌==◌, some,
}
use wwn_iland.Epoll.Timespec.{
  pos, Timespec, int64_max, magnitude, timespec_is_valid, timespecadd_safe,
}
use wwn_iland.Epoll.Timespec.Exactness.{nanoseconds, timespecadd_safe_exact}
use wwn_iland.Epoll.Timer.{
  TimerFd, timerfd_ctx_update_to_current_time, update_interval, advance, advance_to, checked,
  ts_to_nanos, nanos_to_ts, timerfd_ctx_is_disarmed, timerfd_ctx_is_interval_timer, time_lt,
  zero_time, time_eq, int_lt,
}
use wwn_iland.Epoll.Timer.Clocks.{
  time_lt-nanoseconds, time_eq-zero, nanos_to_ts_lem, difference-cases, quotient_bounds,
}

-- A time as the system's clocks give it: valid, with 64-bit seconds.
pub record IsTime (ts : Timespec) : Type 0 where
  pub valid : timespec_is_valid ts ≡ true
  pub fits : magnitude ts.tv_sec ≤ int64_max

pub record IsTimer (t : TimerFd) : Type 0 where
  pub value : IsTime t.it_value
  pub interval : IsTime t.it_interval
  pub expirations : t.nr_expirations < 2 ^ 64

-- `k` more expirations, after which the next one is due at `v + k * i`.
pub record Advanced (t : TimerFd) (now k : ℕ) (t' : TimerFd) : Type 0 where
  pub counted : t'.nr_expirations ≡ (t.nr_expirations + k) % 2 ^ 64
  pub next : nanoseconds t'.it_value ≡ nanoseconds t.it_value + k * nanoseconds t.it_interval
  pub ahead : now < nanoseconds t'.it_value
  pub due : (k ≡ 0) ⊎ (nanoseconds t'.it_value ≤ now + nanoseconds t.it_interval)
  pub same_interval : t'.it_interval ≡ t.it_interval
  pub same_type : t'.timer_type ≡ t.timer_type
  pub is_timer : IsTimer t'

pub not_less : (a b d : ℕ) → d + b ≡ a → ltb a b ≡ false
not_less a b d h = ground (arith, h)

pub less_than : (a b : ℕ) → a < b → ltb a b ≡ true
less_than a b h = ground (arith, h)

not_greater : (a b : ℕ) → b ≤ a → ltb a b ≡ false
not_greater a b h = ground (arith, h)

module _ (t : TimerFd) (now : Timespec) (v : IsTimer t) (n : IsTime now) where
  not_due :
      nanoseconds now < nanoseconds t.it_value
      → (checked t now ≡ some t) × Advanced t (nanoseconds now) 0 t
  unfolding checked
  not_due h = (
    rw (time_lt-nanoseconds now t.it_value n.valid v.value.valid) (ground (arith, h)),
    record {
      counted = omega (arith, v.expirations);
      next = omega arith;
      ahead = h;
      due = inl refl;
      same_interval = refl;
      same_type = refl;
      is_timer = v;
    },
  )

  moved :
      (diff k : ℕ)
      → diff + nanoseconds t.it_value ≡ nanoseconds now
      → nanoseconds now + nanoseconds t.it_interval ≤ int64_max
      → diff < k * nanoseconds t.it_interval
      → k * nanoseconds t.it_interval ≤ diff + nanoseconds t.it_interval
      → (t' : TimerFd) × (advance_to t now k
            (timespecadd_safe (nanos_to_ts (k * nanoseconds t.it_interval)) t.it_value)
          ≡ some t')
        × Advanced t (nanoseconds now) k t'
  unfolding advance_to checked
  moved diff k hd room above below =
      let (step_valid, step) = nanos_to_ts_lem (k * nanoseconds t.it_interval) in
      elim (timespecadd_safe_exact (nanos_to_ts (k * nanoseconds t.it_interval)) t.it_value
        step_valid v.value.valid) [
          | inl (over, e) ↦ absurd (omega (arith, over, step, hd, room, below))
          | inr (w, e, valid, sum) ↦
              let total : nanoseconds w ≡ nanoseconds t.it_value + k * nanoseconds t.it_interval =
                omega (arith, sum, step) in
              let ahead : nanoseconds now < nanoseconds w = omega (arith, total, hd, above) in
              let before : time_lt now w ≡ true =
                time_lt-nanoseconds now w n.valid valid ∙ ground (arith, ahead) in
              let t' = record t {
                nr_expirations = (t.nr_expirations + k) % 2 ^ 64;
                it_value = w;
              } in
              (
                t',
                rw (e, advance_to, before) refl,
                record {
                  counted = refl;
                  next = total;
                  ahead = ahead;
                  due = inr (omega (arith, total, hd, below));
                  same_interval = refl;
                  same_type = refl;
                  is_timer = record {
                    value = record { valid = valid; fits = omega (arith, total, hd, below, room) };
                    interval = v.interval;
                    expirations = omega arith;
                  };
                },
              )
        ]

  advance-exact :
      (diff : ℕ)
      → 0 < nanoseconds t.it_interval
      → diff + nanoseconds t.it_value ≡ nanoseconds now
      → nanoseconds now + nanoseconds t.it_interval ≤ int64_max
      → (t' : TimerFd) × (advance t now (some diff) (some (nanoseconds t.it_interval)) ≡ some t')
        × Advanced t (nanoseconds now) (diff / nanoseconds t.it_interval + 1) t'
  unfolding advance
  advance-exact diff hi hd room =
      let k = diff / nanoseconds t.it_interval + 1 in
      let (small, above, below) = quotient_bounds diff (nanoseconds t.it_interval) hi in
      let not_max : (diff / nanoseconds t.it_interval == int64_max) ≡ false =
        ground (arith, small, hd, room, hi) in
      let fits : ltb int64_max (k * nanoseconds t.it_interval) ≡ false =
        ground (arith, below, hd, room) in
      let (t', e, adv) = moved diff k hd room above below in (t', rw (not_max, fits) e, adv)

  -- The update of an armed interval timer adds the number of its expiration times that have passed,
  -- and moves its expiration time to the first that has not, as long as the times stay below 2 ^ 63
  -- nanoseconds; no assertion fails.
  pub update_exact :
      0 < nanoseconds t.it_value
      → 0 < nanoseconds t.it_interval
      → nanoseconds now + nanoseconds t.it_interval ≤ int64_max
      → (k : ℕ) × (t' : TimerFd) × (timerfd_ctx_update_to_current_time t now ≡ some t')
        × Advanced t (nanoseconds now) k t'
  unfolding timerfd_ctx_update_to_current_time update_interval ts_to_nanos timerfd_ctx_is_disarmed
      timerfd_ctx_is_interval_timer
  update_exact hv hi room =
      let armed : time_eq t.it_value zero_time ≡ false =
        time_eq-zero t.it_value v.value.valid ∙ ground (arith, hv) in
      let periodic : time_eq t.it_interval zero_time ≡ false =
        time_eq-zero t.it_interval v.interval.valid ∙ ground (arith, hi) in
      let (diff, e, low, sign, exact) =
        difference-cases now t.it_value n.valid v.value.valid n.fits v.value.fits in
      elim exact [
        | inl less ↦
            let (stays, adv) = not_due less in
            let negative : int_lt diff.tv_sec (pos 0) ≡ true =
              sign ∙ less_than (nanoseconds now) (nanoseconds t.it_value) less in
            (0, t, rw (armed, periodic, e, update_interval, negative) stays, adv)
        | inr is_due ↦
            let (t', a, adv) = advance-exact (nanoseconds diff) hi is_due room in
            let positive : int_lt diff.tv_sec (pos 0) ≡ false =
              sign
              ∙ not_less (nanoseconds now) (nanoseconds t.it_value) (nanoseconds diff) is_due in
            let fits : ltb int64_max (nanoseconds diff) ≡ false =
              not_greater int64_max (nanoseconds diff) (omega (arith, is_due, room)) in
            let fits' : ltb int64_max (nanoseconds t.it_interval) ≡ false =
              not_greater int64_max (nanoseconds t.it_interval) (omega (arith, room)) in
            (
              nanoseconds diff / nanoseconds t.it_interval + 1,
              t',
              rw (armed, periodic, e, update_interval, positive, fits, fits') a,
              adv,
            )
      ]
