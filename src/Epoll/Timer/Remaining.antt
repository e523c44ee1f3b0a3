-- ===== src/Epoll/Timer/Remaining.antt =====
-- timerfd_ctx_gettime of timerfd_ctx.c before the expiration time.
use wwn_iland.Common.{
  ℕ, zero, suc, ◌-◌, ◌+◌, ◌<◌, ◌≤◌, ◌≡◌, inl, inr, refl, ap, ◌∙◌, true, false, arith, ltb, leb,
  ◌==◌, Bool-cases, some, ok, and_then,
}
use wwn_iland.Epoll.Timespec.{pos, Timespec, magnitude, timespec_is_valid, difference, decrement}
use wwn_iland.Epoll.Timespec.Exactness.{nanoseconds}
use wwn_iland.Epoll.Timer.{
  TimerFd, zero_time, time_eq, time_lt, int_lt, checked, update_interval, timerfd_ctx_is_disarmed,
  timerfd_ctx_is_interval_timer, timerfd_ctx_update_to_current_time,
}
use wwn_iland.Epoll.Timer.Calls.{
  is_unspecified, setting, timespecsub, remaining, updated, timerfd_ctx_gettime_impl,
  timerfd_ctx_gettime,
}
use wwn_iland.Epoll.Timer.Clocks.{valid-parts, time_lt-nanoseconds, time_eq-zero, difference-cases}
use wwn_iland.Epoll.Timer.Expirations.{IsTime, less_than}
use wwn_iland.Epoll.Timer.Kevents.{Clock, timerfd_ctx_get_clocktime}

lt_of : (a b : ℕ) → ltb a b ≡ true → a < b
lt_of a b h = ground (arith, h)

ge_of : (a b : ℕ) → ltb a b ≡ false → b ≤ a
ge_of a b h = ground (arith, h)

pub nonzero_of : (a b : ℕ) → a < b → (b == 0) ≡ false
nonzero_of a b h = ground (arith, h)

-- An update before the expiration time changes nothing.
update_before :
    (t : TimerFd) (now : Timespec)
    → IsTime t.it_value
    → timespec_is_valid t.it_interval ≡ true
    → IsTime now
    → nanoseconds now < nanoseconds t.it_value
    → timerfd_ctx_update_to_current_time t now ≡ some t
unfolding timerfd_ctx_update_to_current_time timerfd_ctx_is_disarmed timerfd_ctx_is_interval_timer
    update_interval checked
update_before t now value interval vn before =
    let nonzero : time_eq t.it_value zero_time ≡ false =
      time_eq-zero t.it_value value.valid ∙ ground (arith, before) in
    let ahead : time_lt now t.it_value ≡ true =
      time_lt-nanoseconds now t.it_value vn.valid value.valid
      ∙ less_than (nanoseconds now) (nanoseconds t.it_value) before in
    let (diff, e, low, sign, exact) =
      difference-cases now t.it_value vn.valid value.valid vn.fits value.fits in
    let negative : int_lt diff.tv_sec (pos 0) ≡ true =
      sign ∙ less_than (nanoseconds now) (nanoseconds t.it_value) before in
    elim (Bool-cases (time_eq t.it_interval zero_time)) [
      | inl single ↦ rw (nonzero, single, ahead) refl
      | inr periodic ↦ rw (nonzero, periodic, e, update_interval, negative, ahead) refl
    ]

decrement-pos : (k : ℕ) → 0 < k → magnitude (decrement (pos k)) + 1 ≡ k
unfolding decrement
decrement-pos zero h = absurd (omega (arith, h))
decrement-pos (suc k) h = omega arith

later-difference : (s u : ℕ) → u ≤ s → difference s u ≡ pos (s - u)
unfolding difference
later-difference s u h = let le : leb u s ≡ true = ground (arith, h) in rw (le) refl

-- The difference to an earlier time is exact.
pub timespecsub-nanoseconds :
    (a b : Timespec)
    → timespec_is_valid a ≡ true
    → timespec_is_valid b ≡ true
    → nanoseconds b ≤ nanoseconds a
    → nanoseconds (timespecsub a b) + nanoseconds b ≡ nanoseconds a
unfolding timespecsub
timespecsub-nanoseconds a b va vb later =
    let (sa, na, la) = valid-parts a va in
    let (sb, nb, lb) = valid-parts b vb in
    let le : magnitude b.tv_sec ≤ magnitude a.tv_sec = omega (arith, later, la, lb) in
    let minus = later-difference (magnitude a.tv_sec) (magnitude b.tv_sec) le in
    elim (Bool-cases (ltb (magnitude a.tv_nsec) (magnitude b.tv_nsec))) [
      | inl borrow ↦
          let b' : magnitude a.tv_nsec < magnitude b.tv_nsec = lt_of _ _ borrow in
          let one_less =
            decrement-pos (magnitude a.tv_sec - magnitude b.tv_sec)
              (omega (arith, b', later, la, lb)) in
          rw (borrow, ap decrement minus) (omega (arith, one_less, b', le, lb, la))
      | inr enough ↦
          let b' : magnitude b.tv_nsec ≤ magnitude a.tv_nsec = ge_of _ _ enough in
          rw (enough, minus) (omega (arith, b', le))
    ]

remaining-before :
    (t : TimerFd) (now : Timespec)
    → time_eq t.it_value zero_time ≡ false
    → time_lt now t.it_value ≡ true
    → remaining t now ≡ (t, ok (record (setting t) { it_value = timespecsub t.it_value now }))
unfolding remaining timerfd_ctx_is_disarmed
remaining-before t now nonzero ahead = rw (nonzero, ahead) refl

gettime_impl-updated :
    (t : TimerFd) (now : Timespec)
    → timerfd_ctx_update_to_current_time t now ≡ some t
    → timerfd_ctx_gettime_impl t now ≡ remaining t now
unfolding timerfd_ctx_gettime_impl updated
gettime_impl-updated t now e = ap (λ r. updated r t (λ t'. remaining t' now)) e

gettime-read :
    (t : TimerFd) (clock : Clock) (now : Timespec)
    → is_unspecified t.timer_type ≡ false
    → timerfd_ctx_get_clocktime clock t.is_realtime t.timer_type ≡ ok now
    → timerfd_ctx_gettime t clock ≡ timerfd_ctx_gettime_impl t now
unfolding timerfd_ctx_gettime
gettime-read t clock now set at = rw (set) (ap (λ r. and_then (t, r) timerfd_ctx_gettime_impl) at)

-- What gettime says of a timer before its expiration time.
pub gettime-remaining :
    (t : TimerFd) (clock : Clock) (now : Timespec)
    → IsTime t.it_value
    → timespec_is_valid t.it_interval ≡ true
    → IsTime now
    → is_unspecified t.timer_type ≡ false
    → timerfd_ctx_get_clocktime clock t.is_realtime t.timer_type ≡ ok now
    → nanoseconds now < nanoseconds t.it_value
    → timerfd_ctx_gettime t clock
      ≡ (t, ok (record (setting t) { it_value = timespecsub t.it_value now }))
gettime-remaining t clock now value interval vn set at before =
    let nonzero : time_eq t.it_value zero_time ≡ false =
      time_eq-zero t.it_value value.valid
      ∙ nonzero_of (nanoseconds now) (nanoseconds t.it_value) before in
    let ahead : time_lt now t.it_value ≡ true =
      time_lt-nanoseconds now t.it_value vn.valid value.valid
      ∙ less_than (nanoseconds now) (nanoseconds t.it_value) before in
    gettime-read t clock now set at
    ∙ gettime_impl-updated t now (update_before t now value interval vn before)
    ∙ remaining-before t now nonzero ahead
