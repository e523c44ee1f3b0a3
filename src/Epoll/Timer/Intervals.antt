-- ===== src/Epoll/Timer/Intervals.antt =====
-- What successive updates of a timer of timerfd_ctx.c count together.
use wwn_iland.Common.{
  ℕ, zero, suc, ◌+◌, ◌*◌, ◌%◌, ◌^◌, ◌<◌, ◌≤◌, ◌≡◌, ◌⊎◌, inl, inr, refl, sym, ap, ◌∙◌, true, false,
  arith, ltb, ◌==◌, Bool-cases, some,
}
use wwn_iland.Epoll.Timespec.{Timespec, int64_max}
use wwn_iland.Epoll.Timespec.Exactness.{nanoseconds}
use wwn_iland.Epoll.Timer.{
  TimerFd, timerfd_ctx_update_to_current_time, timerfd_ctx_is_disarmed, checked,
  timerfd_ctx_is_interval_timer, timerfd_ctx_disarm, zero_time, time_eq,
}
use wwn_iland.Epoll.Timer.Clocks.{time_lt-nanoseconds, time_eq-zero}
use wwn_iland.Epoll.Timer.Expirations.{IsTime, IsTimer, Advanced, update_exact}

more_multiples : (a b i : ℕ) → b < a → b * i + i ≤ a * i
more_multiples (suc a) b i h = elim (Bool-cases (a == b)) [
  | inl same ↦ let e : a ≡ b = ground (arith, same) in rw (e) (omega arith)
  | inr other ↦ let rest = more_multiples a b i (ground (arith, other, h)) in omega (arith, rest)
]
more_multiples zero b i h = absurd (omega (arith, h))

-- Only one number of intervals leads to the first expiration time after `now`.
same_count :
    (v i now a b : ℕ)
    → now < v + a * i
    → now < v + b * i
    → (a ≡ 0) ⊎ (v + a * i ≤ now + i)
    → (b ≡ 0) ⊎ (v + b * i ≤ now + i)
    → a ≡ b
same_count v i now a b ha hb la lb = elim (Bool-cases (ltb a b)) [
  | inl less ↦
      let more = more_multiples b a i (ground (arith, less)) in
      elim lb [
        | inl z ↦ absurd (ground (arith, less, z))
        | inr l ↦ absurd (omega (arith, more, l, ha))
      ]
  | inr rest ↦ elim (Bool-cases (ltb b a)) [
    | inl less ↦
        let more = more_multiples a b i (ground (arith, less)) in
        elim la [
          | inl z ↦ absurd (ground (arith, less, z))
          | inr l ↦ absurd (omega (arith, more, l, hb))
        ]
    | inr rest' ↦ ground (arith, rest, rest')
  ]
]

-- Two steps forward are one.
together :
    (t t1 t2 : TimerFd) (n1 n2 a b : ℕ)
    → n1 ≤ n2
    → Advanced t n1 a t1
    → Advanced t1 n2 b t2
    → (nanoseconds t2.it_value ≡ nanoseconds t.it_value + (a + b) * nanoseconds t.it_interval)
      × ((a + b ≡ 0) ⊎ (nanoseconds t2.it_value ≤ n2 + nanoseconds t.it_interval))
together t t1 t2 n1 n2 a b later first second =
    let same : nanoseconds t1.it_interval ≡ nanoseconds t.it_interval =
      ap nanoseconds first.same_interval in
    let next : nanoseconds t2.it_value ≡ nanoseconds t1.it_value + b * nanoseconds t.it_interval =
      rw (sym same) second.next in
    let value : nanoseconds t2.it_value
        ≡ nanoseconds t.it_value + (a + b) * nanoseconds t.it_interval =
      omega (arith, next, first.next) in
    (
      value,
      elim second.due [
        | inr due ↦ inr (omega (arith, due, same))
        | inl none_more ↦
            let stays : nanoseconds t2.it_value ≡ nanoseconds t1.it_value =
              next ∙ rw (none_more) (omega arith) in
            elim first.due [
              | inl none_before ↦ inl (omega (arith, none_more, none_before))
              | inr due ↦ inr (omega (arith, due, later, stays))
            ]
      ],
    )

-- Updates of an armed interval timer at two times count together what one update at the second time
-- counts, and lead to the same next expiration time: no expiration is lost or counted twice,
-- whenever the timer is looked at. The times stay below 2 ^ 63 nanoseconds.
pub updates_compose :
    (t : TimerFd) (n1 n2 : Timespec)
    → IsTimer t
    → IsTime n1
    → IsTime n2
    → 0 < nanoseconds t.it_value
    → 0 < nanoseconds t.it_interval
    → nanoseconds n1 ≤ nanoseconds n2
    → nanoseconds n2 + nanoseconds t.it_interval ≤ int64_max
    → (t1 : TimerFd) × (t2 : TimerFd) × (t3 : TimerFd) × (timerfd_ctx_update_to_current_time t n1
        ≡ some t1)
      × (timerfd_ctx_update_to_current_time t1 n2 ≡ some t2)
      × (timerfd_ctx_update_to_current_time t n2 ≡ some t3)
      × (t2.nr_expirations ≡ t3.nr_expirations)
      × (nanoseconds t2.it_value ≡ nanoseconds t3.it_value)
updates_compose t n1 n2 vt v1 v2 armed periodic later room =
    let (a, t1, e1, first) = update_exact t n1 vt v1 armed periodic (omega (arith, later, room)) in
    let same : nanoseconds t1.it_interval ≡ nanoseconds t.it_interval =
      ap nanoseconds first.same_interval in
    let (b, t2, e2, second) =
      update_exact t1 n2 first.is_timer v2 (omega (arith, armed, first.next)) (rw (same) periodic)
        (rw (same) room) in
    let (c, t3, e3, once) = update_exact t n2 vt v2 armed periodic room in
    let (value, due) = together t t1 t2 (nanoseconds n1) (nanoseconds n2) a b later first second in
    let equal : a + b ≡ c =
      same_count (nanoseconds t.it_value) (nanoseconds t.it_interval) (nanoseconds n2) (a + b) c
        (rw (sym value) second.ahead) (rw (sym once.next) once.ahead) (rw (sym value) due)
        (rw (sym once.next) once.due) in
    (
      t1,
      t2,
      t3,
      e1,
      e2,
      e3,
      omega (arith, first.counted, second.counted, once.counted, equal),
      value ∙ rw (equal) (sym once.next),
    )

-- The update of an armed timer without an interval counts one expiration once its time has come, and
-- disarms it; before that it changes nothing.
pub update_one_shot :
    (t : TimerFd) (now : Timespec)
    → IsTimer t
    → IsTime now
    → 0 < nanoseconds t.it_value
    → nanoseconds t.it_interval ≡ 0
    → ((nanoseconds now < nanoseconds t.it_value)
        × (timerfd_ctx_update_to_current_time t now ≡ some t))
      ⊎ ((nanoseconds t.it_value ≤ nanoseconds now)
          × (timerfd_ctx_update_to_current_time t now
              ≡ some (
                  timerfd_ctx_disarm
                    (record t { nr_expirations = (t.nr_expirations + 1) % 2 ^ 64 }))))
unfolding timerfd_ctx_update_to_current_time timerfd_ctx_is_disarmed timerfd_ctx_is_interval_timer
    checked
update_one_shot t now vt vn armed one_shot =
    let nonzero : time_eq t.it_value zero_time ≡ false =
      time_eq-zero t.it_value vt.value.valid ∙ ground (arith, armed) in
    let single : time_eq t.it_interval zero_time ≡ true =
      time_eq-zero t.it_interval vt.interval.valid ∙ ground (arith, one_shot) in
    let compared = time_lt-nanoseconds now t.it_value vn.valid vt.value.valid in
    elim (Bool-cases (ltb (nanoseconds now) (nanoseconds t.it_value))) [
      | inl before ↦ inl (ground (arith, before), rw (nonzero, single, compared ∙ before) refl)
      | inr after ↦ inr (ground (arith, after), rw (nonzero, single, compared ∙ after) refl)
    ]
