-- ===== src/Epoll/Timer/Clocks.antt =====
-- The comparisons and conversions of timerfd_ctx.c, on nanoseconds.
use wwn_iland.Common.{
  ℕ, ◌+◌, ◌*◌, ◌/◌, ◌<◌, ◌≤◌, ◌≡◌, ◌⊎◌, inl, inr, true, ◌&&◌, arith, ltb, ◌==◌, if◌then◌else◌,
}
use wwn_iland.Epoll.Timespec.{
  ℤ, pos, negsuc, Timespec, time, int64_max, billion, magnitude, timespec_is_valid,
  timespecsub_safe,
}
use wwn_iland.Epoll.Timespec.Exactness.{nanoseconds, negative_part, timespecsub_safe_exact}
use wwn_iland.Epoll.Timer.{time_lt, time_eq, zero_time, nanos_to_ts, int_lt}

-- Both parts of a valid time are numbers that are not negative.
pub valid-parts :
    (t : Timespec)
    → timespec_is_valid t ≡ true
    → (t.tv_sec ≡ pos (magnitude t.tv_sec))
      × (t.tv_nsec ≡ pos (magnitude t.tv_nsec))
      × (magnitude t.tv_nsec < billion)
unfolding timespec_is_valid
valid-parts t h = ground (arith, h)

pub time_lt-nanoseconds :
    (a b : Timespec)
    → timespec_is_valid a ≡ true
    → timespec_is_valid b ≡ true
    → time_lt a b ≡ ltb (nanoseconds a) (nanoseconds b)
time_lt-nanoseconds a b ha hb =
    let (sa, na, la) = valid-parts a ha in
    let (sb, nb, lb) = valid-parts b hb in
    rw (sa, na, sb, nb)
      (numbers (magnitude a.tv_sec) (magnitude a.tv_nsec) (magnitude b.tv_sec) (magnitude b.tv_nsec)
        la lb)
  where
    numbers :
        (s n u m : ℕ)
        → n < billion
        → m < billion
        → (if s == u then ltb n m else ltb s u) ≡ ltb (s * billion + n) (u * billion + m)
    numbers s n u m hn hm = ground arith

pub time_eq-zero :
    (t : Timespec) → timespec_is_valid t ≡ true → time_eq t zero_time ≡ (nanoseconds t == 0)
time_eq-zero t h =
    let (st, nt, lt) = valid-parts t h in
    rw (st, nt) (numbers (magnitude t.tv_sec) (magnitude t.tv_nsec) lt)
  where
    numbers : (s n : ℕ) → n < billion → (s == 0 && n == 0) ≡ (s * billion + n == 0)
    numbers s n hn = ground arith

pub nanos_to_ts_lem :
    (n : ℕ) → (timespec_is_valid (nanos_to_ts n) ≡ true) × (nanoseconds (nanos_to_ts n) ≡ n)
unfolding nanos_to_ts timespec_is_valid
nanos_to_ts_lem n = (ground arith, omega arith)

sign-cases :
    (z : ℤ) (n a b : ℕ)
    → n < billion
    → a + negative_part z * billion ≡ b + (magnitude z * billion + n)
    → (int_lt z (pos 0) ≡ ltb a b) × ((a < b) ⊎ (magnitude z * billion + n + b ≡ a))
sign-cases (pos s) n a b low balance = (ground arith, inr (omega (arith, balance)))
sign-cases (negsuc k) n a b low balance =
    let less : a < b = omega (arith, balance, low) in (ground (arith, less), inl less)

-- The difference of two times, by whether the second is the later one.
pub difference-cases :
    (t u : Timespec)
    → timespec_is_valid t ≡ true
    → timespec_is_valid u ≡ true
    → magnitude t.tv_sec ≤ int64_max
    → magnitude u.tv_sec ≤ int64_max
    → (v : Timespec) × (timespecsub_safe t u ≡ time v)
      × (magnitude v.tv_nsec < billion)
      × (int_lt v.tv_sec (pos 0) ≡ ltb (nanoseconds t) (nanoseconds u))
      × ((nanoseconds t < nanoseconds u) ⊎ (nanoseconds v + nanoseconds u ≡ nanoseconds t))
difference-cases t u ht hu st su =
    let (v, e, low, balance) = timespecsub_safe_exact t u ht hu st su in
    let (sign, exact) =
      sign-cases v.tv_sec (magnitude v.tv_nsec) (nanoseconds t) (nanoseconds u) low balance in
    (v, e, low, sign, exact)

-- The quotient that counts the full intervals `i` in a time `d`.
pub quotient_bounds :
    (d i : ℕ) → 0 < i → (d / i ≤ d) × (d < (d / i + 1) * i) × ((d / i + 1) * i ≤ d + i)
quotient_bounds d i h = grind arith
