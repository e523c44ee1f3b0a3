-- ===== src/Epoll/Timespec/Exactness.antt =====
-- The sums and differences of timespec_util.c against nanoseconds as numbers without a bound.
use wwn_iland.Common.{
  ℕ, zero, suc, ◌+◌, ◌-◌, ◌*◌, ◌<◌, ◌≤◌, ◌≡◌, ◌⊎◌, inl, inr, refl, true, arith, ltb, leb,
  Bool-cases,
}
use wwn_iland.Epoll.Timespec.{
  ℤ, pos, negsuc, Timespec, time, overflow, int64_max, billion, magnitude, timespec_is_valid,
  add_parts, timespecadd_safe, difference, decrement, fits_int64, sub_parts, timespecsub_safe,
}

-- The nanoseconds of a time that is not negative.
abbrev pub nanoseconds : Timespec → ℕ
nanoseconds ts = magnitude ts.tv_sec * billion + magnitude ts.tv_nsec

-- `-z` where `z` is negative.
abbrev pub negative_part : ℤ → ℕ
negative_part (pos n) = 0
negative_part (negsuc n) = n + 1

-- The nanoseconds by which a time lies before 0, counted from its full second.
abbrev pub debt : Timespec → ℕ
debt ts = negative_part ts.tv_sec * billion

valid-bound : (ts : Timespec) → timespec_is_valid ts ≡ true → magnitude ts.tv_nsec < billion
unfolding timespec_is_valid
valid-bound ts h = ground (arith, h)

add_parts-exact :
    (s n u m : ℕ)
    → n < billion
    → m < billion
    → (((int64_max + 1) * billion ≤ s * billion + n + (u * billion + m))
        × (add_parts s n u m ≡ overflow))
      ⊎ ((v : Timespec) × (add_parts s n u m ≡ time v)
          × (timespec_is_valid v ≡ true)
          × (nanoseconds v ≡ s * billion + n + (u * billion + m)))
unfolding add_parts timespec_is_valid
add_parts-exact s n u m hn hm = elim (Bool-cases (ltb int64_max (s + u))) [
  | inl over ↦ inl (ground (arith, over))
  | inr fits ↦ elim (Bool-cases (leb billion (n + m))) [
    | inr no_carry ↦
        let v : Timespec = record { tv_sec = pos (s + u); tv_nsec = pos (n + m) } in
        inr (v, rw (fits, no_carry), ground (arith, no_carry), omega arith)
    | inl carry ↦ elim (Bool-cases (ltb int64_max (s + u + 1))) [
      | inl over ↦ inl (ground (arith, over, fits, carry))
      | inr fits' ↦
          let v : Timespec = record { tv_sec = pos (s + u + 1); tv_nsec = pos (n + m - billion) } in
          let c : billion ≤ n + m = ground (arith, carry) in
          inr (v, rw (fits, carry, fits'), ground (arith, c, hn, hm), omega (arith, c))
    ]
  ]
]

-- The sum of two valid times is the exact number of nanoseconds, as a valid time, or an overflow is
-- reported, and only where that number has no 64-bit seconds.
pub timespecadd_safe_exact :
    (t u : Timespec)
    → timespec_is_valid t ≡ true
    → timespec_is_valid u ≡ true
    → (((int64_max + 1) * billion ≤ nanoseconds t + nanoseconds u)
        × (timespecadd_safe t u ≡ overflow))
      ⊎ ((v : Timespec) × (timespecadd_safe t u ≡ time v)
          × (timespec_is_valid v ≡ true)
          × (nanoseconds v ≡ nanoseconds t + nanoseconds u))
unfolding timespecadd_safe
timespecadd_safe_exact t u ht hu =
    rw (ht, hu)
      (add_parts-exact (magnitude t.tv_sec) (magnitude t.tv_nsec) (magnitude u.tv_sec)
        (magnitude u.tv_nsec) (valid-bound t ht) (valid-bound u hu))

difference_lem :
    (s u : ℕ)
    → s ≤ int64_max
    → u ≤ int64_max
    → (s + negative_part (difference s u) ≡ u + magnitude (difference s u))
      × (fits_int64 (difference s u) ≡ true)
      × (fits_int64 (decrement (difference s u)) ≡ true)
unfolding difference decrement fits_int64
difference_lem s u hs hu = elim (Bool-cases (leb u s)) [
  | inl le ↦ elim (Bool-cases (leb s u)) [
    | inl ge ↦ ground (arith, le, ge)
    | inr lt ↦ ground (arith, le, lt, hs)
  ]
  | inr gt ↦ ground (arith, gt, hs, hu)
]

decrement_lem :
    (z : ℤ)
    → magnitude (decrement z) + negative_part z + 1 ≡ magnitude z + negative_part (decrement z)
unfolding decrement
decrement_lem (pos zero) = refl
decrement_lem (pos (suc n)) = omega arith
decrement_lem (negsuc n) = omega arith

sub_parts-exact :
    (s n u m : ℕ)
    → n < billion
    → m < billion
    → s ≤ int64_max
    → u ≤ int64_max
    → (v : Timespec) × (sub_parts s n u m ≡ time v)
      × (magnitude v.tv_nsec < billion)
      × (s * billion + n + debt v ≡ u * billion + m + nanoseconds v)
unfolding sub_parts
sub_parts-exact s n u m hn hm hs hu =
    let (balance, fits, fits') = difference_lem s u hs hu in
    let lower = decrement_lem (difference s u) in
    elim (Bool-cases (ltb n m)) [
      | inl borrow ↦
          let v : Timespec = record {
            tv_sec = decrement (difference s u);
            tv_nsec = pos (n + billion - m);
          } in
          let b : n < m = ground (arith, borrow) in
          (v, rw (fits, borrow, fits'), omega (arith, b, hm), omega (arith, b, hm, balance, lower))
      | inr enough ↦
          let v : Timespec = record { tv_sec = difference s u; tv_nsec = pos (n - m) } in
          let b : m ≤ n = ground (arith, enough) in
          (v, rw (fits, enough), omega (arith, b, hn), omega (arith, b, balance))
    ]

-- The difference of two valid times with 64-bit seconds is exact and never overflows: it is negative
-- where the second time is the later one, with nanoseconds that count up from its full second.
pub timespecsub_safe_exact :
    (t u : Timespec)
    → timespec_is_valid t ≡ true
    → timespec_is_valid u ≡ true
    → magnitude t.tv_sec ≤ int64_max
    → magnitude u.tv_sec ≤ int64_max
    → (v : Timespec) × (timespecsub_safe t u ≡ time v)
      × (magnitude v.tv_nsec < billion)
      × (nanoseconds t + debt v ≡ nanoseconds u + nanoseconds v)
unfolding timespecsub_safe
timespecsub_safe_exact t u ht hu st su =
    rw (ht, hu)
      (sub_parts-exact (magnitude t.tv_sec) (magnitude t.tv_nsec) (magnitude u.tv_sec)
        (magnitude u.tv_nsec) (valid-bound t ht) (valid-bound u hu) st su)
