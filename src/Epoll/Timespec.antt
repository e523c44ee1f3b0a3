-- ===== src/Epoll/Timespec.antt =====
-- timespec_util.c: sums and differences of times, with the overflow of 64-bit seconds.
pub mod Exactness
mod Tests
use wwn_iland.Common.{ℕ, zero, suc, ◌+◌, ◌-◌, ◌^◌, Bool, true, false, ◌&&◌, if◌then◌else◌, ltb, leb}

-- Signed numbers: `negsuc n` is `-(n + 1)`.
pub data ℤ : Type 0 where
  pos negsuc : ℕ → ℤ

-- `struct timespec`
pub record Timespec : Type 0 where
  pub tv_sec : ℤ
  pub tv_nsec : ℤ

-- The largest signed 64-bit number.
abbrev pub int64_max : ℕ
int64_max = 2 ^ 63 - 1

abbrev pub billion : ℕ
billion = 1000000000

-- `z >= 0`
abbrev is_nonnegative : ℤ → Bool
is_nonnegative (pos n) = true
is_nonnegative (negsuc n) = false

-- The number where it is not negative.
abbrev pub magnitude : ℤ → ℕ
magnitude (pos n) = n
magnitude (negsuc n) = 0

unfoldable pub timespec_is_valid : Timespec → Bool
timespec_is_valid ts =
    is_nonnegative ts.tv_sec && is_nonnegative ts.tv_nsec && ltb (magnitude ts.tv_nsec) billion

-- `struct itimerspec`
pub record Itimerspec : Type 0 where
  pub it_value : Timespec
  pub it_interval : Timespec

unfoldable pub itimerspec_is_valid : Itimerspec → Bool
unfolding timespec_is_valid
itimerspec_is_valid its = timespec_is_valid its.it_value && timespec_is_valid its.it_interval

-- `time v` returns true with the result `v`, `overflow` returns false, `aborted` fails an assertion.
pub data TimeResult : Type 0 where
  time : Timespec → TimeResult
  overflow : TimeResult
  aborted : TimeResult

-- The sum of `s` seconds and `n` nanoseconds with `u` and `m`.
unfoldable pub add_parts : (s n u m : ℕ) → TimeResult
add_parts s n u m =
    if ltb int64_max (s + u)
    then overflow
    else if leb billion (n + m)
    then (if ltb int64_max (s + u + 1)
        then overflow
        else time (record { tv_sec = pos (s + u + 1); tv_nsec = pos (n + m - billion) }))
    else time (record { tv_sec = pos (s + u); tv_nsec = pos (n + m) })

unfoldable pub timespecadd_safe : Timespec → Timespec → TimeResult
unfolding timespec_is_valid add_parts
timespecadd_safe tsp usp =
    if timespec_is_valid tsp && timespec_is_valid usp
    then add_parts (magnitude tsp.tv_sec) (magnitude tsp.tv_nsec) (magnitude usp.tv_sec)
        (magnitude usp.tv_nsec)
    else aborted

-- The difference of two numbers that are not negative.
unfoldable pub difference : (s u : ℕ) → ℤ
difference s u = if leb u s then pos (s - u) else negsuc (u - s - 1)

unfoldable pub decrement : ℤ → ℤ
decrement (pos zero) = negsuc 0
decrement (pos (suc n)) = pos n
decrement (negsuc n) = negsuc (n + 1)

-- The number is a signed 64-bit number.
unfoldable pub fits_int64 : ℤ → Bool
fits_int64 (pos n) = leb n int64_max
fits_int64 (negsuc n) = leb n int64_max

unfoldable pub sub_parts : (s n u m : ℕ) → TimeResult
unfolding difference decrement fits_int64
sub_parts s n u m =
    if fits_int64 (difference s u)
    then (if ltb n m
        then (if fits_int64 (decrement (difference s u))
            then time
                (record { tv_sec = decrement (difference s u); tv_nsec = pos (n + billion - m) })
            else overflow)
        else time (record { tv_sec = difference s u; tv_nsec = pos (n - m) }))
    else overflow

unfoldable pub timespecsub_safe : Timespec → Timespec → TimeResult
unfolding timespec_is_valid sub_parts
timespecsub_safe tsp usp =
    if timespec_is_valid tsp && timespec_is_valid usp
    then sub_parts (magnitude tsp.tv_sec) (magnitude tsp.tv_nsec) (magnitude usp.tv_sec)
        (magnitude usp.tv_nsec)
    else aborted
