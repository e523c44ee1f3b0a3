-- ===== src/Epoll/Timespec/Tests.antt =====
-- Examples for the theorems on the times of timespec_util.c.
use wwn_iland.Common.{◌+◌, ◌*◌, ◌<◌, ◌≤◌, ◌≡◌, ◌⊎◌, refl, true, arith}
use wwn_iland.Epoll.Timespec.{
  pos, Timespec, time, overflow, int64_max, billion, magnitude, timespec_is_valid, timespecadd_safe,
  timespecsub_safe,
}
use wwn_iland.Epoll.Timespec.Exactness.{
  nanoseconds, debt, timespecadd_safe_exact, timespecsub_safe_exact,
}

-- 2.7 seconds and 3.6 seconds.
abbrev early : Timespec
early = record { tv_sec = pos 2; tv_nsec = pos 700000000 }

abbrev late : Timespec
late = record { tv_sec = pos 3; tv_nsec = pos 600000000 }

timespecadd_safe_exact_example :
    (((int64_max + 1) * billion ≤ nanoseconds early + nanoseconds late)
      × (timespecadd_safe early late ≡ overflow))
    ⊎ ((v : Timespec) × (timespecadd_safe early late ≡ time v)
        × (timespec_is_valid v ≡ true)
        × (nanoseconds v ≡ nanoseconds early + nanoseconds late))
unfolding timespec_is_valid
timespecadd_safe_exact_example = timespecadd_safe_exact early late refl refl

timespecsub_safe_exact_example :
    (v : Timespec) × (timespecsub_safe early late ≡ time v)
    × (magnitude v.tv_nsec < billion)
    × (nanoseconds early + debt v ≡ nanoseconds late + nanoseconds v)
unfolding timespec_is_valid
timespecsub_safe_exact_example =
    timespecsub_safe_exact early late refl refl (omega arith) (omega arith)
