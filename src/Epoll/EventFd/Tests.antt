-- ===== src/Epoll/EventFd/Tests.antt =====
-- Examples for the theorems on event descriptors of eventfd_ctx.c, on a kqueue that counts the
-- events it has to report.
use wwn_iland.Common.{
  ◌+◌, ◌≤◌, ◌≢◌, ◌⊎◌, einval, ℕ, zero, suc, ◌<◌, ◌≡◌, inl, inr, refl, true, false, Option, none,
  some, arith, Errno, ok, fail, eagain,
}
use wwn_iland.Epoll.KQueue.{KQueue}
use wwn_iland.Epoll.EventFd.{uint64_max, EventFd, eventfd_ctx_write, eventfd_ctx_read}
use wwn_iland.Epoll.EventFd.Readiness.{IsSynced, write-IsSynced, write_zero_reports, write_outcome}

fetch_one : ℕ → Option ℕ
fetch_one zero = none
fetch_one (suc n) = some n

fetch_one-some : (n m : ℕ) → fetch_one n ≡ some m → m < n
unfolding fetch_one
fetch_one-some zero m h = cc
fetch_one-some (suc n) m h = ground (arith, h)

fetch_one-none : (n : ℕ) → fetch_one n ≡ none → n ≡ 0
unfolding fetch_one
fetch_one-none zero h = refl
fetch_one-none (suc n) h = cc

trigger_one : ℕ → ℕ × Option Errno
trigger_one n = (1, none)

trigger_one-done : (n m : ℕ) → trigger_one n ≡ (m, none) → 0 < m
unfolding trigger_one
trigger_one-done n m h = ground (arith, h)

add_event-done : (n m : ℕ) → ◌≡◌ {A = ℕ × Option Errno} (n, none) (m, none) → m ≡ n
add_event-done n m h = ground (arith, h)

abbrev counting : KQueue ℕ
counting = record {
  pending = λ n. n;
  add_event = λ n. (n, none);
  trigger = trigger_one;
  fetch = fetch_one;
  add_event_done = add_event-done;
  trigger_done = trigger_one-done;
  fetch_some = fetch_one-some;
  fetch_none = fetch_one-none;
}

abbrev at_rest : EventFd ℕ
at_rest = record { semaphore = false; counter = 0; event = record { is_triggered = false; kq = 0 } }

abbrev holding : ℕ → EventFd ℕ
holding n = record {
  semaphore = false;
  counter = n;
  event = record { is_triggered = true; kq = 1 };
}

at_rest-IsSynced : IsSynced counting at_rest
at_rest-IsSynced = record { fits = omega arith; flag = refl; reported = inl refl }

holding-IsSynced : IsSynced counting (holding 5)
holding-IsSynced = record { fits = omega arith; flag = refl; reported = inr refl }

write-IsSynced_example :
    IsSynced counting (holding 5)
    × ((holding 5).counter ≡ 5)
    × ((holding 5).event.is_triggered ≡ true)
    × (0 < counting.pending (holding 5).event.kq)
unfolding eventfd_ctx_write trigger_one
write-IsSynced_example = write-IsSynced counting at_rest 5 (holding 5) at_rest-IsSynced refl

write_zero_reports_example :
    (e' : EventFd ℕ) × (eventfd_ctx_write counting at_rest 0 ≡ (e', ok tt))
    × (0 < counting.pending e'.event.kq)
    × (eventfd_ctx_read counting e' ≡ (e', fail eagain))
unfolding trigger_one
write_zero_reports_example = write_zero_reports counting at_rest 1 at_rest-IsSynced refl refl

write_outcome_example :
    let (e', r) = eventfd_ctx_write counting at_rest uint64_max in
    ((uint64_max ≡ uint64_max) × (r ≡ fail einval) × (e' ≡ at_rest))
    ⊎ ((uint64_max ≢ uint64_max)
        × (uint64_max ≤ 0 + uint64_max)
        × (r ≡ fail eagain)
        × (e' ≡ at_rest))
    ⊎ ((0 + uint64_max < uint64_max) × (e'.counter ≡ 0 + uint64_max))
write_outcome_example = write_outcome counting at_rest uint64_max
