-- ===== src/Epoll/RwLock/Tests.antt =====
-- Runs of the lock of rwlock.c: a reader, a writer that waits for it, a reader that waits for the writer.
use wwn_iland.Common.{ℕ, ◌+◌, ◌≡◌, refl, arith}
use wwn_iland.Epoll.RwLock.{
  max_readers, Phase, free, locked, parked, writing, announced, releasing, RwLock, rwlock_init,
  read_at_once, wait_for_writer, start_leaving, depart_last, wake_writer, lock_mutex, announce,
  park, write_after_wait, end_writing, wake_reader, unlock_mutex, lock_read, unlock_read,
  lock_write, unlock_write, Reachable, start, step,
}
use wwn_iland.Epoll.RwLock.Exclusion.{writing_excludes_readers}
use wwn_iland.Epoll.RwLock.Progress.{Run, waiting_writer_gets_in}

abbrev lock_at : ℕ → ℕ → ℕ → ℕ → Phase → ℕ → ℕ → ℕ → ℕ → RwLock
lock_at n d w r p i k l o = record {
  num_pending = n;
  readers_departing = d;
  writer_wait = w;
  reader_wait = r;
  phase = p;
  reading = i;
  waiting = k;
  leaving = l;
  posting = o;
}

abbrev one_reader : RwLock
one_reader = lock_at (max_readers + 1) max_readers 0 0 free 1 0 0 0

abbrev with_mutex : RwLock
with_mutex = lock_at (max_readers + 1) max_readers 0 0 locked 1 0 0 0

abbrev one_inside : RwLock
one_inside = lock_at 1 max_readers 0 0 (announced 1) 1 0 0 0

abbrev writer_waits : RwLock
writer_waits = lock_at 1 (max_readers + 1) 0 0 parked 1 0 0 0

abbrev reader_waits : RwLock
reader_waits = lock_at 2 (max_readers + 1) 0 0 parked 1 1 0 0

abbrev reader_leaves : RwLock
reader_leaves = lock_at 1 (max_readers + 1) 0 0 parked 0 1 1 0

abbrev last_left : RwLock
last_left = lock_at 1 max_readers 0 0 parked 0 1 0 1

abbrev writer_woken : RwLock
writer_woken = lock_at 1 max_readers 1 0 parked 0 1 0 0

abbrev writer_in : RwLock
writer_in = lock_at 1 max_readers 0 0 writing 0 1 0 0

abbrev writer_ends : RwLock
writer_ends = lock_at (max_readers + 1) max_readers 0 0 (releasing 1) 0 1 0 0

abbrev reader_woken : RwLock
reader_woken = lock_at (max_readers + 1) max_readers 0 1 (releasing 0) 0 1 0 0

abbrev all_done : RwLock
all_done = lock_at (max_readers + 1) max_readers 0 1 free 0 1 0 0

one_reader-reached : Reachable one_reader
unfolding rwlock_init
one_reader-reached =
    step rwlock_init one_reader start (lock_read (read_at_once (omega arith) (omega arith)))

with_mutex-reached : Reachable with_mutex
with_mutex-reached = step one_reader with_mutex one_reader-reached (lock_write (lock_mutex refl))

one_inside-reached : Reachable one_inside
one_inside-reached =
    step with_mutex one_inside with_mutex-reached (lock_write (announce refl (omega arith)))

writer_waits-reached : Reachable writer_waits
writer_waits-reached =
    step one_inside writer_waits one_inside-reached (lock_write (park 1 refl (omega arith)))

reader_waits-reached : Reachable reader_waits
reader_waits-reached =
    step writer_waits reader_waits writer_waits-reached
      (lock_read (wait_for_writer (omega arith) (omega arith)))

reader_leaves-reached : Reachable reader_leaves
reader_leaves-reached =
    step reader_waits reader_leaves reader_waits-reached
      (unlock_read (start_leaving (omega arith) (omega arith)))

last_left-reached : Reachable last_left
last_left-reached =
    step reader_leaves last_left reader_leaves-reached
      (unlock_read (depart_last (omega arith) refl))

writer_woken-reached : Reachable writer_woken
writer_woken-reached =
    step last_left writer_woken last_left-reached (unlock_read (wake_writer (omega arith)))

writer_in-reached : Reachable writer_in
writer_in-reached =
    step writer_woken writer_in writer_woken-reached
      (lock_write (write_after_wait refl (omega arith)))

writer_ends-reached : Reachable writer_ends
writer_ends-reached = step writer_in writer_ends writer_in-reached (unlock_write (end_writing refl))

reader_woken-reached : Reachable reader_woken
reader_woken-reached =
    step writer_ends reader_woken writer_ends-reached (unlock_write (wake_reader 0 refl))

all_done-reached : Reachable all_done
all_done-reached =
    step reader_woken all_done reader_woken-reached (unlock_write (unlock_mutex refl))

writing_excludes_readers_example :
    (writer_in.reading ≡ 0) × (writer_in.reader_wait ≡ 0) × (writer_in.leaving ≡ 0)
writing_excludes_readers_example = writing_excludes_readers writer_in writer_in-reached refl

waiting_writer_gets_in_example : (s' : RwLock) × Run writer_waits s' × (s'.phase ≡ writing)
waiting_writer_gets_in_example = waiting_writer_gets_in writer_waits writer_waits-reached refl
