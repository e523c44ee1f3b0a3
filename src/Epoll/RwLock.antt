-- ===== src/Epoll/RwLock.antt =====
-- rwlock.c: the readers-writer lock, as the steps of all its threads. Each step is one atomic operation or
-- one operation of a semaphore; the threads at one place of the code are counted. Readers are fewer
-- than MAX_READERS, which the source relies on.
pub mod Exclusion
mod Progress
mod Tests
use wwn_iland.Common.{ℕ, suc, ◌+◌, ◌-◌, ◌^◌, ◌<◌, ◌≤◌, ◌≡◌, ◌≢◌}

-- MAX_READERS
abbrev pub max_readers : ℕ
max_readers = 2 ^ 30

-- Where the thread is that has the mutex: `announced r` is between the two atomic operations of
-- rwlock_lock_write, `parked` waits on `writer_wait`, and `releasing k` has `k` readers left to wake.
pub data Phase : Type 0 where
  free locked parked writing : Phase
  announced releasing : ℕ → Phase

-- `RWLock`, with the threads: `num_pending` and `readers_departing` are the fields plus MAX_READERS, so
-- that a field is negative where the number is below MAX_READERS. `reading` threads hold the lock for
-- reading, `waiting` threads wait on `reader_wait`, `leaving` threads are between the two atomic
-- operations of rwlock_unlock_read, and `posting` threads are before its sem_post.
pub record RwLock : Type 0 where
  pub num_pending : ℕ
  pub readers_departing : ℕ
  pub writer_wait : ℕ
  pub reader_wait : ℕ
  pub phase : Phase
  pub reading : ℕ
  pub waiting : ℕ
  pub leaving : ℕ
  pub posting : ℕ

unfoldable pub rwlock_init : RwLock
rwlock_init = record {
  num_pending = max_readers;
  readers_departing = max_readers;
  writer_wait = 0;
  reader_wait = 0;
  phase = free;
  reading = 0;
  waiting = 0;
  leaving = 0;
  posting = 0;
}

-- rwlock_lock_read
pub data LockRead (s : RwLock) : RwLock → Type 0 where
  read_at_once :
      s.reading + s.waiting + 1 < max_readers
      → max_readers ≤ s.num_pending + 1
      → LockRead s (record s { num_pending = s.num_pending + 1; reading = s.reading + 1 })
  wait_for_writer :
      s.reading + s.waiting + 1 < max_readers
      → s.num_pending + 1 < max_readers
      → LockRead s (record s { num_pending = s.num_pending + 1; waiting = s.waiting + 1 })
  read_after_wait :
      0 < s.reader_wait
      → 0 < s.waiting
      → LockRead s (record s {
        reader_wait = s.reader_wait - 1;
        waiting = s.waiting - 1;
        reading = s.reading + 1;
      })

-- rwlock_unlock_read
pub data UnlockRead (s : RwLock) : RwLock → Type 0 where
  leave_at_once :
      0 < s.reading
      → max_readers ≤ s.num_pending - 1
      → UnlockRead s (record s { num_pending = s.num_pending - 1; reading = s.reading - 1 })
  start_leaving :
      0 < s.reading
      → s.num_pending - 1 < max_readers
      → UnlockRead s (record s {
        num_pending = s.num_pending - 1;
        reading = s.reading - 1;
        leaving = s.leaving + 1;
      })
  depart :
      0 < s.leaving
      → s.readers_departing - 1 ≢ max_readers
      → UnlockRead s
          (record s { readers_departing = s.readers_departing - 1; leaving = s.leaving - 1 })
  depart_last :
      0 < s.leaving
      → s.readers_departing - 1 ≡ max_readers
      → UnlockRead s (record s {
        readers_departing = s.readers_departing - 1;
        leaving = s.leaving - 1;
        posting = s.posting + 1;
      })
  wake_writer :
      0 < s.posting
      → UnlockRead s (record s { posting = s.posting - 1; writer_wait = s.writer_wait + 1 })

-- rwlock_lock_write
pub data LockWrite (s : RwLock) : RwLock → Type 0 where
  lock_mutex : s.phase ≡ free → LockWrite s (record s { phase = locked })
  announce_alone :
      s.phase ≡ locked
      → s.num_pending ≡ max_readers
      → LockWrite s (record s { num_pending = s.num_pending - max_readers; phase = writing })
  announce :
      s.phase ≡ locked
      → s.num_pending ≢ max_readers
      → LockWrite s (record s {
        num_pending = s.num_pending - max_readers;
        phase = announced (s.num_pending - max_readers);
      })
  all_departed :
      (r : ℕ)
      → s.phase ≡ announced r
      → s.readers_departing + r ≡ max_readers
      → LockWrite s (record s { readers_departing = s.readers_departing + r; phase = writing })
  park :
      (r : ℕ)
      → s.phase ≡ announced r
      → s.readers_departing + r ≢ max_readers
      → LockWrite s (record s { readers_departing = s.readers_departing + r; phase = parked })
  write_after_wait :
      s.phase ≡ parked
      → 0 < s.writer_wait
      → LockWrite s (record s { writer_wait = s.writer_wait - 1; phase = writing })

-- rwlock_unlock_write, and rwlock_downgrade, after which the thread holds the lock for reading.
pub data UnlockWrite (s : RwLock) : RwLock → Type 0 where
  end_writing :
      s.phase ≡ writing
      → UnlockWrite s
          (record s { num_pending = s.num_pending + max_readers; phase = releasing s.num_pending })
  downgrade :
      s.phase ≡ writing
      → s.reading + s.waiting + 1 < max_readers
      → UnlockWrite s (record s {
        num_pending = s.num_pending + max_readers + 1;
        phase = releasing s.num_pending;
        reading = s.reading + 1;
      })
  wake_reader :
      (k : ℕ)
      → s.phase ≡ releasing (suc k)
      → UnlockWrite s (record s { reader_wait = s.reader_wait + 1; phase = releasing k })
  unlock_mutex : s.phase ≡ releasing 0 → UnlockWrite s (record s { phase = free })

pub data Step (s s' : RwLock) : Type 0 where
  lock_read : LockRead s s' → Step s s'
  unlock_read : UnlockRead s s' → Step s s'
  lock_write : LockWrite s s' → Step s s'
  unlock_write : UnlockWrite s s' → Step s s'

pub data Reachable : RwLock → Type 0 where
  start : Reachable rwlock_init
  step : (s s' : RwLock) → Reachable s → Step s s' → Reachable s'
