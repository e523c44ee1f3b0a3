-- ===== src/Epoll/RwLock/Exclusion.antt =====
-- The lock of rwlock.c excludes readers while a thread writes, and loses no wake-up.
use mathlib.Core.Path.{subst}
use wwn_iland.Common.{ℕ, suc, ◌+◌, ◌<◌, ◌≤◌, ◌≡◌, ◌⊎◌, inl, inr, refl, arith}
use wwn_iland.Epoll.RwLock.{
  max_readers, Phase, free, locked, parked, writing, announced, releasing, RwLock, rwlock_init,
  LockRead, read_at_once, wait_for_writer, read_after_wait, UnlockRead, leave_at_once,
  start_leaving, depart, depart_last, wake_writer, LockWrite, lock_mutex, announce_alone, announce,
  all_departed, park, write_after_wait, UnlockWrite, end_writing, downgrade, wake_reader,
  unlock_mutex, Step, lock_read, unlock_read, lock_write, unlock_write, Reachable, start, step,
}

-- No writer has announced itself, and `k` readers are still to be woken.
record Quiet (k : ℕ) (s : RwLock) : Type 0 where
  pending : s.num_pending ≡ max_readers + s.reading + s.waiting
  woken : s.waiting ≡ s.reader_wait + k
  none_leaving : s.leaving + s.posting + s.writer_wait ≡ 0
  departing : s.readers_departing ≡ max_readers

-- A writer has announced itself: readers that come wait.
pub record Announced (s : RwLock) : Type 0 where
  pub pending : s.num_pending ≡ s.reading + s.waiting
  pub woken : s.reader_wait ≤ s.waiting

-- `r` readers were inside when the writer announced itself; it has not added them yet.
abbrev Counting : ℕ → RwLock → Type 0
Counting r s =
    (s.reading + s.reader_wait + s.leaving + max_readers ≡ s.readers_departing + r)
    × (s.readers_departing ≤ max_readers)
    × (r < max_readers)
    × (s.posting + s.writer_wait ≡ 0)

-- The writer waits for the readers that are inside.
abbrev pub Awaiting : RwLock → Type 0
Awaiting s =
    (s.reading + s.reader_wait + s.leaving + max_readers ≡ s.readers_departing)
    × (((0 < s.reading + s.reader_wait + s.leaving) × (s.posting + s.writer_wait ≡ 0))
        ⊎ ((s.reading + s.reader_wait + s.leaving ≡ 0) × (s.posting + s.writer_wait ≡ 1)))

-- No reader is inside, and no wake-up of the writer is left.
abbrev Alone : RwLock → Type 0
Alone s =
    (s.reading + s.reader_wait + s.leaving ≡ 0)
    × (s.readers_departing ≡ max_readers)
    × (s.posting + s.writer_wait ≡ 0)

abbrev Readers : RwLock → RwLock → Type 0
Readers s s' = LockRead s s' ⊎ UnlockRead s s'

abbrev Inv : Phase → RwLock → Type 0
Inv free s = Quiet 0 s
Inv locked s = Quiet 0 s
Inv (releasing k) s = Quiet k s
Inv (announced r) s = Announced s × Counting r s
Inv parked s = Announced s × Awaiting s
Inv writing s = Announced s × Alone s

-- Fewer readers than MAX_READERS.
abbrev pub Few : RwLock → Type 0
Few s = s.reading + s.waiting < max_readers

read-Quiet : (k : ℕ) (s s' : RwLock) → Few s → Quiet k s → Readers s s' → Few s' × Quiet k s'
read-Quiet k s s' f v (inl (read_at_once b h)) =
    ground (arith, f, v.pending, v.woken, v.none_leaving, v.departing, b, h)
read-Quiet k s s' f v (inl (wait_for_writer b h)) =
    ground (arith, f, v.pending, v.woken, v.none_leaving, v.departing, b, h)
read-Quiet k s s' f v (inl (read_after_wait h i)) =
    ground (arith, f, v.pending, v.woken, v.none_leaving, v.departing, h, i)
read-Quiet k s s' f v (inr (leave_at_once h i)) =
    ground (arith, f, v.pending, v.woken, v.none_leaving, v.departing, h, i)
read-Quiet k s s' f v (inr (start_leaving h i)) =
    ground (arith, f, v.pending, v.woken, v.none_leaving, v.departing, h, i)
read-Quiet k s s' f v (inr (depart h i)) =
    ground (arith, f, v.pending, v.woken, v.none_leaving, v.departing, h, i)
read-Quiet k s s' f v (inr (depart_last h i)) =
    ground (arith, f, v.pending, v.woken, v.none_leaving, v.departing, h, i)
read-Quiet k s s' f v (inr (wake_writer h)) =
    ground (arith, f, v.pending, v.woken, v.none_leaving, v.departing, h)

read-Announced : (s s' : RwLock) → Few s → Announced s → Readers s s' → Few s' × Announced s'
read-Announced s s' f v (inl (read_at_once b h)) = ground (arith, f, v.pending, v.woken, b, h)
read-Announced s s' f v (inl (wait_for_writer b h)) = ground (arith, f, v.pending, v.woken, b, h)
read-Announced s s' f v (inl (read_after_wait h i)) = ground (arith, f, v.pending, v.woken, h, i)
read-Announced s s' f v (inr (leave_at_once h i)) = ground (arith, f, v.pending, v.woken, h, i)
read-Announced s s' f v (inr (start_leaving h i)) = ground (arith, f, v.pending, v.woken, h, i)
read-Announced s s' f v (inr (depart h i)) = ground (arith, f, v.pending, v.woken, h, i)
read-Announced s s' f v (inr (depart_last h i)) = ground (arith, f, v.pending, v.woken, h, i)
read-Announced s s' f v (inr (wake_writer h)) = ground (arith, f, v.pending, v.woken, h)

read-Counting :
    (r : ℕ) (s s' : RwLock) → Few s → Announced s → Counting r s → Readers s s' → Counting r s'
read-Counting r s s' f v c (inl (read_at_once b h)) = ground (arith, f, v.pending, c, b, h)
read-Counting r s s' f v c (inl (wait_for_writer b h)) = ground (arith, c)
read-Counting r s s' f v c (inl (read_after_wait h i)) = ground (arith, c, h, i)
read-Counting r s s' f v c (inr (leave_at_once h i)) = ground (arith, f, v.pending, c, h, i)
read-Counting r s s' f v c (inr (start_leaving h i)) = ground (arith, c, h, i)
read-Counting r s s' f v c (inr (depart h i)) = ground (arith, c, h, i)
read-Counting r s s' f v c (inr (depart_last h i)) = ground (arith, c, h, i)
read-Counting r s s' f v c (inr (wake_writer h)) = ground (arith, c, h)

read-Parked : (s s' : RwLock) → Few s → Announced s → Awaiting s → Readers s s' → Awaiting s'
read-Parked s s' f v c (inl (read_at_once b h)) = ground (arith, f, v.pending, c, b, h)
read-Parked s s' f v c (inl (wait_for_writer b h)) = ground (arith, c)
read-Parked s s' f v c (inl (read_after_wait h i)) = ground (arith, c, h, i)
read-Parked s s' f v c (inr (leave_at_once h i)) = ground (arith, f, v.pending, c, h, i)
read-Parked s s' f v c (inr (start_leaving h i)) = ground (arith, c, h, i)
read-Parked s s' f v c (inr (depart h i)) = ground (arith, c, h, i)
read-Parked s s' f v c (inr (depart_last h i)) = ground (arith, c, h, i)
read-Parked s s' f v c (inr (wake_writer h)) = ground (arith, c, h)

read-Alone : (s s' : RwLock) → Few s → Announced s → Alone s → Readers s s' → Alone s'
read-Alone s s' f v c (inl (read_at_once b h)) = ground (arith, f, v.pending, v.woken, c, b, h)
read-Alone s s' f v c (inl (wait_for_writer b h)) = ground (arith, f, v.pending, v.woken, c, b, h)
read-Alone s s' f v c (inl (read_after_wait h i)) = ground (arith, c, h, i)
read-Alone s s' f v c (inr (leave_at_once h i)) = ground (arith, c, h, i)
read-Alone s s' f v c (inr (start_leaving h i)) = ground (arith, c, h, i)
read-Alone s s' f v c (inr (depart h i)) = ground (arith, c, h, i)
read-Alone s s' f v c (inr (depart_last h i)) = ground (arith, c, h, i)
read-Alone s s' f v c (inr (wake_writer h)) = ground (arith, c, h)

read-Inv : (p : Phase) (s s' : RwLock) → Few s → Inv p s → Readers s s' → Few s' × Inv p s'
read-Inv free s s' f v t = read-Quiet 0 s s' f v t
read-Inv locked s s' f v t = read-Quiet 0 s s' f v t
read-Inv (releasing k) s s' f v t = read-Quiet k s s' f v t
read-Inv (announced r) s s' f (v, c) t =
    let a = read-Announced s s' f v t in (a.0, (a.1, read-Counting r s s' f v c t))
read-Inv parked s s' f (v, c) t =
    let a = read-Announced s s' f v t in (a.0, (a.1, read-Parked s s' f v c t))
read-Inv writing s s' f (v, c) t =
    let a = read-Announced s s' f v t in (a.0, (a.1, read-Alone s s' f v c t))

read-phase : (s s' : RwLock) → Readers s s' → s.phase ≡ s'.phase
read-phase s s' (inl (read_at_once b h)) = refl
read-phase s s' (inl (wait_for_writer b h)) = refl
read-phase s s' (inl (read_after_wait h i)) = refl
read-phase s s' (inr (leave_at_once h i)) = refl
read-phase s s' (inr (start_leaving h i)) = refl
read-phase s s' (inr (depart h i)) = refl
read-phase s s' (inr (depart_last h i)) = refl
read-phase s s' (inr (wake_writer h)) = refl

in_phase : (s : RwLock) (p q : Phase) → p ≡ q → Inv p s → Inv q s
in_phase s p q e = subst (λ r. Inv r s) e

LockWrite-Inv : (s s' : RwLock) → Few s → Inv s.phase s → LockWrite s s' → Few s' × Inv s'.phase s'
LockWrite-Inv s s' f v (lock_mutex e) =
    let w = in_phase s s.phase free e v in
    (
      f,
      record {
        pending = w.pending;
        woken = w.woken;
        none_leaving = w.none_leaving;
        departing = w.departing;
      },
    )
LockWrite-Inv s s' f v (announce_alone e h) =
    let w = in_phase s s.phase locked e v in
    ground (arith, f, w.pending, w.woken, w.none_leaving, w.departing, h)
LockWrite-Inv s s' f v (announce e h) =
    let w = in_phase s s.phase locked e v in
    ground (arith, f, w.pending, w.woken, w.none_leaving, w.departing, h)
LockWrite-Inv s s' f v (all_departed r e h) =
    let w = in_phase s s.phase (announced r) e v in
    ground (arith, f, w.0.pending, w.0.woken, w.1, h)
LockWrite-Inv s s' f v (park r e h) =
    let w = in_phase s s.phase (announced r) e v in
    ground (arith, f, w.0.pending, w.0.woken, w.1, h)
LockWrite-Inv s s' f v (write_after_wait e h) =
    let w = in_phase s s.phase parked e v in ground (arith, f, w.0.pending, w.0.woken, w.1, h)

UnlockWrite-Inv :
    (s s' : RwLock) → Few s → Inv s.phase s → UnlockWrite s s' → Few s' × Inv s'.phase s'
UnlockWrite-Inv s s' f v (end_writing e) =
    let w = in_phase s s.phase writing e v in ground (arith, f, w.0.pending, w.0.woken, w.1)
UnlockWrite-Inv s s' f v (downgrade e h) =
    let w = in_phase s s.phase writing e v in ground (arith, f, w.0.pending, w.0.woken, w.1, h)
UnlockWrite-Inv s s' f v (wake_reader k e) =
    let w = in_phase s s.phase (releasing (suc k)) e v in
    ground (arith, f, w.pending, w.woken, w.none_leaving, w.departing)
UnlockWrite-Inv s s' f v (unlock_mutex e) =
    let w = in_phase s s.phase (releasing 0) e v in
    (
      f,
      record {
        pending = w.pending;
        woken = w.woken;
        none_leaving = w.none_leaving;
        departing = w.departing;
      },
    )

step-Inv : (s s' : RwLock) → Few s → Inv s.phase s → Step s s' → Few s' × Inv s'.phase s'
step-Inv s s' f v (lock_read t) =
    let w = read-Inv s.phase s s' f v (inl t) in
    (w.0, in_phase s' s.phase s'.phase (read-phase s s' (inl t)) w.1)
step-Inv s s' f v (unlock_read t) =
    let w = read-Inv s.phase s s' f v (inr t) in
    (w.0, in_phase s' s.phase s'.phase (read-phase s s' (inr t)) w.1)
step-Inv s s' f v (lock_write t) = LockWrite-Inv s s' f v t
step-Inv s s' f v (unlock_write t) = UnlockWrite-Inv s s' f v t

Reachable-Inv : (s : RwLock) → Reachable s → Few s × Inv s.phase s
unfolding rwlock_init
Reachable-Inv _ start =
    (omega arith, record { pending = refl; woken = refl; none_leaving = refl; departing = refl })
Reachable-Inv _ (step s s' before t) = let w = Reachable-Inv s before in step-Inv s s' w.0 w.1 t

-- While a thread writes, no thread holds the lock for reading, none has been woken to read and none is
-- still leaving, in every state that the threads can reach with fewer than MAX_READERS readers.
pub writing_excludes_readers :
    (s : RwLock)
    → Reachable s
    → s.phase ≡ writing
    → (s.reading ≡ 0) × (s.reader_wait ≡ 0) × (s.leaving ≡ 0)
writing_excludes_readers s reached e =
    let w = in_phase s s.phase writing e (Reachable-Inv s reached).1 in ground (arith, w.1)

-- In a reachable state where no writer has the mutex, each waiting reader has its wake-up posted.
pub no_reader_left_waiting : (s : RwLock) → Reachable s → s.phase ≡ free → s.reader_wait ≡ s.waiting
no_reader_left_waiting s reached e =
    let w = in_phase s s.phase free e (Reachable-Inv s reached).1 in ground (arith, w.woken)

pub parked_state :
    (s : RwLock) → Reachable s → s.phase ≡ parked → Few s × (Announced s × Awaiting s)
parked_state s reached e = let r = Reachable-Inv s reached in (r.0, in_phase s s.phase parked e r.1)
