-- ===== src/Epoll/RwLock/Progress.antt =====
-- A writer that waits in rwlock_lock_write of rwlock.c gets the lock, once the readers that are inside
-- leave.
use wwn_iland.Common.{ℕ, zero, suc, ◌+◌, ◌-◌, ◌*◌, ◌<◌, ◌≤◌, ◌≡◌, ◌⊎◌, inl, inr, refl, arith}
use wwn_iland.Epoll.RwLock.{
  max_readers, parked, writing, RwLock, read_after_wait, start_leaving, depart, depart_last,
  wake_writer, write_after_wait, Step, lock_read, unlock_read, lock_write, Reachable, step,
}
use wwn_iland.Epoll.RwLock.Exclusion.{Few, Announced, Awaiting, parked_state}

-- What is left to be done before the writer is woken.
abbrev weight : RwLock → ℕ
weight s = 4 * s.reader_wait + 3 * s.reading + 2 * s.leaving + s.posting

-- A step that lets the writer in, or brings it nearer to that.
abbrev Nearer : RwLock → Type 0
Nearer s =
    (s' : RwLock) × Step s s'
    × ((s'.phase ≡ writing) ⊎ ((s'.phase ≡ parked) × (weight s' < weight s)))

zero_or_positive : (n : ℕ) → (n ≡ 0) ⊎ (0 < n)
zero_or_positive zero = inl refl
zero_or_positive (suc n) = inr (omega arith)

reader_returns :
    (s : RwLock) → s.phase ≡ parked → 0 < s.reader_wait → s.reader_wait ≤ s.waiting → Nearer s
reader_returns s e h w = (_, lock_read (read_after_wait h (omega arith)), inr (e, omega arith))

reader_leaves : (s : RwLock) → s.phase ≡ parked → Few s → Announced s → 0 < s.reading → Nearer s
reader_leaves s e f a h =
    let p = a.pending in (_, unlock_read (start_leaving h (omega arith)), inr (e, omega arith))

reader_departs : (s : RwLock) → s.phase ≡ parked → 0 < s.leaving → Nearer s
reader_departs s e h =
    elim (zero_or_positive
      ((s.readers_departing - 1 - max_readers) + (max_readers - (s.readers_departing - 1)))) [
        | inl d ↦ (_, unlock_read (depart_last h (omega arith)), inr (e, omega arith))
        | inr d ↦ (_, unlock_read (depart h (ground arith)), inr (e, omega arith))
      ]

writer_enters : (s : RwLock) → s.phase ≡ parked → s.posting + s.writer_wait ≡ 1 → Nearer s
writer_enters s e h = elim (zero_or_positive s.posting) [
  | inl z ↦ (_, lock_write (write_after_wait e (omega arith)), inl refl)
  | inr p ↦ (_, unlock_read (wake_writer p), inr (e, omega arith))
]

nearer : (s : RwLock) → s.phase ≡ parked → Few s → Announced s → Awaiting s → Nearer s
nearer s e f a c = elim (zero_or_positive s.reader_wait) [
  | inr h ↦ reader_returns s e h a.woken
  | inl r ↦ elim (zero_or_positive s.reading) [
    | inr h ↦ reader_leaves s e f a h
    | inl i ↦ elim (zero_or_positive s.leaving) [
      | inr h ↦ reader_departs s e h
      | inl l ↦ writer_enters s e (ground (arith, c, r, i, l))
    ]
  ]
]

-- Steps one after another.
pub data Run : RwLock → RwLock → Type 0 where
  stay : (s : RwLock) → Run s s
  go : (s s' s'' : RwLock) → Step s s' → Run s' s'' → Run s s''

gets_in_within :
    (n : ℕ)
    → (s : RwLock) → Reachable s
    → s.phase ≡ parked
    → weight s < n
    → (s' : RwLock) × Run s s' × (s'.phase ≡ writing)
gets_in_within zero s reached e b = ground arith
gets_in_within (suc n) s reached e b =
    let w = parked_state s reached e in
    let m = nearer s e w.0 w.1.0 w.1.1 in
    elim m.2 [
      | inl i ↦ (m.0, go s m.0 m.0 m.1 (stay m.0), i)
      | inr p ↦
          let r = gets_in_within n m.0 (step s m.0 reached m.1) p.0 (omega arith) in
          (r.0, go s m.0 r.0 m.1 r.1, r.2)
    ]

-- From every state that the threads can reach with fewer than MAX_READERS readers and where a writer
-- waits, some steps of the threads lead to a state where the writer has the lock.
pub waiting_writer_gets_in :
    (s : RwLock) → Reachable s → s.phase ≡ parked → (s' : RwLock) × Run s s' × (s'.phase ≡ writing)
waiting_writer_gets_in s reached e = gets_in_within (suc (weight s)) s reached e (omega arith)
