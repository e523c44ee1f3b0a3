-- ===== src/Input/Queue.antt =====
-- The queue of events of libinput.c: nodes in memory, linked by their `next` fields. Addresses are
-- numbers, and 0 is NULL.
use wwn_iland.Common.{ℕ, if◌then◌else◌, ◌==◌}
use wwn_iland.Input.Events.{Event}

pub record Queue : Type 0 where
  pub ev_head : ℕ
  pub ev_tail : ℕ
  -- the memory of the events, by address
  pub event : ℕ → Event
  pub next : ℕ → ℕ

abbrev pub update {ℓ} : {A : Type ℓ} → (ℕ → A) → ℕ → A → ℕ → A
update f p v a = if a == p then v else f a

-- alloc_event at the address `p` that calloc returns, with what its caller fills in.
unfoldable pub alloc_event : Queue → ℕ → Event → Queue
alloc_event q p e = record q { event = update q.event p e; next = update q.next p 0 }

-- The part of queue_event under the lock.
unfoldable pub queue_event : Queue → ℕ → Queue
queue_event q p =
    if q.ev_head == 0
    then record q { ev_head = p; ev_tail = p }
    else record q { next = update q.next q.ev_tail p; ev_tail = p }

-- libinput_get_event: the rest of the queue and the address of the event.
unfoldable pub get_event : Queue → Queue × ℕ
get_event q = if q.ev_head == 0 then (q, 0) else (
  record q { ev_head = q.next q.ev_head; ev_tail = if q.next q.ev_head == 0 then 0 else q.ev_tail },
  q.ev_head,
)
