-- ===== src/Epoll/KQueue.antt =====
-- kqueue_event.c as it is built where EVFILT_USER exists, on a kqueue that is a parameter.
use wwn_iland.Common.{
  ℕ, zero, suc, ◌<◌, ◌≤◌, ◌≡◌, Bool, true, false, Option, some, none, arith, Errno, Outcome, ok,
  fail, if◌then◌else◌, Option-cases, inl, inr,
}

-- A kqueue with one EVFILT_USER event, as the system documents it: `pending` counts the events that
-- a poll would report, `add_event` is the change with EV_ADD and EV_CLEAR and its error, `trigger`
-- the one with NOTE_TRIGGER, and `fetch` is a poll without a wait, `none` where it reports nothing.
pub record KQueue (K : Type 0) : Type 0 where
  pub pending : K → ℕ
  pub add_event : K → K × Option Errno
  pub trigger : K → K × Option Errno
  pub fetch : K → Option K
  pub add_event_done : (k k' : K) → add_event k ≡ (k', none) → pending k' ≡ pending k
  pub trigger_done : (k k' : K) → trigger k ≡ (k', none) → 0 < pending k'
  pub fetch_some : (k k' : K) → fetch k ≡ some k' → pending k' < pending k
  pub fetch_none : (k : K) → fetch k ≡ none → pending k ≡ 0

-- `KQueueEvent`, with the kqueue that the source passes along.
pub record KQueueEvent (K : Type 0) : Type 0 where
  pub is_triggered : Bool
  pub kq : K

-- The second change, where the event is to be triggered at once.
unfoldable pub registered : {K : Type 0} → K × Option Errno → KQueueEvent K × Outcome (Unit {0})
registered (kq, none) = (record { is_triggered = true; kq = kq }, ok tt)
registered (kq, some e) = (record { is_triggered = true; kq = kq }, fail e)

-- The call of kevent stops at the first change that fails.
unfoldable pub with_event_added :
    {K : Type 0}
    → KQueue K
    → (should_trigger : Bool) → K × Option Errno
    → KQueueEvent K × Outcome (Unit {0})
unfolding registered
with_event_added q should_trigger (kq, none) =
    if should_trigger
    then registered (q.trigger kq)
    else (record { is_triggered = false; kq = kq }, ok tt)
with_event_added q should_trigger (kq, some e) =
    (record { is_triggered = should_trigger; kq = kq }, fail e)

-- `kqueue_event_init` with the registration that its caller makes of the changes it lists.
unfoldable pub kqueue_event_init :
    {K : Type 0} → KQueue K → K → (should_trigger : Bool) → KQueueEvent K × Outcome (Unit {0})
unfolding with_event_added
kqueue_event_init q kq should_trigger = with_event_added q should_trigger (q.add_event kq)

unfoldable pub kqueue_event_is_triggered : {K : Type 0} → KQueueEvent K → Bool
kqueue_event_is_triggered v = v.is_triggered

-- What `kqueue_event_trigger` does after its call of kevent.
unfoldable pub triggered :
    {K : Type 0} → KQueueEvent K → K × Option Errno → KQueueEvent K × Outcome (Unit {0})
triggered v (kq', none) = (record { is_triggered = true; kq = kq' }, ok tt)
triggered v (kq', some e) = (record v { kq = kq' }, fail e)

unfoldable pub kqueue_event_trigger :
    {K : Type 0} → KQueue K → KQueueEvent K → KQueueEvent K × Outcome (Unit {0})
unfolding triggered
kqueue_event_trigger q v = if v.is_triggered then (v, ok tt) else triggered v (q.trigger v.kq)

-- The loop of `kqueue_event_clear`, on fuel.
unfoldable pub drain : {K : Type 0} → KQueue K → (fuel : ℕ) → K → K
drain q zero k = k
drain q (suc fuel) k = elim (q.fetch k) [ none ↦ k | some k' ↦ drain q fuel k' ]

unfoldable pub kqueue_event_clear : {K : Type 0} → KQueue K → KQueueEvent K → KQueueEvent K
unfolding drain
kqueue_event_clear q v = record { is_triggered = false; kq = drain q (q.pending v.kq) v.kq }

-- The fuel is enough: the loop ends, since after it the kqueue has nothing to report.
pub drain-pending :
    {K : Type 0} (q : KQueue K) (fuel : ℕ) (k : K)
    → q.pending k ≤ fuel
    → q.pending (drain q fuel k) ≡ 0
unfolding drain
drain-pending q zero k h = omega (arith, h)
drain-pending q (suc fuel) k h = elim (Option-cases (q.fetch k)) [
  | inl e ↦ rw (e, drain) (q.fetch_none k e)
  | inr (k', e) ↦ rw (e, drain) (drain-pending q fuel k' (omega (arith, h, q.fetch_some k k' e)))
]
