-- ===== src/Input/Fifo.antt =====
-- The linked queue of libinput.c as a list of events, first in first out.
use mathlib.Core.Path.{subst}
use wwn_iland.Common.{
  ℕ, ◌≡◌, ◌≢◌, refl, sym, ap, ◌∙◌, true, false, List, [], ◌∷◌, ◌++◌, arith, ◌==◌, if◌then◌else◌,
  get_last, All, All-append_one,
}
use wwn_iland.Input.Events.{Event}
use wwn_iland.Input.Queue.{Queue, update, alloc_event, queue_event, get_event}

-- The nodes from the address `a` on are those at the addresses listed, and then comes NULL.
abbrev Links : (ℕ → ℕ) → ℕ → List ℕ → Type 0
Links next a [] = a ≡ 0
Links next a (b ∷ bs) = (a ≡ b) × (b ≢ 0) × Links next (next b) bs

abbrev Distinct : List ℕ → Type 0
Distinct [] = Unit {0}
Distinct (b ∷ bs) = All (λ c. c ≢ b) bs × Distinct bs

abbrev events_at : (ℕ → Event) → List ℕ → List Event
events_at event [] = []
events_at event (b ∷ bs) = event b ∷ events_at event bs

-- The queue holds the events `es`, in this order, at the addresses `bs`.
pub record Holds (q : Queue) (bs : List ℕ) (es : List Event) : Type 0 where
  pub links : Links q.next q.ev_head bs
  pub tail : q.ev_tail ≡ get_last bs 0
  pub distinct : Distinct bs
  pub events : events_at q.event bs ≡ es

Links-update :
    (next : ℕ → ℕ) (p v a : ℕ) (bs : List ℕ)
    → All (λ c. c ≢ p) bs
    → Links next a bs
    → Links (update next p v) a bs
Links-update next p v a [] f h = h
Links-update next p v a (b ∷ bs) f h =
    let e : (b == p) ≡ false = ground (arith, f.0) in
    (h.0, h.1, rw e (Links-update next p v (next b) bs f.1 h.2))

events_at-update :
    (event : ℕ → Event) (p : ℕ) (e : Event) (bs : List ℕ)
    → All (λ c. c ≢ p) bs
    → events_at (update event p e) bs ≡ events_at event bs
events_at-update event p e [] f = refl
events_at-update event p e (b ∷ bs) f =
    let n : (b == p) ≡ false = ground (arith, f.0) in rw (n, events_at-update event p e bs f.1)

get_last-ne : (b a : ℕ) (bs : List ℕ) → All (λ c. c ≢ a) (b ∷ bs) → get_last (b ∷ bs) 0 ≢ a
get_last-ne b a [] f = f.0
get_last-ne b a (c ∷ bs) f = get_last-ne c a bs f.1

-- The new node behind the last one.
Links-append :
    (next : ℕ → ℕ) (p a b : ℕ) (bs : List ℕ)
    → next p ≡ 0
    → p ≢ 0
    → All (λ c. c ≢ p) (b ∷ bs)
    → Distinct (b ∷ bs)
    → Links next a (b ∷ bs)
    → Links (update next (get_last (b ∷ bs) 0) p) a ((b ∷ bs) ++ p ∷ [])
Links-append next p a b [] z p0 f d h =
    let e : (b == b) ≡ true = ground arith in
    let n : (p == b) ≡ false = ground (arith, f.0) in (h.0, h.1, (rw e refl, p0, rw n z))
Links-append next p a b (c ∷ bs) z p0 f d h =
    let n : (b == get_last (c ∷ bs) 0) ≡ false = ground (arith, get_last-ne c b bs d.0) in
    (h.0, h.1, rw n (Links-append next p (next b) c bs z p0 f.1 d.1 h.2))

get_last-append : (b p : ℕ) (bs : List ℕ) → get_last (b ∷ bs ++ p ∷ []) 0 ≡ p
get_last-append b p [] = refl
get_last-append b p (c ∷ bs) = get_last-append c p bs

Distinct-append :
    (bs : List ℕ) (p : ℕ) → Distinct bs → All (λ c. c ≢ p) bs → Distinct (bs ++ p ∷ [])
Distinct-append [] p d f = (tt, tt)
Distinct-append (b ∷ bs) p d f =
    (All-append_one (λ c. c ≢ b) bs p d.0 (λ e. f.0 (sym e)), Distinct-append bs p d.1 f.1)

events_at-append :
    (event : ℕ → Event) (bs : List ℕ) (p : ℕ)
    → events_at event (bs ++ p ∷ []) ≡ events_at event bs ++ event p ∷ []
events_at-append event [] p = refl
events_at-append event (b ∷ bs) p = ap (λ es. event b ∷ es) (events_at-append event bs p)

-- A new event, at an address that the queue does not use, stands behind the others.
pub queue_event-Holds :
    (q : Queue) (p : ℕ) (e : Event) (bs : List ℕ) (es : List Event)
    → Holds q bs es
    → p ≢ 0
    → All (λ c. c ≢ p) bs
    → Holds (queue_event (alloc_event q p e) p) (bs ++ p ∷ []) (es ++ e ∷ [])
unfolding queue_event alloc_event
queue_event-Holds q p e [] es h p0 f =
    let z : q.ev_head ≡ 0 = h.links in
    let t : (q.ev_head == 0) ≡ true = ground (arith, z) in
    let r : (p == p) ≡ true = ground arith in
    rw t (record {
      links = (refl, p0, rw r refl);
      tail = refl;
      distinct = (tt, tt);
      events = rw r (ap (λ xs. xs ++ e ∷ []) h.events);
    })
queue_event-Holds q p e (b ∷ bs) es h p0 f =
    let t : (q.ev_head == 0) ≡ false = ground (arith, h.links.0, h.links.1) in
    let r : (p == p) ≡ true = ground arith in
    let l =
      Links-append (update q.next p 0) p q.ev_head b bs (rw r refl) p0 f h.distinct
        (Links-update q.next p 0 q.ev_head (b ∷ bs) f h.links) in
    rw t (record {
      links =
          subst (λ a. Links (update (update q.next p 0) a p) q.ev_head ((b ∷ bs) ++ p ∷ []))
            (sym h.tail) l;
      tail = sym (get_last-append b p bs);
      distinct = Distinct-append (b ∷ bs) p h.distinct f;
      events =
          events_at-append (update q.event p e) (b ∷ bs) p
          ∙ ap (λ xs. xs ++ update q.event p e p ∷ [])
              (events_at-update q.event p e (b ∷ bs) f ∙ h.events)
          ∙ rw r refl;
    })

-- The first event is handed out and the others stay, or NULL where there is none.
abbrev pub Taken : Queue → List Event → Queue × ℕ → Type 0
Taken q [] r = r ≡ (q, 0)
Taken q (e ∷ es) r = (r.1 ≢ 0) × (q.event r.1 ≡ e) × ((bs : List ℕ) × Holds r.0 bs es)

tail_after :
    (next : ℕ → ℕ) (a t : ℕ) (b : ℕ) (bs : List ℕ)
    → Links next a bs
    → t ≡ get_last (b ∷ bs) 0
    → (if a == 0 then 0 else t) ≡ get_last bs 0
tail_after next a t b [] l e = let z : (a == 0) ≡ true = ground (arith, l) in rw z
tail_after next a t b (c ∷ bs) l e = let z : (a == 0) ≡ false = ground (arith, l.0, l.1) in rw z e

-- libinput_get_event takes the first event out of a queue that holds the events `es`, and the queue
-- holds the others then; where there is none, it returns NULL and changes nothing.
pub get_event-Taken :
    (q : Queue) (bs : List ℕ) (es : List Event) → Holds q bs es → Taken q es (get_event q)
unfolding get_event
get_event-Taken q [] [] h = let z : (q.ev_head == 0) ≡ true = ground (arith, h.links) in rw z refl
get_event-Taken q [] (e ∷ es) h = let c = h.events in cc
get_event-Taken q (b ∷ bs) [] h = let c = h.events in cc
get_event-Taken q (b ∷ bs) (e ∷ es) h =
    let z : (q.ev_head == 0) ≡ false = ground (arith, h.links.0, h.links.1) in
    let c = h.events in
    rw z (
      λ n. h.links.1 (sym (h.links.0) ∙ n),
      ap q.event h.links.0 ∙ ground (arith, c),
      (
        bs,
        record {
          links = rw h.links.0 h.links.2;
          tail =
              tail_after q.next (q.next q.ev_head) q.ev_tail b bs (rw h.links.0 h.links.2) h.tail;
          distinct = h.distinct.1;
          events = ground (arith, c);
        },
      ),
    )
