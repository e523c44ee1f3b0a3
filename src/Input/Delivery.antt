-- ===== src/Input/Delivery.antt =====
-- How the events that libinput.c makes of messages reach the client: through the linked queue, in
-- order, with a byte in the pipe for each.
use mathlib.Core.List.{append-nil, append_assoc}
use mathlib.Core.Path.{subst}
use wwn_iland.Common.{
  ℕ, ◌+◌, ◌%◌, ◌≡◌, ◌≢◌, refl, sym, ◌∙◌, ◌⊎◌, inl, inr, Option, none, some, List, [], ◌∷◌, ◌++◌,
  arith, ◌==◌, ltb, Bool-cases, Option-cases, length, All,
}
use wwn_iland.Input.Events.{MessageType, Message, Event}
use wwn_iland.Input.Queue.{alloc_event, queue_event}
use wwn_iland.Input.Receive.{
  PipeEnds, unset, failed, opened, closed, Input, max_devices, find_device, add_device,
  change_state, keyboard_event, button_event, handle, translate, receive, post, write_pipe,
}
use wwn_iland.Input.Edges.{History, reported, queued}
use wwn_iland.Input.Fifo.{Holds, queue_event-Holds}

unfoldable pub receive_all : Input → History → Input
receive_all g [] = g
receive_all g ((m, p) ∷ ms) = receive_all (receive g m p) ms

-- calloc never returns an address that is in use.
abbrev pub Fresh : List ℕ → History → Type 0
Fresh bs [] = Unit {0}
Fresh bs ((m, p) ∷ ms) = (p ≢ 0) × All (λ c. c ≢ p) bs × Fresh bs ms × Fresh (bs ++ p ∷ []) ms

-- The switch leaves the queue and the pipe alone.
record Same (g h : Input) : Type 0 where
  queue : h.queue ≡ g.queue
  pipe : h.pipe ≡ g.pipe
  unread : h.unread ≡ g.unread

Same-refl : (g : Input) → Same g g
Same-refl g = record { queue = refl; pipe = refl; unread = refl }

add_device-Same : (g : Input) (m : Message) (p : ℕ) → Same g (add_device g m p).0
unfolding add_device
add_device-Same g m p = elim (Bool-cases (ltb (length g.devices) max_devices)) [
  | inl e ↦ rw e (record { queue = refl; pipe = refl; unread = refl })
  | inr e ↦ rw e (Same-refl g)
]

keyboard-Same :
    (g : Input) (m : Message) (dev : Option ℕ) (p : ℕ) → Same g (keyboard_event g m dev p).0
unfolding keyboard_event
keyboard-Same g m dev p =
    elim (Option-cases
      (change_state g.key_state_map g.pressed_keys (m.key % 1024) (m.key_state == 1))) [
        | inl e ↦ rw (e, keyboard_event) (Same-refl g)
        | inr (r, e) ↦ rw (e, keyboard_event) (record { queue = refl; pipe = refl; unread = refl })
      ]

button-Same : (g : Input) (m : Message) (dev : Option ℕ) (p : ℕ) → Same g (button_event g m dev p).0
unfolding button_event
button-Same g m dev p =
    elim (Option-cases (
      change_state g.button_state_mask g.pressed_buttons (m.pointer_button % 32)
        (m.pointer_button_state == 1))) [
          | inl e ↦ rw (e, button_event) (Same-refl g)
          | inr (r, e) ↦ rw (e, button_event) (record { queue = refl; pipe = refl; unread = refl })
        ]

handle-Same :
    (t : MessageType) (g : Input) (m : Message) (dev : Option ℕ) (p : ℕ)
    → Same g (handle t g m dev p).0
unfolding handle
handle-Same MessageType.device_added g m dev p = add_device-Same g m p
handle-Same MessageType.device_removed g m dev p = Same-refl g
handle-Same MessageType.keyboard_key g m dev p = keyboard-Same g m dev p
handle-Same MessageType.pointer_motion g m dev p = Same-refl g
handle-Same MessageType.pointer_button g m dev p = button-Same g m dev p
handle-Same MessageType.pointer_axis g m dev p = Same-refl g
handle-Same MessageType.touch_down g m dev p = Same-refl g
handle-Same MessageType.touch_up g m dev p = Same-refl g
handle-Same MessageType.touch_motion g m dev p = Same-refl g
handle-Same MessageType.touch_frame g m dev p = Same-refl g
handle-Same MessageType.other g m dev p = Same-refl g

write_pipe-queue : (e : PipeEnds) (g : Input) → (write_pipe e g).queue ≡ g.queue
unfolding write_pipe
write_pipe-queue unset g = refl
write_pipe-queue failed g = refl
write_pipe-queue opened g = refl
write_pipe-queue closed g = refl

-- The events that are queued, once those of the history `ms` are.
post-Holds :
    (o : Option Event) (g : Input) (p : ℕ) (bs : List ℕ) (es : List Event)
    → Holds g.queue bs es
    → p ≢ 0
    → All (λ c. c ≢ p) bs
    → ((o ≡ none) × Holds (post o g p).queue bs es)
      ⊎ ((e : Event) × (o ≡ some e) × Holds (post o g p).queue (bs ++ p ∷ []) (es ++ e ∷ []))
unfolding post
post-Holds none g p bs es h p0 f = inl (refl, h)
post-Holds (some e) g p bs es h p0 f = inr (
  e,
  refl,
  rw (write_pipe-queue g.pipe (record g { queue = queue_event (alloc_event g.queue p e) p }))
      (queue_event-Holds g.queue p e bs es h p0 f),
)

-- The events that a history of messages makes come into the queue behind those that are there, in the
-- order of the messages, where calloc returns addresses that are not in use.
pub delivered_in_order :
    (g : Input) (ms : History) (bs : List ℕ) (es : List Event)
    → Holds g.queue bs es
    → Fresh bs ms
    → (bs' : List ℕ) × Holds (receive_all g ms).queue bs' (es ++ reported g ms)
unfolding receive_all reported receive translate
delivered_in_order g [] bs es h f = (bs, rw (append-nil es) h)
delivered_in_order g ((m, p) ∷ ms) bs es h f =
    let r = handle m.event_type g m (find_device g m.device_id) p in
    let s = handle-Same m.event_type g m (find_device g m.device_id) p in
    let goes : Option Event → Type 0 = λ o.
      (bs' : List ℕ) × Holds (receive_all (receive g m p) ms).queue bs'
        (es ++ queued o (reported (receive g m p) ms)) in
    elim (post-Holds r.1 r.0 p bs es (rw s.queue h) f.0 f.1) [
      | inl (e, k) ↦ subst goes (sym e) (delivered_in_order (receive g m p) ms bs es k f.2)
      | inr (ev, e, k) ↦
          let (cs, held) =
            delivered_in_order (receive g m p) ms (bs ++ p ∷ []) (es ++ ev ∷ []) k f.3 in
          subst goes (sym e)
            (cs, rw (← append_assoc es (ev ∷ []) (reported (receive g m p) ms)) held)
    ]

write_pipe-opened :
    (e : PipeEnds) (g : Input)
    → e ≡ opened
    → ((write_pipe e g).unread ≡ g.unread + 1) × ((write_pipe e g).pipe ≡ g.pipe)
unfolding write_pipe
write_pipe-opened unset g h = cc
write_pipe-opened failed g h = cc
write_pipe-opened opened g h = (refl, refl)
write_pipe-opened closed g h = cc

post-opened :
    (o : Option Event) (g : Input) (p : ℕ) (es : List Event)
    → g.pipe ≡ opened
    → ((post o g p).unread + length es ≡ g.unread + length (queued o es))
      × ((post o g p).pipe ≡ opened)
unfolding post
post-opened none g p es h = (refl, h)
post-opened (some e) g p es h =
    let (u, k) =
      write_pipe-opened g.pipe (record g { queue = queue_event (alloc_event g.queue p e) p }) h in
    (omega (arith, u), k ∙ h)

-- With the pipe open, one byte is written to it for every event that is queued, so that a client which
-- has emptied both is woken as soon as there is an event again.
pub woken_for_each_event :
    (g : Input) (ms : History)
    → g.pipe ≡ opened
    → ((receive_all g ms).unread ≡ g.unread + length (reported g ms))
      × ((receive_all g ms).pipe ≡ opened)
unfolding receive_all reported receive translate
woken_for_each_event g [] h = (omega arith, h)
woken_for_each_event g ((m, p) ∷ ms) h =
    let r = handle m.event_type g m (find_device g m.device_id) p in
    let s = handle-Same m.event_type g m (find_device g m.device_id) p in
    let (u, k) = post-opened r.1 r.0 p (reported (receive g m p) ms) (s.pipe ∙ h) in
    let (v, l) = woken_for_each_event (receive g m p) ms k in (omega (arith, u, v, s.unread), l)
