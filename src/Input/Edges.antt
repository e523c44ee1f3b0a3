-- ===== src/Input/Edges.antt =====
-- The presses and releases of a key that libinput.c reports, against those that the daemon sends. Keys
-- whose numbers agree in their last ten bits share an element of the map.
use wwn_iland.Common.{
  ℕ, ◌%◌, ◌≡◌, ◌≢◌, inl, inr, refl, sym, ap, ◌∙◌, Bool, true, false, Option, none, some, List, [],
  ◌∷◌, ◌++◌, arith, ◌==◌, if◌then◌else◌, ltb, Bool-cases, Option-cases, length, get_or, All,
}
use wwn_iland.Input.Events.{
  MessageType, Message, Payload, no_payload, keyboard, pointer, touch, EventType, Event,
}
use wwn_iland.Input.Receive.{
  PipeEnds, unset, failed, opened, closed, Input, made, find_device, add_device, max_devices,
  change_state, keyboard_event, button_event, motion_event, axis_event, touch_event, handle,
  translate, receive, post, write_pipe,
}
use wwn_iland.Input.Pressed.{IsCounted, change_state-cases, Changes, get_or-set, receive-IsCounted}

-- A history: messages, with the addresses that calloc returns.
abbrev pub History : Type 0
History = List (Message × ℕ)

abbrev pub queued : Option Event → List Event → List Event
queued none es = es
queued (some e) es = e ∷ es

-- The events that the messages make, in the order in which they are queued.
unfoldable pub reported : Input → History → List Event
reported g [] = []
reported g ((m, p) ∷ ms) = queued (translate g m p).1 (reported (receive g m p) ms)

-- The presses and releases of a key in a payload, an event, and a list of them.
abbrev states_in : ℕ → Payload → List Bool
states_in k no_payload = []
states_in k (keyboard r) = if r.key % 1024 == k then (r.key_state == 1) ∷ [] else []
states_in k (pointer r) = []
states_in k (touch r) = []

abbrev states_of : ℕ → Option Event → List Bool
states_of k none = []
states_of k (some e) = states_in k e.payload

abbrev pub key_states : ℕ → List Event → List Bool
key_states k [] = []
key_states k (e ∷ es) = states_in k e.payload ++ key_states k es

key_states-queued :
    (k : ℕ) (o : Option Event) (es : List Event)
    → key_states k (queued o es) ≡ states_of k o ++ key_states k es
key_states-queued k none es = refl
key_states-queued k (some e) es = refl

-- The presses and releases of a key that a message asks for.
abbrev asked_by : MessageType → ℕ → Message → List Bool
asked_by MessageType.keyboard_key k m = if m.key % 1024 == k then (m.key_state == 1) ∷ [] else []
asked_by t k m = []

abbrev pub asked : ℕ → History → List Bool
asked k [] = []
asked k ((m, p) ∷ ms) = asked_by m.event_type k m ++ asked k ms

-- The changes in a list of states, after the state `b`, and the last state.
abbrev pub changes : Bool → List Bool → List Bool
changes b [] = []
changes true (true ∷ xs) = changes true xs
changes true (false ∷ xs) = false ∷ changes false xs
changes false (true ∷ xs) = true ∷ changes true xs
changes false (false ∷ xs) = changes false xs

abbrev last_state : Bool → List Bool → Bool
last_state b [] = b
last_state b (x ∷ xs) = last_state x xs

changes-append :
    (b : Bool) (xs ys : List Bool)
    → changes b (xs ++ ys) ≡ changes b xs ++ changes (last_state b xs) ys
changes-append b [] ys = refl
changes-append true (true ∷ xs) ys = changes-append true xs ys
changes-append true (false ∷ xs) ys = ap (λ zs. false ∷ zs) (changes-append false xs ys)
changes-append false (true ∷ xs) ys = ap (λ zs. true ∷ zs) (changes-append true xs ys)
changes-append false (false ∷ xs) ys = changes-append false xs ys

abbrev pub is_held : Input → ℕ → Bool
is_held g k = get_or g.key_state_map k false

-- One step: what is reported and the state that it leaves.
record Follows (k : ℕ) (g : Input) (xs : List Bool) (r : Input × Option Event) : Type 0 where
  states : states_of k r.1 ≡ changes (is_held g k) xs
  held : is_held r.0 k ≡ last_state (is_held g k) xs

abbrev key_report : Message → Option ℕ → ℕ → Event
key_report m dev n = record {
  type = EventType.keyboard_key;
  device = dev;
  payload = keyboard (record {
    key = m.key;
    key_state = m.key_state;
    seat_key_count = n;
    time_usec = m.time_usec;
  });
}

same_state : (b s : Bool) → b ≡ s → [] ≡ changes b (s ∷ [])
same_state true true e = refl
same_state true false e = cc
same_state false true e = cc
same_state false false e = refl

other_state : (b s : Bool) → b ≡ (if s then false else true) → s ∷ [] ≡ changes b (s ∷ [])
other_state true true e = cc
other_state true false e = refl
other_state false true e = refl
other_state false false e = cc

made_silent : (k p : ℕ) (e : Event) → states_in k e.payload ≡ [] → states_of k (made p e) ≡ []
made_silent k p e h = elim (Bool-cases (p == 0)) [ inl z ↦ rw z | inr z ↦ rw z h ]

module _ (g : Input) (m : Message) (dev : Option ℕ) (p k : ℕ) (v : IsCounted g) (p0 : p ≢ 0) where
  unchanged-Follows :
      is_held g (m.key % 1024) ≡ (m.key_state == 1)
      → Follows k g (asked_by MessageType.keyboard_key k m) (g, none)
  unchanged-Follows h = elim (Bool-cases (m.key % 1024 == k)) [
    | inr other ↦ rw other (record { states = refl; held = refl })
    | inl same ↦
        let e : m.key % 1024 ≡ k = ground (arith, same) in
        let h' : is_held g k ≡ (m.key_state == 1) = rw e at h in
        rw same (record { states = same_state _ _ h'; held = h' })
  ]

  changed-Follows :
      (bs : List Bool) (n : ℕ)
      → Changes g.key_state_map (m.key % 1024) (m.key_state == 1) bs n
      → Follows k g
          (asked_by MessageType.keyboard_key k m)
          (record g { key_state_map = bs; pressed_keys = n }, made p (key_report m dev n))
  changed-Follows bs n c =
      let w =
        get_or-set g.key_state_map (m.key % 1024) k (m.key_state == 1)
          (omega (arith, v.key_range)) in
      let z : (p == 0) ≡ false = ground (arith, p0) in
      let now : get_or bs k false ≡ (if m.key % 1024 == k then m.key_state == 1 else is_held g k) =
        rw c.after w in
      elim (Bool-cases (m.key % 1024 == k)) [
        | inr other ↦ rw (other, z) (record { states = rw other; held = rw other at now })
        | inl same ↦
            let e : m.key % 1024 ≡ k = ground (arith, same) in
            let h : is_held g k ≡ (if m.key_state == 1 then false else true) = rw e at (c.before) in
            rw (same, z) (record { states = rw same (other_state _ _ h); held = rw same at now })
      ]

  keyboard-Follows : Follows k g (asked_by MessageType.keyboard_key k m) (keyboard_event g m dev p)
  unfolding keyboard_event
  keyboard-Follows =
      elim (change_state-cases g.key_state_map g.pressed_keys (m.key % 1024) (m.key_state == 1)
        v.keys (omega (arith, v.key_range))) [
          | inl (e, same) ↦ rw (e, keyboard_event) (unchanged-Follows same)
          | inr (bs, n, e, c) ↦ rw (e, keyboard_event) (changed-Follows bs n c)
        ]

  button-Follows : Follows k g [] (button_event g m dev p)
  unfolding button_event
  button-Follows =
      elim (Option-cases (
        change_state g.button_state_mask g.pressed_buttons (m.pointer_button % 32)
          (m.pointer_button_state == 1))) [
            | inl e ↦ rw (e, button_event) (record { states = refl; held = refl })
            | inr ((bs, n), e) ↦
                rw (e, button_event) (record { states = made_silent k p _ refl; held = refl })
          ]

add_device-Follows : (g : Input) (m : Message) (p k : ℕ) → Follows k g [] (add_device g m p)
unfolding add_device
add_device-Follows g m p k = elim (Bool-cases (ltb (length g.devices) max_devices)) [
  | inl e ↦ rw e (record { states = made_silent k p _ refl; held = refl })
  | inr e ↦ rw e (record { states = refl; held = refl })
]

handle-Follows :
    (t : MessageType) (g : Input) (m : Message) (dev : Option ℕ) (p k : ℕ)
    → IsCounted g
    → p ≢ 0
    → Follows k g (asked_by t k m) (handle t g m dev p)
unfolding handle motion_event axis_event touch_event
handle-Follows MessageType.device_added g m dev p k v z = add_device-Follows g m p k
handle-Follows MessageType.device_removed g m dev p k v z = record {
  states = made_silent k p _ refl;
  held = refl;
}
handle-Follows MessageType.keyboard_key g m dev p k v z = keyboard-Follows g m dev p k v z
handle-Follows MessageType.pointer_motion g m dev p k v z = record {
  states = made_silent k p _ refl;
  held = refl;
}
handle-Follows MessageType.pointer_button g m dev p k v z = button-Follows g m dev p k v z
handle-Follows MessageType.pointer_axis g m dev p k v z = record {
  states = made_silent k p _ refl;
  held = refl;
}
handle-Follows MessageType.touch_down g m dev p k v z = record {
  states = made_silent k p _ refl;
  held = refl;
}
handle-Follows MessageType.touch_up g m dev p k v z = record {
  states = made_silent k p _ refl;
  held = refl;
}
handle-Follows MessageType.touch_motion g m dev p k v z = record {
  states = made_silent k p _ refl;
  held = refl;
}
handle-Follows MessageType.touch_frame g m dev p k v z = record {
  states = made_silent k p _ refl;
  held = refl;
}
handle-Follows MessageType.other g m dev p k v z = record { states = refl; held = refl }

write_pipe-map : (e : PipeEnds) (g : Input) → (write_pipe e g).key_state_map ≡ g.key_state_map
unfolding write_pipe
write_pipe-map unset g = refl
write_pipe-map failed g = refl
write_pipe-map opened g = refl
write_pipe-map closed g = refl

post-map : (e : Option Event) (g : Input) (p : ℕ) → (post e g p).key_state_map ≡ g.key_state_map
unfolding post
post-map none g p = refl
post-map (some e) g p = write_pipe-map g.pipe _

-- Where memory is given, the presses and releases of a key that the library reports are exactly the
-- changes among those that the daemon sends: a second press, or a release of what is not pressed, is
-- left out, and nothing else is.
pub reported-changes :
    (g : Input) (ms : History) (k : ℕ)
    → IsCounted g
    → All (λ mp. mp.1 ≢ 0) ms
    → key_states k (reported g ms) ≡ changes (get_or g.key_state_map k false) (asked k ms)
unfolding reported translate receive
reported-changes g [] k v z = refl
reported-changes g ((m, p) ∷ ms) k v z =
    let f = handle-Follows m.event_type g m (find_device g m.device_id) p k v z.0 in
    let r = handle m.event_type g m (find_device g m.device_id) p in
    let held : is_held (receive g m p) k ≡ last_state (is_held g k) (asked_by m.event_type k m) =
      ap (λ bs. get_or bs k false) (post-map r.1 r.0 p) ∙ f.held in
    let rest = reported-changes (receive g m p) ms k (receive-IsCounted g m p v) z.1 in
    key_states-queued k r.1 (reported (receive g m p) ms)
    ∙ ap (λ xs. xs ++ key_states k (reported (receive g m p) ms)) f.states
    ∙ ap (λ ys. changes (is_held g k) (asked_by m.event_type k m) ++ ys)
        (rest ∙ ap (λ b. changes b (asked k ms)) held)
    ∙ sym (changes-append (is_held g k) (asked_by m.event_type k m) (asked k ms))
