-- ===== src/Input/Pressed.antt =====
-- The keys and buttons that libinput.c takes for pressed.
use wwn_iland.Common.{
  ℕ, zero, suc, ◌+◌, ◌-◌, ◌%◌, ◌<◌, ◌≡◌, ◌⊎◌, inl, inr, refl, sym, ◌∙◌, Bool, true, false, Option,
  none, some, List, [], ◌∷◌, arith, ◌==◌, if◌then◌else◌, Bool-cases, length, get_elem?, get_or, set,
  count, length-set, count-set, count-replicate,
}
use wwn_iland.Input.Queue.{Queue}
use wwn_iland.Input.Calls.{
  make_pipe, libinput_udev_create_context, libinput_unref, libinput_dispatch, dispatch,
  libinput_get_event, Step, create_context, unref, drain_pipe, take_event, keep_running,
  stop_running, take_message, skip_message, Reachable, start, step,
}
use wwn_iland.Input.Events.{MessageType, Message, Event}
use wwn_iland.Input.Receive.{
  Input, initial, find_device, add_device, change_state, keyboard_event, button_event, handle,
  translate, receive, post, write_pipe, PipeEnds, unset, failed, opened, closed,
}

-- The numbers are those of the elements that are pressed.
pub record IsCounted (g : Input) : Type 0 where
  pub keys : g.pressed_keys ≡ count (λ b. b) g.key_state_map
  pub buttons : g.pressed_buttons ≡ count (λ b. b) g.button_state_mask
  pub key_range : length g.key_state_map ≡ 1024
  pub button_range : length g.button_state_mask ≡ 32

get_elem?-get_or :
    (bs : List Bool) (i : ℕ) → i < length bs → get_elem? bs i ≡ some (get_or bs i false)
get_elem?-get_or [] i h = absurd (omega arith)
get_elem?-get_or (b ∷ bs) zero h = refl
get_elem?-get_or (b ∷ bs) (suc i) h = get_elem?-get_or bs i (omega arith)

pub get_or-set :
    (bs : List Bool) (i j : ℕ) (v : Bool)
    → i < length bs
    → get_or (set bs i v) j false ≡ (if i == j then v else get_or bs j false)
get_or-set [] i j v h = absurd (omega arith)
get_or-set (b ∷ bs) zero zero v h = refl
get_or-set (b ∷ bs) zero (suc j) v h = ground arith
get_or-set (b ∷ bs) (suc i) zero v h = ground arith
get_or-set (b ∷ bs) (suc i) (suc j) v h = get_or-set bs i j v (omega arith) ∙ ground arith

-- What changes is the one element, which then is what the message says, and the number with it.
pub record Changes (bs : List Bool) (i : ℕ) (press : Bool) (bs' : List Bool) (n : ℕ) : Type 0 where
  pub before : get_or bs i false ≡ (if press then false else true)
  pub after : bs' ≡ set bs i press
  pub counted : n ≡ count (λ b. b) bs'
  pub range : length bs' ≡ length bs

pub change_state-cases :
    (bs : List Bool) (n i : ℕ) (press : Bool)
    → n ≡ count (λ b. b) bs
    → i < length bs
    → ((change_state bs n i press ≡ none) × (get_or bs i false ≡ press))
      ⊎ ((bs' : List Bool) × (n' : ℕ) × (change_state bs n i press ≡ some (bs', n'))
          × Changes bs i press bs' n')
unfolding change_state
change_state-cases bs n i true c h = elim (Bool-cases (get_or bs i false)) [
  | inl e ↦ inl (rw e, e)
  | inr e ↦ inr (
    set bs i true,
    n + 1,
    rw e,
    record {
      before = e;
      after = refl;
      counted =
          ground
            (arith, e, count-set (λ b. b) bs i (get_or bs i false) true (get_elem?-get_or bs i h));
      range = length-set bs i true;
    },
  )
]
change_state-cases bs n i false c h = elim (Bool-cases (get_or bs i false)) [
  | inr e ↦ inl (rw e, e)
  | inl e ↦ inr (
    set bs i false,
    n - 1,
    rw e,
    record {
      before = e;
      after = refl;
      counted =
          ground
            (arith, e, count-set (λ b. b) bs i (get_or bs i false) false (get_elem?-get_or bs i h));
      range = length-set bs i false;
    },
  )
]

keyboard-IsCounted :
    (g : Input) (m : Message) (dev : Option ℕ) (p : ℕ)
    → IsCounted g
    → IsCounted (keyboard_event g m dev p).0
unfolding keyboard_event
keyboard-IsCounted g m dev p v =
    elim (change_state-cases g.key_state_map g.pressed_keys (m.key % 1024) (m.key_state == 1) v.keys
      (omega (arith, v.key_range))) [
        | inl (e, _) ↦ rw (e, keyboard_event) v
        | inr (bs, n, e, c) ↦
            rw (e, keyboard_event)
              (record {
                keys = c.counted;
                buttons = v.buttons;
                key_range = omega (arith, c.range, v.key_range);
                button_range = v.button_range;
              })
      ]

button-IsCounted :
    (g : Input) (m : Message) (dev : Option ℕ) (p : ℕ)
    → IsCounted g
    → IsCounted (button_event g m dev p).0
unfolding button_event
button-IsCounted g m dev p v =
    elim (change_state-cases g.button_state_mask g.pressed_buttons (m.pointer_button % 32)
      (m.pointer_button_state == 1) v.buttons (omega (arith, v.button_range))) [
        | inl (e, _) ↦ rw (e, button_event) v
        | inr (bs, n, e, c) ↦
            rw (e, button_event)
              (record {
                keys = v.keys;
                buttons = c.counted;
                key_range = v.key_range;
                button_range = omega (arith, c.range, v.button_range);
              })
      ]

add_device-IsCounted :
    (g : Input) (m : Message) (p : ℕ) → IsCounted g → IsCounted (add_device g m p).0
unfolding add_device
add_device-IsCounted g m p v = ground arith

pub handle-IsCounted :
    (t : MessageType) (g : Input) (m : Message) (dev : Option ℕ) (p : ℕ)
    → IsCounted g
    → IsCounted (handle t g m dev p).0
unfolding handle
handle-IsCounted MessageType.device_added g m dev p v = add_device-IsCounted g m p v
handle-IsCounted MessageType.device_removed g m dev p v = v
handle-IsCounted MessageType.keyboard_key g m dev p v = keyboard-IsCounted g m dev p v
handle-IsCounted MessageType.pointer_motion g m dev p v = v
handle-IsCounted MessageType.pointer_button g m dev p v = button-IsCounted g m dev p v
handle-IsCounted MessageType.pointer_axis g m dev p v = v
handle-IsCounted MessageType.touch_down g m dev p v = v
handle-IsCounted MessageType.touch_up g m dev p v = v
handle-IsCounted MessageType.touch_motion g m dev p v = v
handle-IsCounted MessageType.touch_frame g m dev p v = v
handle-IsCounted MessageType.other g m dev p v = v

write_pipe-IsCounted : (e : PipeEnds) (g : Input) → IsCounted g → IsCounted (write_pipe e g)
unfolding write_pipe
write_pipe-IsCounted unset g v = ground arith
write_pipe-IsCounted failed g v = ground arith
write_pipe-IsCounted opened g v = ground arith
write_pipe-IsCounted closed g v = v

post-IsCounted : (e : Option Event) (g : Input) (p : ℕ) → IsCounted g → IsCounted (post e g p)
unfolding post
post-IsCounted none g p v = v
post-IsCounted (some e) g p v = write_pipe-IsCounted g.pipe _ (ground arith)

pub receive-IsCounted : (g : Input) (m : Message) (p : ℕ) → IsCounted g → IsCounted (receive g m p)
unfolding receive translate
receive-IsCounted g m p v =
    post-IsCounted _ _ p (handle-IsCounted m.event_type g m (find_device g m.device_id) p v)

make_pipe-IsCounted :
    (e : PipeEnds) (piped : Bool) (g : Input) → IsCounted g → IsCounted (make_pipe e piped g)
unfolding make_pipe
make_pipe-IsCounted opened piped g v = v
make_pipe-IsCounted unset piped g v = ground arith
make_pipe-IsCounted failed piped g v = ground arith
make_pipe-IsCounted closed piped g v = ground arith

dispatch-IsCounted : (e : PipeEnds) (g : Input) → IsCounted g → IsCounted (dispatch e g)
unfolding dispatch
dispatch-IsCounted opened g v = ground arith
dispatch-IsCounted unset g v = v
dispatch-IsCounted failed g v = v
dispatch-IsCounted closed g v = v

Step-IsCounted : (g h : Input) → IsCounted g → Step g h → IsCounted h
unfolding libinput_udev_create_context libinput_unref libinput_dispatch libinput_get_event
Step-IsCounted g _ v (create_context piped subscribed user) =
    let w = make_pipe-IsCounted g.pipe piped g v in
    ground (arith, w.keys, w.buttons, w.key_range, w.button_range)
Step-IsCounted g _ v unref = ground arith
Step-IsCounted g _ v drain_pipe = dispatch-IsCounted g.pipe g v
Step-IsCounted g _ v take_event = ground arith
Step-IsCounted g _ v (keep_running at on) = ground arith
Step-IsCounted g _ v (stop_running at on) = ground arith
Step-IsCounted g _ v (take_message m p at) =
    let w = receive-IsCounted g m p v in
    ground (arith, w.keys, w.buttons, w.key_range, w.button_range)
Step-IsCounted g _ v (skip_message at) = ground arith

initial-IsCounted : (memory : Queue) → IsCounted (initial memory)
unfolding initial
initial-IsCounted memory = record {
  keys = sym (count-replicate (λ b. b) 1024 false refl);
  buttons = sym (count-replicate (λ b. b) 32 false refl);
  key_range = refl;
  button_range = refl;
}

-- In every state that the client and the thread can reach, `pressed_keys` and `pressed_buttons` are the
-- numbers of the keys and buttons whose bits are set.
pub Reachable-IsCounted : (memory : Queue) (g : Input) → Reachable memory g → IsCounted g
Reachable-IsCounted memory _ start = initial-IsCounted memory
Reachable-IsCounted memory _ (step g h r st) =
    Step-IsCounted g h (Reachable-IsCounted memory g r) st
