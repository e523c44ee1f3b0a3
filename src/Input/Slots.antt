-- ===== src/Input/Slots.antt =====
-- The table of devices of libinput.c, which has room for eight and is never cleared.
use mathlib.Core.List.{append-nil, append_assoc}
use wwn_iland.Common.{
  ℕ, ◌%◌, ◌≤◌, ◌≡◌, refl, sym, ap, ◌∙◌, zero, suc, ◌<◌, take, take-few, ◌++◌, inl, inr, Option,
  none, some, List, [], ◌∷◌, arith, ◌==◌, ltb, Bool-cases, Option-cases, length, length-append,
}
use wwn_iland.Input.Events.{MessageType, Message, InputDevice, Event}
use wwn_iland.Input.Receive.{
  PipeEnds, unset, failed, opened, closed, Input, max_devices, find_device, new_device, add_device,
  change_state, keyboard_event, button_event, handle, translate, receive, post, write_pipe,
}
use wwn_iland.Input.Edges.{History}
use wwn_iland.Input.Delivery.{receive_all}

-- The devices that a message and a history announce.
abbrev announced_by : MessageType → Message → List InputDevice
announced_by MessageType.device_added m = new_device m ∷ []
announced_by t m = []

abbrev pub announced : History → List InputDevice
announced [] = []
announced ((m, p) ∷ ms) = announced_by m.event_type m ++ announced ms

module _ {ℓ} {A : Type ℓ} where
  take-take : (n : ℕ) (xs ys : List A) → take n (take n xs ++ ys) ≡ take n (xs ++ ys)
  take-take zero xs ys = refl
  take-take (suc n) [] ys = refl
  take-take (suc n) (x ∷ xs) ys = ap (λ zs. x ∷ zs) (take-take n xs ys)

  take-full : (n : ℕ) (xs ys : List A) → length xs ≡ n → take n (xs ++ ys) ≡ xs
  take-full zero [] ys h = refl
  take-full zero (x ∷ xs) ys h = absurd (omega (arith, h))
  take-full (suc n) [] ys h = absurd (omega (arith, h))
  take-full (suc n) (x ∷ xs) ys h = ap (λ zs. x ∷ zs) (take-full n xs ys (omega (arith, h)))

  length-take : (n : ℕ) (xs : List A) → length (take n xs) ≤ n
  length-take zero xs = omega arith
  length-take (suc n) [] = omega arith
  length-take (suc n) (x ∷ xs) = omega (arith, length-take n xs)

keyboard-devices :
    (g : Input) (m : Message) (dev : Option ℕ) (p : ℕ)
    → (keyboard_event g m dev p).0.devices ≡ g.devices
unfolding keyboard_event
keyboard-devices g m dev p =
    elim (Option-cases
      (change_state g.key_state_map g.pressed_keys (m.key % 1024) (m.key_state == 1))) [
        | inl e ↦ rw (e, keyboard_event) refl
        | inr (r, e) ↦ rw (e, keyboard_event) refl
      ]

button-devices :
    (g : Input) (m : Message) (dev : Option ℕ) (p : ℕ)
    → (button_event g m dev p).0.devices ≡ g.devices
unfolding button_event
button-devices g m dev p =
    elim (Option-cases (
      change_state g.button_state_mask g.pressed_buttons (m.pointer_button % 32)
        (m.pointer_button_state == 1))) [
          | inl e ↦ rw (e, button_event) refl
          | inr (r, e) ↦ rw (e, button_event) refl
        ]

abbrev Fills : List InputDevice → Input → Type 0
Fills ds h = h.devices ≡ take 8 ds

unchanged : (ds after : List InputDevice) → length ds ≤ 8 → after ≡ ds → after ≡ take 8 (ds ++ [])
unchanged ds after b same = same ∙ sym (rw (append-nil ds) (take-few 8 ds b))

add_device-Fills :
    (g : Input) (m : Message) (p : ℕ)
    → length g.devices ≤ 8
    → Fills (g.devices ++ new_device m ∷ []) (add_device g m p).0
unfolding add_device
add_device-Fills g m p b = elim (Bool-cases (ltb (length g.devices) max_devices)) [
  | inl e ↦
      let small : length g.devices < 8 = ground (arith, e) in
      rw e (
        sym (
          take-few 8 (g.devices ++ new_device m ∷ [])
            (omega (arith, small, length-append g.devices (new_device m ∷ [])))))
  | inr e ↦ rw e (sym (take-full 8 g.devices (new_device m ∷ []) (ground (arith, e, b))))
]

handle-Fills :
    (t : MessageType) (g : Input) (m : Message) (dev : Option ℕ) (p : ℕ)
    → length g.devices ≤ 8
    → Fills (g.devices ++ announced_by t m) (handle t g m dev p).0
unfolding handle
handle-Fills MessageType.device_added g m dev p b = add_device-Fills g m p b
handle-Fills MessageType.keyboard_key g m dev p b =
    unchanged g.devices _ b (keyboard-devices g m dev p)
handle-Fills MessageType.pointer_button g m dev p b =
    unchanged g.devices _ b (button-devices g m dev p)
handle-Fills MessageType.device_removed g m dev p b = unchanged g.devices _ b refl
handle-Fills MessageType.pointer_motion g m dev p b = unchanged g.devices _ b refl
handle-Fills MessageType.pointer_axis g m dev p b = unchanged g.devices _ b refl
handle-Fills MessageType.touch_down g m dev p b = unchanged g.devices _ b refl
handle-Fills MessageType.touch_up g m dev p b = unchanged g.devices _ b refl
handle-Fills MessageType.touch_motion g m dev p b = unchanged g.devices _ b refl
handle-Fills MessageType.touch_frame g m dev p b = unchanged g.devices _ b refl
handle-Fills MessageType.other g m dev p b = unchanged g.devices _ b refl

write_pipe-devices : (e : PipeEnds) (g : Input) → (write_pipe e g).devices ≡ g.devices
unfolding write_pipe
write_pipe-devices unset g = refl
write_pipe-devices failed g = refl
write_pipe-devices opened g = refl
write_pipe-devices closed g = refl

post-devices : (o : Option Event) (g : Input) (p : ℕ) → (post o g p).devices ≡ g.devices
unfolding post
post-devices none g p = refl
post-devices (some e) g p = write_pipe-devices g.pipe _

-- The table holds the first eight devices of those that it held before and those that were announced
-- since: a device that is removed keeps its entry, and the ninth to be announced gets none, even
-- when no other is left.
pub removed_devices_stay :
    (g : Input) (ms : History)
    → length g.devices ≤ 8
    → (receive_all g ms).devices ≡ take 8 (g.devices ++ announced ms)
unfolding receive_all receive translate
removed_devices_stay g [] b = sym (rw (append-nil g.devices) (take-few 8 g.devices b))
removed_devices_stay g ((m, p) ∷ ms) b =
    let r = handle m.event_type g m (find_device g m.device_id) p in
    let e : (receive g m p).devices ≡ take 8 (g.devices ++ announced_by m.event_type m) =
      post-devices r.1 r.0 p ∙ handle-Fills m.event_type g m (find_device g m.device_id) p b in
    removed_devices_stay (receive g m p) ms
      (rw e (length-take 8 (g.devices ++ announced_by m.event_type m)))
    ∙ ap (λ ds. take 8 (ds ++ announced ms)) e
    ∙ take-take 8 (g.devices ++ announced_by m.event_type m) (announced ms)
    ∙ ap (take 8) (append_assoc g.devices (announced_by m.event_type m) (announced ms))
