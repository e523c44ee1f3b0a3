-- ===== src/Input/Receive.antt =====
-- recv_thread of libinput.c: what the library does with a message of the input daemon. The bits of
-- `key_state_map` and `button_state_mask` are lists of 1024 and 32 truth values; bit `key % 8` of byte
-- `key / 8` is the element `key`.
use wwn_iland.Common.{
  take, ℕ, ◌+◌, ◌-◌, ◌%◌, Bool, true, false, Option, none, some, List, [], ◌∷◌, ◌++◌, if◌then◌else◌,
  ltb, ◌==◌, length, get_or, set, replicate, find_index,
}
use wwn_iland.Input.Events.{
  MessageType, Message, InputDevice, PointerEvent, no_payload, keyboard, pointer, touch, EventType,
  Event,
}
use wwn_iland.Input.Queue.{Queue, alloc_event, queue_event}

abbrev pub max_devices : ℕ
max_devices = 8

-- The descriptors `pipe_r` and `pipe_w`, which change together: both 0 as static variables start, -1
-- and 0 where the first pipe failed, those of a pipe, or both -1.
pub data PipeEnds : Type 0 where
  unset failed opened closed : PipeEnds

-- Where recv_thread is: not created, at the test of `running`, in mach_msg, or returned.
pub data ThreadPlace : Type 0 where
  absent at_test receiving ended : ThreadPlace

-- The static `g` of libinput.c. `unread` bytes are in the pipe, and `stray` bytes went to descriptor 0.
pub record Input : Type 0 where
  pub devices : List InputDevice
  pub queue : Queue
  pub pipe : PipeEnds
  pub unread : ℕ
  pub stray : ℕ
  pub thread : ThreadPlace
  pub running : Bool
  pub connected : Bool
  pub pressed_keys : ℕ
  pub pressed_buttons : ℕ
  pub button_state_mask : List Bool
  pub key_state_map : List Bool
  pub user_data : ℕ

-- `memory` is what lies at the addresses that calloc will return.
unfoldable pub initial : Queue → Input
initial memory = record {
  devices = [];
  queue = record memory { ev_head = 0; ev_tail = 0 };
  pipe = unset;
  unread = 0;
  stray = 0;
  thread = absent;
  running = false;
  connected = false;
  pressed_keys = 0;
  pressed_buttons = 0;
  button_state_mask = replicate 32 false;
  key_state_map = replicate 1024 false;
  user_data = 0;
}

-- The event, unless alloc_event got no memory.
abbrev pub made : ℕ → Event → Option Event
made p e = if p == 0 then none else some e

-- The loop that looks the device of a message up.
unfoldable pub find_device : Input → ℕ → Option ℕ
find_device g id = find_index (λ d. d.id == id) g.devices

-- The name is `strncpy(to, from, n)` into a longer array of zeros.
unfoldable pub new_device : Message → InputDevice
new_device m = record {
  id = m.device_id;
  capabilities = m.device_caps;
  name = take 63 m.device_name;
  user_data = 0;
}

-- INPUT_IPC_EVENT_DEVICE_ADDED
unfoldable pub add_device : Input → Message → ℕ → Input × Option Event
add_device g m p =
    if ltb (length g.devices) max_devices
    then (
      record g { devices = g.devices ++ new_device m ∷ [] },
      made p (record {
        type = EventType.device_added;
        device = some (length g.devices);
        payload = no_payload;
      }),
    )
    else (g, none)

-- A press of an element that is not pressed, or a release of one that is, changes the element and
-- the number of those pressed; `none` where nothing changes.
unfoldable pub change_state : List Bool → ℕ → ℕ → Bool → Option (List Bool × ℕ)
change_state bits pressed i press =
    if press
    then (if get_or bits i false then none else some (set bits i true, pressed + 1))
    else (if get_or bits i false then some (set bits i false, pressed - 1) else none)

-- INPUT_IPC_EVENT_KEYBOARD_KEY
unfoldable pub keyboard_event : Input → Message → Option ℕ → ℕ → Input × Option Event
keyboard_event g m dev p =
    elim (change_state g.key_state_map g.pressed_keys (m.key % 1024) (m.key_state == 1)) [
      | none ↦ (g, none)
      | some (bits, pressed) ↦ (
        record g { key_state_map = bits; pressed_keys = pressed },
        made p (record {
          type = EventType.keyboard_key;
          device = dev;
          payload = keyboard (record {
            key = m.key;
            key_state = m.key_state;
            seat_key_count = pressed;
            time_usec = m.time_usec;
          });
        }),
      )
    ]

-- struct libinput_event_pointer as calloc leaves it.
abbrev pub no_pointer : PointerEvent
no_pointer = record {
  dx = 0;
  dy = 0;
  dx_unaccel = 0;
  dy_unaccel = 0;
  button = 0;
  button_state = 0;
  seat_button_count = 0;
  time_usec = 0;
  axis_value = 0 ∷ 0 ∷ [];
  axis_source = 0;
}

-- INPUT_IPC_EVENT_POINTER_BUTTON
unfoldable pub button_event : Input → Message → Option ℕ → ℕ → Input × Option Event
button_event g m dev p =
    elim (change_state g.button_state_mask g.pressed_buttons (m.pointer_button % 32)
      (m.pointer_button_state == 1)) [
        | none ↦ (g, none)
        | some (bits, pressed) ↦ (
          record g { button_state_mask = bits; pressed_buttons = pressed },
          made p (record {
            type = EventType.pointer_button;
            device = dev;
            payload = pointer (record no_pointer {
              button = m.pointer_button;
              button_state = m.pointer_button_state;
              seat_button_count = pressed;
              time_usec = m.time_usec;
            });
          }),
        )
      ]

-- INPUT_IPC_EVENT_POINTER_MOTION
unfoldable pub motion_event : Message → Option ℕ → Event
motion_event m dev = record {
  type = EventType.pointer_motion;
  device = dev;
  payload = pointer (record no_pointer {
    dx = m.pointer_dx;
    dy = m.pointer_dy;
    dx_unaccel = m.pointer_dx;
    dy_unaccel = m.pointer_dy;
    time_usec = m.time_usec;
  });
}

-- INPUT_IPC_EVENT_POINTER_AXIS: a write beside the two axes is left out by its guard.
unfoldable pub axis_event : Message → Option ℕ → Event
axis_event m dev = record {
  type = EventType.pointer_axis;
  device = dev;
  payload = pointer (record no_pointer {
    axis_value = set (0 ∷ 0 ∷ []) m.pointer_axis m.pointer_axis_value;
    axis_source = 2;
    time_usec = m.time_usec;
  });
}

-- INPUT_IPC_EVENT_TOUCH_*
unfoldable pub touch_event : EventType → Message → Option ℕ → Event
touch_event type m dev = record {
  type = type;
  device = dev;
  payload =
      touch (record {
        seat_slot = m.touch_slot;
        time_usec = m.time_usec;
        x = m.touch_x;
        y = m.touch_y;
      });
}

-- The switch of recv_thread on a message with the id INPUT_IPC_EVENT_ID: what changes, and the event
-- to queue, where alloc_event returns the address `p`.
unfoldable pub handle : MessageType → Input → Message → Option ℕ → ℕ → Input × Option Event
handle MessageType.device_added g m dev p = add_device g m p
handle MessageType.device_removed g m dev p =
    (g, made p (record { type = EventType.device_removed; device = dev; payload = no_payload }))
handle MessageType.keyboard_key g m dev p = keyboard_event g m dev p
handle MessageType.pointer_motion g m dev p = (g, made p (motion_event m dev))
handle MessageType.pointer_button g m dev p = button_event g m dev p
handle MessageType.pointer_axis g m dev p = (g, made p (axis_event m dev))
handle MessageType.touch_down g m dev p = (g, made p (touch_event EventType.touch_down m dev))
handle MessageType.touch_up g m dev p = (g, made p (touch_event EventType.touch_up m dev))
handle MessageType.touch_motion g m dev p = (g, made p (touch_event EventType.touch_motion m dev))
handle MessageType.touch_frame g m dev p = (g, made p (touch_event EventType.touch_frame m dev))
handle MessageType.other g m dev p = (g, none)

unfoldable pub translate : Input → Message → ℕ → Input × Option Event
unfolding handle
translate g m p = handle m.event_type g m (find_device g m.device_id) p

-- The end of queue_event: a byte to `pipe_w`, where that is not -1.
unfoldable pub write_pipe : PipeEnds → Input → Input
write_pipe unset g = record g { stray = g.stray + 1 }
write_pipe failed g = record g { stray = g.stray + 1 }
write_pipe opened g = record g { unread = g.unread + 1 }
write_pipe closed g = g

-- queue_event, where there is an event.
unfoldable pub post : Option Event → Input → ℕ → Input
post none g p = g
post (some e) g p = write_pipe g.pipe (record g { queue = queue_event (alloc_event g.queue p e) p })

-- One message of the daemon.
unfoldable pub receive : Input → Message → ℕ → Input
unfolding translate
receive g m p = let r = translate g m p in post r.1 r.0 p
