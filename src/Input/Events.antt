-- ===== src/Input/Events.antt =====
-- The devices, events and messages of libinput.c and input_ipc.h. An `int32_t` or `uint32_t` is the
-- number of its 32 bits, and a `double`, which the library only copies, the number of its 64 bits.
use wwn_iland.Common.{ℕ, List, Option}

-- INPUT_IPC_EVENT_*; `other` is any further value of event_type.
pub data MessageType : Type 0 where
  device_added device_removed keyboard_key pointer_motion pointer_button pointer_axis : MessageType
  touch_down touch_up touch_motion touch_frame other : MessageType

-- input_ipc_event_t
pub record Message : Type 0 where
  pub time_usec : ℕ
  pub event_type : MessageType
  pub device_id : ℕ
  pub device_caps : ℕ
  pub device_name : List ℕ
  pub key : ℕ
  pub key_state : ℕ
  pub pointer_dx : ℕ
  pub pointer_dy : ℕ
  pub pointer_button : ℕ
  pub pointer_button_state : ℕ
  pub pointer_axis : ℕ
  pub pointer_axis_value : ℕ
  pub touch_slot : ℕ
  pub touch_x : ℕ
  pub touch_y : ℕ

-- struct libinput_device, without the names that are made from its id.
pub record InputDevice : Type 0 where
  pub id : ℕ
  pub capabilities : ℕ
  pub name : List ℕ
  pub user_data : ℕ

-- struct libinput_event_keyboard
pub record KeyboardEvent : Type 0 where
  pub key : ℕ
  pub key_state : ℕ
  pub seat_key_count : ℕ
  pub time_usec : ℕ

-- struct libinput_event_pointer
pub record PointerEvent : Type 0 where
  pub dx : ℕ
  pub dy : ℕ
  pub dx_unaccel : ℕ
  pub dy_unaccel : ℕ
  pub button : ℕ
  pub button_state : ℕ
  pub seat_button_count : ℕ
  pub time_usec : ℕ
  pub axis_value : List ℕ
  pub axis_source : ℕ

-- struct libinput_event_touch
pub record TouchEvent : Type 0 where
  pub seat_slot : ℕ
  pub time_usec : ℕ
  pub x : ℕ
  pub y : ℕ

-- The union of struct libinput_event.
pub data Payload : Type 0 where
  no_payload : Payload
  keyboard : KeyboardEvent → Payload
  pointer : PointerEvent → Payload
  touch : TouchEvent → Payload

-- The values of enum libinput_event_type that the library makes.
pub data EventType : Type 0 where
  device_added device_removed keyboard_key pointer_motion pointer_button pointer_axis : EventType
  touch_down touch_up touch_motion touch_frame : EventType

-- struct libinput_event: `device` is the index of the device in the table, `none` for NULL.
pub record Event : Type 0 where
  pub type : EventType
  pub device : Option ℕ
  pub payload : Payload
