-- ===== src/Input/Tests.antt =====
-- Runs of the library of libinput.c: a keyboard is added, and one of its keys is pressed and released.
use wwn_iland.Common.{
  ℕ, ◌+◌, ◌≡◌, refl, true, false, none, List, [], ◌∷◌, ◌++◌, arith, length, get_or,
}
use wwn_iland.Input.Events.{MessageType, Message, no_payload, EventType, Event}
use wwn_iland.Input.Queue.{Queue, get_event}
use wwn_iland.Input.Receive.{Input, initial, opened, ended, receive}
use wwn_iland.Input.Calls.{
  libinput_udev_create_context, create_context, stay, go, Reachable, start, step,
}
use wwn_iland.Input.Stopping.{Unheard, silent_for_ever}
use wwn_iland.Input.Pressed.{IsCounted, Reachable-IsCounted}
use wwn_iland.Input.Edges.{History, reported, key_states, changes, asked, reported-changes}
use wwn_iland.Input.Fifo.{Holds, Taken, get_event-Taken}
use wwn_iland.Input.Delivery.{receive_all, delivered_in_order, woken_for_each_event}
use wwn_iland.Common.{take}
use wwn_iland.Input.Slots.{announced, removed_devices_stay}

abbrev blank : Event
blank = record { type = EventType.device_added; device = none; payload = no_payload }

abbrev memory : Queue
memory = record { ev_head = 0; ev_tail = 0; event = λ p. blank; next = λ p. 0 }

abbrev key_message : MessageType → ℕ → ℕ → Message
key_message type key state = record {
  time_usec = 5;
  event_type = type;
  device_id = 3;
  device_caps = 1;
  device_name = [];
  key = key;
  key_state = state;
  pointer_dx = 0;
  pointer_dy = 0;
  pointer_button = 0;
  pointer_button_state = 0;
  pointer_axis = 0;
  pointer_axis_value = 0;
  touch_slot = 0;
  touch_x = 0;
  touch_y = 0;
}

-- The key is pressed twice and released once.
abbrev typed : History
typed =
    (key_message MessageType.device_added 0 0, 100)
    ∷ (key_message MessageType.keyboard_key 30 1, 200)
    ∷ (key_message MessageType.keyboard_key 30 1, 300)
    ∷ (key_message MessageType.keyboard_key 30 0, 400)
    ∷ []

abbrev started : Input
started = libinput_udev_create_context true true 7 (initial memory)

started-reached : Reachable memory started
started-reached = step (initial memory) started start (create_context true true 7)

abbrev stopped : Input
stopped = record started { running = false; thread = ended }

typed_key : key_states 30 (reported started typed) ≡ true ∷ false ∷ []
unfolding initial reported wwn_iland.Input.Receive.translate wwn_iland.Input.Receive.add_device
    libinput_udev_create_context wwn_iland.Input.Receive.keyboard_event
    wwn_iland.Input.Receive.change_state receive wwn_iland.Input.Receive.post
    wwn_iland.Input.Receive.write_pipe
typed_key = refl

Reachable-IsCounted_example : IsCounted started
Reachable-IsCounted_example = Reachable-IsCounted memory started started-reached

reported-changes_example :
    key_states 30 (reported started typed)
    ≡ changes (get_or started.key_state_map 30 false) (asked 30 typed)
reported-changes_example =
    reported-changes started typed 30 (Reachable-IsCounted memory started started-reached)
      (omega arith)

delivered_in_order_example :
    (bs : List ℕ) × Holds (receive_all started typed).queue bs ([] ++ reported started typed)
unfolding initial libinput_udev_create_context
delivered_in_order_example =
    delivered_in_order started typed [] []
      (record { links = refl; tail = refl; distinct = tt; events = refl }) (omega arith)

woken_for_each_event_example :
    ((receive_all started typed).unread ≡ started.unread + length (reported started typed))
    × ((receive_all started typed).pipe ≡ opened)
unfolding initial libinput_udev_create_context
woken_for_each_event_example = woken_for_each_event started typed refl

-- One event at the address 100.
abbrev one_waiting : Queue
one_waiting = record { ev_head = 100; ev_tail = 100; event = λ p. blank; next = λ p. 0 }

get_event-Taken_example : Taken one_waiting (blank ∷ []) (get_event one_waiting)
get_event-Taken_example =
    get_event-Taken one_waiting (100 ∷ []) (blank ∷ []) (record {
      links = (refl, omega arith, refl);
      tail = refl;
      distinct = (tt, tt);
      events = refl;
    })

removed_devices_stay_example :
    (receive_all started typed).devices ≡ take 8 (started.devices ++ announced typed)
unfolding initial libinput_udev_create_context
removed_devices_stay_example = removed_devices_stay started typed (omega arith)

silent_for_ever_example :
    ((libinput_udev_create_context true true 9 stopped).thread ≡ ended)
    × Unheard stopped (libinput_udev_create_context true true 9 stopped)
unfolding initial libinput_udev_create_context
silent_for_ever_example =
    silent_for_ever stopped (libinput_udev_create_context true true 9 stopped) refl refl refl (
      go stopped (libinput_udev_create_context true true 9 stopped)
        (libinput_udev_create_context true true 9 stopped) (create_context true true 9)
        (stay (libinput_udev_create_context true true 9 stopped)))
