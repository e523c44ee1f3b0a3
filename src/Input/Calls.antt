-- ===== src/Input/Calls.antt =====
-- The calls of libinput.c that a client makes, and their interleaving with recv_thread.
use wwn_iland.Common.{
  ℕ, zero, suc, ◌/◌, ◌%◌, ◌^◌, ◌≡◌, Bool, true, false, not, ◌||◌, Option, none, some, if◌then◌else◌,
  ◌==◌, get_or, get_elem?,
}
use wwn_iland.Input.Events.{Message, InputDevice, PointerEvent}
use wwn_iland.Input.Queue.{Queue, get_event}
use wwn_iland.Input.Receive.{
  PipeEnds, unset, failed, opened, closed, at_test, receiving, ended, Input, initial, receive,
}

-- The pipe that libinput_udev_create_context makes where there is none; `piped` is whether `pipe`
-- succeeds.
unfoldable pub make_pipe : PipeEnds → Bool → Input → Input
make_pipe opened piped g = g
make_pipe unset piped g =
    if piped then record g { pipe = opened; unread = 0 } else record g { pipe = failed }
make_pipe failed piped g = if piped then record g { pipe = opened; unread = 0 } else g
make_pipe closed piped g = if piped then record g { pipe = opened; unread = 0 } else g

-- libinput_udev_create_context; `subscribed` is whether connect_inputd succeeds.
unfoldable pub libinput_udev_create_context : Bool → Bool → ℕ → Input → Input
unfolding make_pipe
libinput_udev_create_context piped subscribed user_data g =
    let h = make_pipe g.pipe piped g in
    if h.connected then record h { user_data = user_data } else record h {
      connected = true;
      running = true;
      thread = if subscribed then at_test else h.thread;
      user_data = user_data;
    }

unfoldable pub libinput_unref : Input → Input
libinput_unref g = record g { running = false; pipe = closed }

-- libinput_get_fd: the descriptor 0 before the first pipe, `pipe_r` of the pipe, or -1.
pub data Descriptor : Type 0 where
  standard_input pipe_r no_descriptor : Descriptor

unfoldable pub get_fd : PipeEnds → Descriptor
get_fd unset = standard_input
get_fd failed = no_descriptor
get_fd opened = pipe_r
get_fd closed = no_descriptor

unfoldable pub libinput_get_fd : Input → Descriptor
unfolding get_fd
libinput_get_fd g = get_fd g.pipe

unfoldable pub dispatch : PipeEnds → Input → Input
dispatch opened g = record g { unread = 0 }
dispatch other g = g

-- libinput_dispatch once the library has a pipe.
unfoldable pub libinput_dispatch : Input → Input
unfolding dispatch
libinput_dispatch g = dispatch g.pipe g

-- libinput_get_event: the address of the event, or 0.
unfoldable pub libinput_get_event : Input → Input × ℕ
libinput_get_event g = let r = get_event g.queue in (record g { queue = r.0 }, r.1)

-- libinput_device_has_capability; the mask of a capability is 1, 2 or 4, and the others have none.
unfoldable pub has_capability : Option InputDevice → ℕ → Bool
has_capability none c = false
has_capability (some d) zero = d.capabilities % 2 == 1
has_capability (some d) (suc zero) = d.capabilities / 2 % 2 == 1
has_capability (some d) (suc (suc zero)) = d.capabilities / 4 % 2 == 1
has_capability (some d) (suc (suc (suc c))) = false

unfoldable pub libinput_device_has_capability : Input → Option ℕ → ℕ → Bool
unfolding has_capability
libinput_device_has_capability g dev c =
    has_capability (elim dev [ none ↦ none | some i ↦ get_elem? g.devices i ]) c

-- libinput_event_pointer_has_axis: the value differs from 0.0 and -0.0.
unfoldable pub libinput_event_pointer_has_axis : PointerEvent → ℕ → Bool
libinput_event_pointer_has_axis e a = let v = get_or e.axis_value a 0 in not (v == 0 || v == 2 ^ 63)

-- What one thread does next. A receive or a test of recv_thread needs it to be there; a message comes
-- with the address that calloc returns, and anything that is no event of the daemon is skipped.
pub data Step (g : Input) : Input → Type 0 where
  create_context :
      (piped subscribed : Bool) (user_data : ℕ)
      → Step g (libinput_udev_create_context piped subscribed user_data g)
  unref : Step g (libinput_unref g)
  drain_pipe : Step g (libinput_dispatch g)
  take_event : Step g (libinput_get_event g).0
  keep_running : g.thread ≡ at_test → g.running ≡ true → Step g (record g { thread = receiving })
  stop_running : g.thread ≡ at_test → g.running ≡ false → Step g (record g { thread = ended })
  take_message :
      (m : Message) (p : ℕ)
      → g.thread ≡ receiving
      → Step g (record (receive g m p) { thread = at_test })
  skip_message : g.thread ≡ receiving → Step g (record g { thread = at_test })

pub data Reachable (memory : Queue) : Input → Type 0 where
  start : Reachable memory (initial memory)
  step : (g g' : Input) → Reachable memory g → Step g g' → Reachable memory g'

-- Steps one after another.
pub data Run : Input → Input → Type 0 where
  stay : (g : Input) → Run g g
  go : (g g' g'' : Input) → Step g g' → Run g' g'' → Run g g''
