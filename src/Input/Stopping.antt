-- ===== src/Input/Stopping.antt =====
-- What libinput_unref of libinput.c leaves behind for a later context.
use wwn_iland.Common.{◌≤◌, ◌≡◌, Bool, true, false, arith}
use wwn_iland.Input.Queue.{get_event}
use wwn_iland.Input.Receive.{PipeEnds, unset, failed, opened, closed, ended, Input}
use wwn_iland.Input.Calls.{
  make_pipe, libinput_udev_create_context, libinput_unref, libinput_dispatch, dispatch,
  libinput_get_event, Step, create_context, unref, drain_pipe, take_event, keep_running,
  stop_running, take_message, skip_message, Run, stay, go,
}

-- recv_thread has returned, and the flag says that it is there.
record Silent (g : Input) : Type 0 where
  connected : g.connected ≡ true
  running : g.running ≡ false
  thread : g.thread ≡ ended

-- No event or device is added, and no press or release is seen.
pub record Unheard (g h : Input) : Type 0 where
  pub events : h.queue.event ≡ g.queue.event
  pub links : h.queue.next ≡ g.queue.next
  pub devices : h.devices ≡ g.devices
  pub keys : h.key_state_map ≡ g.key_state_map
  pub buttons : h.button_state_mask ≡ g.button_state_mask
  pub unread : h.unread ≤ g.unread

Unheard-refl : (g : Input) → Unheard g g
Unheard-refl g = ground arith

Unheard-trans : (g h k : Input) → Unheard g h → Unheard h k → Unheard g k
Unheard-trans g h k a b = record {
  events = cc (a.events, b.events);
  links = cc (a.links, b.links);
  devices = cc (a.devices, b.devices);
  keys = cc (a.keys, b.keys);
  buttons = cc (a.buttons, b.buttons);
  unread = omega (arith, a.unread, b.unread);
}

make_pipe-Quiet :
    (e : PipeEnds) (piped : Bool) (g : Input)
    → Silent g
    → Silent (make_pipe e piped g) × Unheard g (make_pipe e piped g)
unfolding make_pipe
make_pipe-Quiet opened piped g v = ground arith
make_pipe-Quiet unset piped g v = ground arith
make_pipe-Quiet failed piped g v = ground arith
make_pipe-Quiet closed piped g v = ground arith

dispatch-Unheard :
    (e : PipeEnds) (g : Input) → Silent g → Silent (dispatch e g) × Unheard g (dispatch e g)
unfolding dispatch
dispatch-Unheard opened g v = ground arith
dispatch-Unheard unset g v = ground arith
dispatch-Unheard failed g v = ground arith
dispatch-Unheard closed g v = ground arith

take_event-Unheard :
    (g : Input) → Silent g → Silent (libinput_get_event g).0 × Unheard g (libinput_get_event g).0
unfolding libinput_get_event get_event
take_event-Unheard g v = ground arith

Step-Unheard : (g h : Input) → Silent g → Step g h → Silent h × Unheard g h
unfolding libinput_udev_create_context libinput_unref libinput_dispatch
Step-Unheard g _ v (create_context piped subscribed user) =
    let (s, u) = make_pipe-Quiet g.pipe piped g v in
    let c = s.connected in
    rw c (
      ground (
        arith, s.connected, s.running, s.thread, u.events, u.links, u.devices, u.keys, u.buttons,
        u.unread,
      ))
Step-Unheard g _ v unref = ground arith
Step-Unheard g _ v drain_pipe = dispatch-Unheard g.pipe g v
Step-Unheard g _ v take_event = take_event-Unheard g v
Step-Unheard g _ v (keep_running at on) = let t = v.running in cc
Step-Unheard g _ v (stop_running at on) = let t = v.thread in cc
Step-Unheard g _ v (take_message m p at) = let t = v.thread in cc
Step-Unheard g _ v (skip_message at) = let t = v.thread in cc

Run-Unheard : (g h : Input) → Silent g → Run g h → Silent h × Unheard g h
Run-Unheard g _ v (stay _) = (v, Unheard-refl g)
Run-Unheard g h v (go _ k _ st rest) =
    let (s, u) = Step-Unheard g k v st in
    let (s', u') = Run-Unheard k h s rest in (s', Unheard-trans g k h u u')

-- Once libinput_unref has been called and recv_thread has returned, whatever the calls and however
-- many contexts are made anew, the thread is never started again, and no event, device, press or
-- release reaches the library any more, where a subscription had been tried before.
pub silent_for_ever :
    (g h : Input)
    → g.connected ≡ true
    → g.running ≡ false
    → g.thread ≡ ended
    → Run g h
    → (h.thread ≡ ended) × Unheard g h
silent_for_ever g h c r t run =
    let (s, u) = Run-Unheard g h (record { connected = c; running = r; thread = t }) run in
    (s.thread, u)
