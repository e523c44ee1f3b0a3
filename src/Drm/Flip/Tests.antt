-- ===== src/Drm/Flip/Tests.antt =====
-- Examples for the theorems on the page flips of drm_linux.c.
use wwn_iland.Common.{ℕ, ◌≡◌, ◌+◌, refl, true, false, some, List, [], ◌∷◌, ok}
use wwn_iland.Drm.Buffers.{drm_virtual_fd}
use wwn_iland.Drm.Device.{Device, initial}
use wwn_iland.Drm.Flip.{
  EventContext, page_flip_handler2, deliver, drm_mode_page_flip, drm_handle_event,
}
use wwn_iland.Drm.Flip.Events.{
  flip_delivered, overlapping_flips_lose_data, FlipCall, flip, handle, run_calls, Waits, total,
  flipped, called, dropped, events_conserved,
}

-- An open device without a callback.
abbrev opened : Device
opened = record initial { event_pipe = some [] }

abbrev crtc : ℕ
crtc = 1

abbrev handlers : EventContext
handlers = record { version = 3; has_page_flip_handler = true; has_page_flip_handler2 = true }

abbrev flipped_once : Device
flipped_once = (drm_mode_page_flip opened 42 1 5 1 77 true).0

abbrev flipped_twice : Device
flipped_twice = (drm_mode_page_flip flipped_once 42 1 6 1 88 true).0

abbrev refused : Device
refused = (drm_mode_page_flip opened 42 1 5 1 77 false).0

flip_delivered_example :
    let (d, r) = drm_handle_event flipped_once drm_virtual_fd (some handlers) in
    (r ≡ ok (some (page_flip_handler2 1 77))) × (d.event_pipe ≡ some []) × (d.pending_flip_data ≡ 0)
unfolding initial drm_mode_page_flip deliver
flip_delivered_example = flip_delivered opened 42 1 5 1 77 true flipped_once handlers refl refl

overlapping_flips_lose_data_example :
    let (d, r) = drm_handle_event flipped_twice drm_virtual_fd (some handlers) in
    (r ≡ ok (some (page_flip_handler2 1 88)))
    × ((drm_handle_event d drm_virtual_fd (some handlers)).1 ≡ ok (some (page_flip_handler2 1 0)))
unfolding initial drm_mode_page_flip deliver
overlapping_flips_lose_data_example =
    overlapping_flips_lose_data opened 42 5 1 77 6 1 88 true true flipped_once flipped_twice
      handlers refl refl refl

-- A flip, the handling of its event, and a second flip.
abbrev history : List FlipCall
history = flip 42 1 5 1 77 true ∷ handle 42 (some handlers) ∷ flip 42 1 6 1 88 true ∷ []

none-Waits : Waits opened 0
none-Waits = record { bytes = []; pipe = refl; ones = tt; size = refl }

events_conserved_example :
    (m : ℕ) × Waits (run_calls opened history) m
    × (m + total called opened history + total dropped opened history
        ≡ 0 + total flipped opened history)
events_conserved_example = events_conserved opened history 0 none-Waits
