-- ===== src/Drm/Flip.antt =====
-- Page flips and their events in drm_linux.c: drmModePageFlip and drmHandleEvent.
pub mod Events
mod Tests
use wwn_iland.Common.{
  ℕ, Bool, true, false, ◌&&◌, Option, none, some, List, [], ◌∷◌, ◌++◌, if◌then◌else◌, ◌==◌, leb,
  Outcome, ok, fail, blocks, ebadf, enoent, unset, require,
}
use wwn_iland.Drm.Buffers.{check_fd, drm_virtual_fd}
use wwn_iland.Drm.Buffers.Framebuffers.{fb_id_to_surface}
use wwn_iland.Drm.Device.{Device, Effect, present, send_page_flip}

-- `if (g_drm_event_pipe_write >= 0) write(g_drm_event_pipe_write, &byte, 1);` with the byte 1.
unfoldable pub signal_flip : Device → Device
signal_flip d = elim d.event_pipe [
  | none ↦ d
  | some q ↦ record d { event_pipe = some (q ++ 1 ∷ []) }
]

-- The frame goes to the host's callback, or else to framebufferd; `ipc_ok` says whether
-- drm_send_json_with_surface returns 0. The second part is `ret == 0`.
unfoldable pub output_frame : Device → (crtc_id fb_id flags : ℕ) → (ipc_ok : Bool) → Device × Bool
unfolding fb_id_to_surface
output_frame d crtc_id fb_id flags ipc_ok = elim d.present_cb [
  | some user ↦ (
    record d { log = present user crtc_id fb_id (fb_id_to_surface d.bufs fb_id) flags ∷ d.log },
    true,
  )
  | none ↦ (
    record d { log = send_page_flip crtc_id fb_id flags (fb_id_to_surface d.bufs fb_id) ∷ d.log },
    ipc_ok,
  )
]

unfoldable pub drm_mode_page_flip :
    Device → (fd crtc_id fb_id flags user_data : ℕ) → (ipc_ok : Bool) → Device × Outcome (Unit {0})
unfolding check_fd output_frame signal_flip
drm_mode_page_flip d fd crtc_id fb_id flags user_data ipc_ok = require (check_fd fd) ebadf d (
    require (crtc_id == 1) enoent d (
      let (d', sent) =
        output_frame (record d { crtc_fb_id = fb_id; pending_flip_data = user_data }) crtc_id fb_id
          flags ipc_ok in
      if sent then (signal_flip d', ok tt) else (d', fail unset)))

-- `drmEventContext`: its version and which handlers are not null.
pub record EventContext : Type 0 where
  pub version : ℕ
  pub has_page_flip_handler : Bool
  pub has_page_flip_handler2 : Bool

-- The call of a handler with the user data, and with the CRTC for `page_flip_handler2`.
pub data FlipEvent : Type 0 where
  page_flip_handler2 : (crtc_id user_data : ℕ) → FlipEvent
  page_flip_handler : (user_data : ℕ) → FlipEvent

unfoldable pub deliver : EventContext → (user_data : ℕ) → Option FlipEvent
deliver ctx user_data =
    if leb 2 ctx.version && ctx.has_page_flip_handler2
    then some (page_flip_handler2 1 user_data)
    else if ctx.has_page_flip_handler
    then some (page_flip_handler user_data)
    else none

-- The result is the handler that is called, if one is; the source returns 1 beside it. The write end
-- of the pipe is never closed, so a read of the empty pipe waits, and never ends the file.
unfoldable pub drm_handle_event :
    Device → (fd : ℕ) → Option EventContext → Device × Outcome (Option FlipEvent)
unfolding deliver
drm_handle_event d fd evctx = require (fd == drm_virtual_fd) ebadf d (elim d.event_pipe [
  | none ↦ (d, fail ebadf)
  | some [] ↦ (d, blocks)
  | some (byte ∷ q) ↦ elim evctx [
    | none ↦ (record d { event_pipe = some q }, ok none)
    | some ctx ↦
        if byte == 1
        then (
          record d { event_pipe = some q; pending_flip_data = 0 },
          ok (deliver ctx d.pending_flip_data),
        )
        else (record d { event_pipe = some q }, ok none)
  ]
])
