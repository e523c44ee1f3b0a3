-- ===== src/Drm/Flip/Events.antt =====
-- Which event a page flip of drm_linux.c leads to.
use wwn_iland.Common.{
  ℕ, ◌+◌, ◌≡◌, ◌≢◌, refl, Bool, true, false, Option, none, some, List, [], ◌∷◌, ◌++◌, arith, length,
  length-append, bit, Errno, Outcome, ok, fail, ebadf, enoent, unset, Option-cases, inl, inr, ◌⊎◌,
  ◌&&◌, ◌||◌, not, leb, All, All-append_one, ◌==◌, Bool-cases,
}
use wwn_iland.Drm.Buffers.{drm_virtual_fd}
use wwn_iland.Drm.Buffers.Framebuffers.{fb_id_to_surface}
use wwn_iland.Drm.Device.{Device, present, send_page_flip}
use wwn_iland.Drm.Flip.{EventContext, FlipEvent, deliver, drm_mode_page_flip, drm_handle_event}

-- From an empty event pipe, a page flip that succeeds leads to exactly one event: the next call of
-- drmHandleEvent calls the handler that the context has with the user data of that flip, and leaves
-- the pipe empty and no user data behind.
pub flip_delivered :
    (d : Device) (fd crtc_id fb_id flags user_data : ℕ) (ipc_ok : Bool) (d' : Device)
    (ctx : EventContext)
    → d.event_pipe ≡ some []
    → drm_mode_page_flip d fd crtc_id fb_id flags user_data ipc_ok ≡ (d', ok tt)
    → let (d'', r) = drm_handle_event d' drm_virtual_fd (some ctx) in
      (r ≡ ok (deliver ctx user_data)) × (d''.event_pipe ≡ some []) × (d''.pending_flip_data ≡ 0)
unfolding drm_mode_page_flip drm_handle_event
flip_delivered d fd crtc_id fb_id flags user_data ipc_ok d' ctx pipe h = ground (arith, h)

-- When two flips succeed before any event is handled, the first event carries the second flip's user
-- data, and the second event carries null: the first flip's data reaches no handler.
pub overlapping_flips_lose_data :
    (d : Device) (fd fb_id flags user_data fb_id' flags' user_data' : ℕ) (ipc_ok ipc_ok' : Bool)
    (d1 d2 : Device) (ctx : EventContext)
    → d.event_pipe ≡ some []
    → drm_mode_page_flip d fd 1 fb_id flags user_data ipc_ok ≡ (d1, ok tt)
    → drm_mode_page_flip d1 fd 1 fb_id' flags' user_data' ipc_ok' ≡ (d2, ok tt)
    → let (d3, r) = drm_handle_event d2 drm_virtual_fd (some ctx) in
      (r ≡ ok (deliver ctx user_data'))
      × ((drm_handle_event d3 drm_virtual_fd (some ctx)).1 ≡ ok (deliver ctx 0))
unfolding drm_mode_page_flip drm_handle_event
overlapping_flips_lose_data d fd fb_id flags user_data fb_id' flags' user_data' ipc_ok ipc_ok' d1 d2
      ctx pipe h1 h2 =
    ground (arith, h1, h2)

-- A page flip that succeeds came on the virtual descriptor for the one CRTC, put out exactly one
-- frame, with the surface behind the framebuffer id, to the host's callback if there is one and to
-- framebufferd otherwise, and made the framebuffer current.
pub page_flip_success :
    (d : Device) (fd crtc_id fb_id flags user_data : ℕ) (ipc_ok : Bool) (d' : Device)
    → drm_mode_page_flip d fd crtc_id fb_id flags user_data ipc_ok ≡ (d', ok tt)
    → let surface = fb_id_to_surface d.bufs fb_id in
      (fd ≡ drm_virtual_fd)
      × (crtc_id ≡ 1)
      × (d'.crtc_fb_id ≡ fb_id)
      × (((d.present_cb ≡ none) × (d'.log ≡ send_page_flip 1 fb_id flags surface ∷ d.log))
          ⊎ ((user : ℕ) × (d.present_cb ≡ some user)
              × (d'.log ≡ present user 1 fb_id surface flags ∷ d.log)))
unfolding drm_mode_page_flip
page_flip_success d fd crtc_id fb_id flags user_data ipc_ok d' h =
    elim (Option-cases d.present_cb) [
      | inl none' ↦
          let (a, b, c, l) : (fd ≡ drm_virtual_fd)
              × (crtc_id ≡ 1)
              × (d'.crtc_fb_id ≡ fb_id)
              × (d'.log ≡ send_page_flip 1 fb_id flags (fb_id_to_surface d.bufs fb_id) ∷ d.log) =
            ground (arith, h, none') in
          (a, b, c, inl (none', l))
      | inr (user, e) ↦
          let (a, b, c, l) : (fd ≡ drm_virtual_fd)
              × (crtc_id ≡ 1)
              × (d'.crtc_fb_id ≡ fb_id)
              × (d'.log ≡ present user 1 fb_id (fb_id_to_surface d.bufs fb_id) flags ∷ d.log) =
            ground (arith, h, e) in
          (a, b, c, inr (user, e, l))
    ]

-- A page flip that fails queues no event. It fails for a wrong descriptor or CRTC, and then changes
-- nothing, or because framebufferd, to which frames go without a callback of the host, cannot be
-- reached.
pub page_flip_failure :
    (d : Device) (fd crtc_id fb_id flags user_data : ℕ) (errno : Errno) (ipc_ok : Bool)
    (d' : Device)
    → drm_mode_page_flip d fd crtc_id fb_id flags user_data ipc_ok ≡ (d', fail errno)
    → (d'.event_pipe ≡ d.event_pipe)
      × (((fd ≢ drm_virtual_fd) × (errno ≡ ebadf) × (d' ≡ d))
          ⊎ ((crtc_id ≢ 1) × (errno ≡ enoent) × (d' ≡ d))
          ⊎ ((d.present_cb ≡ none) × (ipc_ok ≡ false) × (errno ≡ unset)))
unfolding drm_mode_page_flip
page_flip_failure d fd crtc_id fb_id flags user_data errno ipc_ok d' h = ground (arith, h)

-- The calls that write to and read from the event pipe.
pub data FlipCall : Type 0 where
  flip : (fd crtc_id fb_id flags user_data : ℕ) → (ipc_ok : Bool) → FlipCall
  handle : (fd : ℕ) → Option EventContext → FlipCall

pub after_call : Device → FlipCall → Device
after_call d (flip fd crtc_id fb_id flags user_data ipc_ok) =
    (drm_mode_page_flip d fd crtc_id fb_id flags user_data ipc_ok).0
after_call d (handle fd evctx) = (drm_handle_event d fd evctx).0

abbrev succeeds {ℓ} : {A : Type ℓ} → Outcome A → Bool
succeeds (ok a) = true
succeeds _ = false

-- Whether the context has a handler for page flips that drmHandleEvent can call.
abbrev pub has_handler : Option EventContext → Bool
has_handler none = false
has_handler (some ctx) =
    (leb 2 ctx.version && ctx.has_page_flip_handler2) || ctx.has_page_flip_handler

abbrev calls_handler : Outcome (Option FlipEvent) → Bool
calls_handler (ok (some event)) = true
calls_handler _ = false

-- The flips of one call that succeed, the handlers that it calls, and the events that it takes out of
-- the pipe because its caller has no handler for them.
abbrev pub flipped : Device → FlipCall → ℕ
flipped d (flip fd crtc_id fb_id flags user_data ipc_ok) =
    bit (succeeds (drm_mode_page_flip d fd crtc_id fb_id flags user_data ipc_ok).1)
flipped d (handle fd evctx) = 0

abbrev pub called : Device → FlipCall → ℕ
called d (flip fd crtc_id fb_id flags user_data ipc_ok) = 0
called d (handle fd evctx) = bit (calls_handler (drm_handle_event d fd evctx).1)

abbrev pub dropped : Device → FlipCall → ℕ
dropped d (flip fd crtc_id fb_id flags user_data ipc_ok) = 0
dropped d (handle fd evctx) =
    bit (not (has_handler evctx) && succeeds (drm_handle_event d fd evctx).1)

pub run_calls : Device → List FlipCall → Device
unfolding after_call
run_calls d [] = d
run_calls d (c ∷ cs) = run_calls (after_call d c) cs

pub total : (Device → FlipCall → ℕ) → Device → List FlipCall → ℕ
unfolding after_call
total f d [] = 0
total f d (c ∷ cs) = f d c + total f (after_call d c) cs

-- The pipe holds one byte 1 for each of `n` events.
pub record Waits (d : Device) (n : ℕ) : Type 0 where
  pub bytes : List ℕ
  pub pipe : d.event_pipe ≡ some bytes
  pub ones : All (λ b. b ≡ 1) bytes
  pub size : length bytes ≡ n

call_waiting :
    (d : Device) (c : FlipCall) (n : ℕ) (q : List ℕ)
    → d.event_pipe ≡ some q
    → All (λ b. b ≡ 1) q
    → length q ≡ n
    → (m : ℕ) × Waits (after_call d c) m × (m + called d c + dropped d c ≡ n + flipped d c)
unfolding after_call drm_mode_page_flip drm_handle_event deliver
call_waiting d (flip fd crtc_id fb_id flags user_data ipc_ok) n q pipe ones size =
    elim (Bool-cases (succeeds (drm_mode_page_flip d fd crtc_id fb_id flags user_data ipc_ok).1)) [
      | inl sent ↦ (
        n + 1,
        record {
          bytes = q ++ 1 ∷ [];
          pipe = ground (arith, pipe, sent);
          ones = All-append_one (λ b. b ≡ 1) q 1 ones refl;
          size = ground (arith, size, length-append q (1 ∷ []));
        },
        ground (arith, sent),
      )
      | inr refused ↦ (
        n,
        record { bytes = q; pipe = ground (arith, pipe, refused); ones = ones; size = size },
        ground (arith, refused),
      )
    ]
call_waiting d (handle fd evctx) n [] pipe ones size = (
  n,
  record { bytes = []; pipe = ground (arith, pipe); ones = tt; size = size },
  ground (arith, pipe),
)
call_waiting d (handle fd none) n (byte ∷ q) pipe (one, ones) size =
    elim (Bool-cases (fd == drm_virtual_fd)) [
      | inl ours ↦ (
        length q,
        record { bytes = q; pipe = ground (arith, pipe, ours); ones = ones; size = refl },
        ground (arith, pipe, ours, size),
      )
      | inr other ↦ (
        n,
        record {
          bytes = byte ∷ q;
          pipe = ground (arith, pipe, other);
          ones = (one, ones);
          size = size;
        },
        ground (arith, other),
      )
    ]
call_waiting d (handle fd (some ctx)) n (byte ∷ q) pipe (one, ones) size =
    elim (Bool-cases (fd == drm_virtual_fd)) [
      | inl ours ↦ (
        length q,
        record { bytes = q; pipe = ground (arith, pipe, ours, one); ones = ones; size = refl },
        ground (arith, pipe, ours, size, one),
      )
      | inr other ↦ (
        n,
        record {
          bytes = byte ∷ q;
          pipe = ground (arith, pipe, other);
          ones = (one, ones);
          size = size;
        },
        ground (arith, other),
      )
    ]

-- From a pipe that holds one byte for each event that waits, over any history of flips and of calls
-- of drmHandleEvent no event is lost and none is made up: the flips that succeeded and the events
-- that waited at first are the events whose handler was called, those that went to callers without a
-- handler for page flips, and those that still wait in the pipe.
pub events_conserved :
    (d : Device) (cs : List FlipCall) (n : ℕ)
    → Waits d n
    → (m : ℕ) × Waits (run_calls d cs) m
      × (m + total called d cs + total dropped d cs ≡ n + total flipped d cs)
unfolding run_calls total
events_conserved d [] n w = (n, w, omega arith)
events_conserved d (c ∷ cs) n w =
    let (k, w', one) = call_waiting d c n w.bytes w.pipe w.ones w.size in
    let (m, w'', rest) = events_conserved (after_call d c) cs k w' in
    (m, w'', omega (arith, one, rest))
