-- ===== src/Drm/Device.antt =====
-- The whole state of drm_linux.c, and the calls that only set or report parts of it: the callbacks of
-- the host, the capabilities, the resources, the encoder and the CRTC.
use wwn_iland.Common.{
  ℕ, Bool, true, false, not, Option, none, some, List, [], ◌∷◌, if◌then◌else◌, ◌==◌, Outcome, ok,
  fail, ebadf, einval, enoent, enomem, unset, require,
}
use wwn_iland.Drm.Buffers
use wwn_iland.Drm.Buffers.{Buffers, check_fd}
use wwn_iland.Drm.Modes.{Modes, ModeInfo}
use wwn_iland.Drm.Props
use wwn_iland.Drm.Props.{PropStore}
use wwn_iland.Drm.Blobs
use wwn_iland.Drm.Blobs.{Blobs}

-- What the device does to the world: calls of the host's callbacks with their user pointer, and JSON
-- messages to framebufferd with the surface that goes along. A surface 0 is none.
pub data Effect : Type 0 where
  present : (user crtc fb surface flags : ℕ) → Effect
  cursor_set : (user surface : ℕ) → Effect
  cursor_move : (user x y : ℕ) → Effect
  send_page_flip : (crtc fb flags surface : ℕ) → Effect
  send_cursor_set : (surface : ℕ) → Effect
  send_cursor_move : (x y : ℕ) → Effect

-- A callback is its user pointer, `none` while none is registered. `event_pipe` holds the bytes in
-- the pipe behind the virtual descriptor, `none` before there is one. `log` is what the device did,
-- the latest first. `prev_cursor` is the static pair of drmModeAtomicCommit, as bit patterns.
pub record Device : Type 0 where
  pub bufs : Buffers
  pub modes : Modes
  pub props : PropStore
  pub blobs : Blobs
  pub present_cb : Option ℕ
  pub cursor_cb : Option ℕ
  pub crtc_fb_id : ℕ
  pub crtc_mode : ModeInfo
  pub crtc_mode_valid : Bool
  pub event_pipe : Option (List ℕ)
  pub pending_flip_data : ℕ
  pub prev_cursor : ℕ × ℕ
  pub universal_planes : ℕ
  pub atomic : ℕ
  pub log : List Effect

abbrev no_mode_info : ModeInfo
no_mode_info = record {
  clock = 0;
  hdisplay = 0;
  hsync_start = 0;
  hsync_end = 0;
  htotal = 0;
  vdisplay = 0;
  vsync_start = 0;
  vsync_end = 0;
  vtotal = 0;
  vrefresh = 0;
  name = (0, 0);
}

unfoldable pub initial : Device
unfolding Buffers.initial Props.initial Blobs.initial
initial = record {
  bufs = Buffers.initial;
  modes = record { modes = []; pref_w = 0; pref_h = 0; pref_refresh = 0 };
  props = Props.initial;
  blobs = Blobs.initial;
  present_cb = none;
  cursor_cb = none;
  crtc_fb_id = 0;
  crtc_mode = no_mode_info;
  crtc_mode_valid = false;
  event_pipe = none;
  pending_flip_data = 0;
  prev_cursor = (0, 0);
  universal_planes = 0;
  atomic = 0;
  log = [];
}

-- `cb` is `none` for a null callback, else the user pointer.
unfoldable pub iland_drm_set_present_callback : Device → Option ℕ → Device
iland_drm_set_present_callback d cb = record d { present_cb = cb }

unfoldable pub iland_drm_set_cursor_callback : Device → Option ℕ → Device
iland_drm_set_cursor_callback d cb = record d { cursor_cb = cb }

unfoldable pub iland_drm_present_is_in_window : Device → Bool
iland_drm_present_is_in_window d = elim d.present_cb [ none ↦ false | some user ↦ true ]

-- `pipe_ok` and `dup_ok` say whether `pipe` and `dup2` succeeded.
unfoldable pub iland_drm_prepare_virtual_fd :
    Device → (pipe_ok dup_ok : Bool) → Device × Outcome (Unit {0})
iland_drm_prepare_virtual_fd d pipe_ok dup_ok = elim d.event_pipe [
  | some q ↦ (d, ok tt)
  | none ↦
      require pipe_ok unset d (require dup_ok unset d (record d { event_pipe = some [] }, ok tt))
]

unfoldable pub drm_open : ℕ
drm_open = Buffers.drm_virtual_fd

-- `has_value` says that the pointer for the result is not null.
unfoldable pub drm_get_cap : (fd capability : ℕ) → (has_value : Bool) → Outcome ℕ
unfolding check_fd
drm_get_cap fd capability has_value =
    if not (check_fd fd)
    then fail ebadf
    else if not has_value
    then fail einval
    else if capability == 0x1
    then ok 1
    else if capability == 0x5
    then ok 3
    else if capability == 0x6
    then ok 1
    else if capability == 0x12
    then ok 1
    else if capability == 0x8
    then ok 64
    else if capability == 0x9
    then ok 64
    else ok 0

unfoldable pub drm_set_client_cap : Device → (fd capability value : ℕ) → Device × Outcome (Unit {0})
unfolding check_fd
drm_set_client_cap d fd capability value = require (check_fd fd) ebadf d (
    if capability == 2
    then (record d { universal_planes = value }, ok tt)
    else if capability == 3
    then (record d { atomic = value }, ok tt)
    else (d, fail einval))

-- `drmModeRes`; there are no framebuffers in it.
pub record Resources : Type 0 where
  pub crtcs : List ℕ
  pub connectors : List ℕ
  pub encoders : List ℕ
  pub min_width : ℕ
  pub max_width : ℕ
  pub min_height : ℕ
  pub max_height : ℕ

unfoldable pub drm_mode_get_resources : (fd : ℕ) → (alloc : Bool) → Outcome Resources
unfolding check_fd
drm_mode_get_resources fd alloc =
    if not (check_fd fd)
    then fail ebadf
    else if not alloc
    then fail enomem
    else ok (record {
      crtcs = 1 ∷ [];
      connectors = 1 ∷ [];
      encoders = 1 ∷ [];
      min_width = 1;
      max_width = 8192;
      min_height = 1;
      max_height = 8192;
    })

-- `drmModeEncoder`
pub record Encoder : Type 0 where
  pub encoder_id : ℕ
  pub encoder_type : ℕ
  pub crtc_id : ℕ
  pub possible_crtcs : ℕ
  pub possible_clones : ℕ

unfoldable pub drm_mode_get_encoder : (fd encoder_id : ℕ) → (alloc : Bool) → Outcome Encoder
unfolding check_fd
drm_mode_get_encoder fd encoder_id alloc =
    if not (check_fd fd)
    then fail ebadf
    else if not (encoder_id == 1)
    then fail enoent
    else if not alloc
    then fail enomem
    else ok (record {
      encoder_id = 1;
      encoder_type = 10;
      crtc_id = 1;
      possible_crtcs = 1;
      possible_clones = 0;
    })

-- `drmModeCrtc`; `mode` is `none` where `mode_valid` is 0.
pub record Crtc : Type 0 where
  pub crtc_id : ℕ
  pub buffer_id : ℕ
  pub width : ℕ
  pub height : ℕ
  pub mode : Option ModeInfo
  pub gamma_size : ℕ

unfoldable pub drm_mode_get_crtc : Device → (fd crtc_id : ℕ) → (alloc : Bool) → Outcome Crtc
unfolding check_fd
drm_mode_get_crtc d fd crtc_id alloc =
    if not (check_fd fd)
    then fail ebadf
    else if not (crtc_id == 1)
    then fail enoent
    else if not alloc
    then fail enomem
    else ok (record {
      crtc_id = 1;
      buffer_id = d.crtc_fb_id;
      width = if d.crtc_mode_valid then d.crtc_mode.hdisplay else 0;
      height = if d.crtc_mode_valid then d.crtc_mode.vdisplay else 0;
      mode = if d.crtc_mode_valid then some d.crtc_mode else none;
      gamma_size = 256;
    })

unfoldable pub drm_mode_set_crtc :
    Device → (fd crtc_id fb_id : ℕ) → (mode : Option ModeInfo) → Device × Outcome (Unit {0})
unfolding check_fd
drm_mode_set_crtc d fd crtc_id fb_id mode = require (check_fd fd) ebadf d (
    require (crtc_id == 1) enoent d (elim mode [
      | none ↦ (record d { crtc_fb_id = fb_id; crtc_mode_valid = false }, ok tt)
      | some m ↦ (record d { crtc_fb_id = fb_id; crtc_mode = m; crtc_mode_valid = true }, ok tt)
    ]))
