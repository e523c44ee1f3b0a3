-- ===== src/Drm/Modes.antt =====
-- The mode table of drm_linux.c: iland_drm_set_preferred_mode, get_display_refresh_rate, init_modes
-- and drmModeGetConnector.
pub mod Timings
mod Tests
use wwn_iland.Common.{
  ℕ, ◌+◌, ◌*◌, ◌/◌, ◌%◌, ◌^◌, Bool, ◌&&◌, not, Option, none, some, List, [], ◌∷◌, if◌then◌else◌,
  ltb, ◌==◌, length, Outcome, ok, ebadf, enoent, enomem, require,
}
use wwn_iland.Drm.Buffers.{check_fd, word32}

-- `uint16_t`
abbrev pub word16 : ℕ
word16 = 2 ^ 16

-- `drmModeModeInfo`. `name` holds the two numbers that are printed as "%ux%u"; the fields that
-- `memset` leaves at 0 for good are left out.
pub record ModeInfo : Type 0 where
  pub clock : ℕ
  pub hdisplay : ℕ
  pub hsync_start : ℕ
  pub hsync_end : ℕ
  pub htotal : ℕ
  pub vdisplay : ℕ
  pub vsync_start : ℕ
  pub vsync_end : ℕ
  pub vtotal : ℕ
  pub vrefresh : ℕ
  pub name : ℕ × ℕ

-- `g_modes[0 .. g_mode_count)` and the preferred mode, 0 where none is set.
pub record Modes : Type 0 where
  pub modes : List ModeInfo
  pub pref_w : ℕ
  pub pref_h : ℕ
  pub pref_refresh : ℕ

unfoldable pub iland_drm_set_preferred_mode : Modes → (w h refresh : ℕ) → Modes
iland_drm_set_preferred_mode m w h refresh = record {
  modes = [];
  pref_w = w;
  pref_h = h;
  pref_refresh = refresh;
}

-- What CoreGraphics says of the main display: no mode, a rate that is not above 0, or a rate, here
-- rounded as `(uint32_t)(r + 0.5)`.
pub data DisplayMode : Type 0 where
  no_mode : DisplayMode
  zero_rate : DisplayMode
  rate : ℕ → DisplayMode

at_least_60 : ℕ → ℕ
at_least_60 refresh = if ltb refresh 60 then 60 else refresh

unfoldable pub get_display_refresh_rate : DisplayMode → ℕ
unfolding at_least_60
get_display_refresh_rate no_mode = at_least_60 60
get_display_refresh_rate zero_rate = at_least_60 120
get_display_refresh_rate (rate r) = at_least_60 r

-- A display entry of the WindowServer's property list: its "Wide" and "High", where it has them.
abbrev pub PlistEntry : Type 0
PlistEntry = Option ℕ × Option ℕ

-- The loop up to `found`: each entry with both numbers overwrites `pw` and `ph`, and the first with
-- both above 0 ends the loop.
unfoldable pub probe_plist : List PlistEntry → (pw ph : ℕ) → ℕ × ℕ
probe_plist [] pw ph = (pw, ph)
probe_plist ((none, high) ∷ es) pw ph = probe_plist es pw ph
probe_plist ((some w, none) ∷ es) pw ph = probe_plist es pw ph
probe_plist ((some w, some h) ∷ es) pw ph =
    let rest = probe_plist es w h in if ltb 0 w && ltb 0 h then (w, h) else rest

-- The timings that the source writes for a size of `w` by `h`.
unfoldable pub make_mode : (w h refresh : ℕ) → ModeInfo
make_mode w h refresh = record {
  clock = ((w * h * refresh) % word32 + 500) % word32 / 1000;
  hdisplay = w % word16;
  hsync_start = (w + 88) % word16;
  hsync_end = (w + 88 + 44) % word16;
  htotal = (w + 88 + 44 + 168) % word16;
  vdisplay = h % word16;
  vsync_start = (h + 4) % word16;
  vsync_end = (h + 4 + 5) % word16;
  vtotal = (h + 4 + 5 + 36) % word16;
  vrefresh = refresh;
  name = (w, h);
}

unfoldable pub init_modes : Modes → DisplayMode → List PlistEntry → Modes
unfolding get_display_refresh_rate probe_plist make_mode
init_modes m display plist =
    if ltb 0 (length m.modes)
    then m
    else if ltb 0 m.pref_w && ltb 0 m.pref_h
    then preferred
    else probed
  where
    preferred : Modes
    preferred = record m {
      modes =
          make_mode m.pref_w m.pref_h
            (if ltb 0 m.pref_refresh then m.pref_refresh else get_display_refresh_rate display)
          ∷ [];
    }

    probed : Modes
    probed =
        let (pw, ph) = probe_plist plist 1920 1080 in
        record m {
          modes =
              make_mode pw ph (get_display_refresh_rate display)
              ∷ make_mode 1920 1080 (get_display_refresh_rate display)
              ∷ [];
        }

-- The fields of `drmModeConnector` that are not constants.
pub record Connector : Type 0 where
  pub connector_id : ℕ
  pub encoder_id : ℕ
  pub connector_modes : List ModeInfo

-- `alloc` says whether `calloc` gave memory for the result.
unfoldable pub drm_mode_get_connector :
    Modes
    → DisplayMode
    → List PlistEntry
    → (fd connector_id : ℕ) → (alloc : Bool) → Modes × Outcome Connector
unfolding check_fd
drm_mode_get_connector m display plist fd connector_id alloc = require (check_fd fd) ebadf m (
    require (connector_id == 1) enoent m (
      require alloc enomem m (
        let m' = init_modes m display plist in
        (m', ok (record { connector_id = 1; encoder_id = 1; connector_modes = m'.modes })))))
