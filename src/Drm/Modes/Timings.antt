-- ===== src/Drm/Modes/Timings.antt =====
-- The modes that drm_linux.c offers.
use wwn_iland.Common.{
  ℕ, ◌+◌, ◌*◌, ◌<◌, ◌≤◌, ◌≡◌, ◌≢◌, Bool, true, false, ◌&&◌, All, ap, ◌++◌, some, none, List, [],
  ◌∷◌, arith, ltb, ok,
}
use wwn_iland.Drm.Buffers.{word32, drm_virtual_fd}
use wwn_iland.Drm.Modes.{
  Modes, ModeInfo, DisplayMode, PlistEntry, word16, make_mode, init_modes, probe_plist,
  get_display_refresh_rate, iland_drm_set_preferred_mode, drm_mode_get_connector,
}

-- The scan-out timings are in order, and the clock is the pixel rate in kHz, rounded, as long as
-- the size fits 16 bits with its blanking and the pixel rate fits 32 bits.
pub record IsTiming (w h refresh : ℕ) (m : ModeInfo) : Type 0 where
  pub size : (m.hdisplay ≡ w) × (m.vdisplay ≡ h)
  pub horizontal :
      (m.hdisplay < m.hsync_start) × (m.hsync_start < m.hsync_end) × (m.hsync_end < m.htotal)
  pub vertical :
      (m.vdisplay < m.vsync_start) × (m.vsync_start < m.vsync_end) × (m.vsync_end < m.vtotal)
  pub clock_low : m.clock * 1000 ≤ w * h * refresh + 500
  pub clock_high : w * h * refresh + 500 < (m.clock + 1) * 1000

make_mode-IsTiming :
    (w h refresh : ℕ)
    → w + 300 < word16
    → h + 45 < word16
    → w * h * refresh + 500 < word32
    → IsTiming w h refresh (make_mode w h refresh)
unfolding make_mode
make_mode-IsTiming w h refresh hw hh fits = omega arith

-- A preferred mode that the host sets is the only mode that the connector lists afterwards, with its
-- size and its refresh rate, whatever was listed before and whatever the system reports; if its size
-- and pixel rate fit their fields, its timings are in order.
pub connector_lists_preferred :
    (m : Modes) (display : DisplayMode) (plist : List PlistEntry) (w h refresh : ℕ)
    → w ≢ 0
    → h ≢ 0
    → refresh ≢ 0
    → w + 300 < word16
    → h + 45 < word16
    → w * h * refresh + 500 < word32
    → let (m', r) =
        drm_mode_get_connector
          (iland_drm_set_preferred_mode m w h refresh)
          display
          plist
          drm_virtual_fd
          1
          true in
      (r
        ≡ ok (record {
          connector_id = 1;
          encoder_id = 1;
          connector_modes = make_mode w h refresh ∷ [];
        }))
      × (m'.modes ≡ make_mode w h refresh ∷ [])
      × IsTiming w h refresh (make_mode w h refresh)
unfolding drm_mode_get_connector iland_drm_set_preferred_mode init_modes
connector_lists_preferred m display plist w h refresh w0 h0 r0 hw hh fits =
    (ground arith, ground arith, make_mode-IsTiming w h refresh hw hh fits)

-- Once modes are listed, the connector goes on to list the same ones until the host sets a preferred
-- mode, whatever the system reports in the meantime.
pub connector_modes_stable :
    (m : Modes) (display later : DisplayMode) (plist changed : List PlistEntry)
    → let (m', r) = drm_mode_get_connector m display plist drm_virtual_fd 1 true in
      drm_mode_get_connector m' later changed drm_virtual_fd 1 true ≡ (m', r)
unfolding drm_mode_get_connector init_modes
connector_modes_stable m display later plist changed = ground arith

-- An entry with both numbers, neither of them 0.
abbrev sized : PlistEntry → Bool
sized (some w, some h) = ltb 0 w && ltb 0 h
sized (none, high) = false
sized (some w, none) = false

probe_plist-append :
    (pre : List PlistEntry) (w h pw ph : ℕ)
    → All (λ e. sized e ≡ false) pre
    → probe_plist (pre ++ (some w, some h) ∷ []) pw ph ≡ (w, h)
unfolding probe_plist
probe_plist-append [] w h pw ph a = ground arith
probe_plist-append ((none, high) ∷ pre) w h pw ph a = probe_plist-append pre w h pw ph a.1
probe_plist-append ((some x, none) ∷ pre) w h pw ph a = probe_plist-append pre w h pw ph a.1
probe_plist-append ((some x, some y) ∷ pre) w h pw ph a =
    rw a.0 (probe_plist-append pre w h x y a.1)

-- With no preferred mode, where no display entry before the last has a size and the last one's
-- numbers are both there, the last entry's numbers make the first mode, also if one of them is 0; the
-- default of 1920x1080 comes second only.
pub last_entry_is_native_mode :
    (display : DisplayMode) (pre : List PlistEntry) (w h : ℕ)
    → All (λ e. sized e ≡ false) pre
    → (init_modes
        (record { modes = []; pref_w = 0; pref_h = 0; pref_refresh = 0 })
        display
        (pre ++ (some w, some h) ∷ [])).modes
      ≡ make_mode w h (get_display_refresh_rate display)
        ∷ make_mode 1920 1080 (get_display_refresh_rate display)
        ∷ []
unfolding init_modes
last_entry_is_native_mode display pre w h a =
    ap
      (λ (size : ℕ × ℕ).
        make_mode size.0 size.1 (get_display_refresh_rate display)
        ∷ make_mode 1920 1080 (get_display_refresh_rate display)
        ∷ [])
      (probe_plist-append pre w h 1920 1080 a)
