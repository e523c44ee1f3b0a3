-- ===== src/Drm/Atomic/Tests.antt =====
-- Examples for the theorems on the atomic commits and the object queries of drm_linux.c.
use wwn_iland.Common.{◌≡◌, refl, true, some, none, [], ◌∷◌, arith, find?, find_index}
use wwn_iland.Drm.Buffers.{drm_virtual_fd}
use wwn_iland.Drm.Props
use wwn_iland.Drm.Props.{ObjProps, PropStore, max_obj_props, object_plane}
use wwn_iland.Drm.Props.Records.{ensure_obj_properties}
use wwn_iland.Drm.Props.Defaults.{IsBooted, ensure-initial}
use wwn_iland.Drm.Device.{Device, initial}
use wwn_iland.Drm.Objects.{drm_mode_get_plane}
use wwn_iland.Drm.Atomic.{AtomicReq, drm_mode_atomic_commit}
use wwn_iland.Drm.Atomic.Commits.Reports.{commit_assigns_last_values, value_in, last_value}
use wwn_iland.Drm.Atomic.Commits.Flags.{commit_ignores_flags}
use wwn_iland.Drm.Atomic.Commits.Planes.{get_plane-commit}

-- The property store after a first query has made the default objects.
abbrev store : PropStore
store = elim (ensure_obj_properties Props.initial) [ none ↦ Props.initial | some s ↦ s ]

store-IsBooted : IsBooted store
store-IsBooted = let (s, e, v) = ensure-initial in rw (e, store) v

abbrev booted : Device
booted = record initial { props = store }

-- A framebuffer for the object with id 1, then another one.
abbrev request : AtomicReq
request =
    record { obj_id = 1; prop_id = 7; value = 5 }
    ∷ record { obj_id = 1; prop_id = 7; value = 6 }
    ∷ []

commit_assigns_last_values_example :
    value_in (drm_mode_atomic_commit booted drm_virtual_fd (some request) 1 9).0.props.objs 1 7 ≡ 6
unfolding last_value initial ensure_obj_properties find? find_index
commit_assigns_last_values_example =
    commit_assigns_last_values booted request 1 9 1 7 _ store-IsBooted refl (omega arith)

commit_ignores_flags_example :
    let (d1, r1) = drm_mode_atomic_commit booted drm_virtual_fd (some request) 0 0 in
    let (d2, r2) = drm_mode_atomic_commit booted drm_virtual_fd (some request) 256 9 in
    (d1.props ≡ d2.props) × (d1.bufs ≡ d2.bufs) × (d1.crtc_fb_id ≡ d2.crtc_fb_id) × (r1 ≡ r2)
commit_ignores_flags_example = commit_ignores_flags booted request 0 0 256 9

get_plane-commit_example :
    let d' = (drm_mode_atomic_commit booted drm_virtual_fd (some request) 1 9).0 in
    (drm_mode_get_plane d' drm_virtual_fd 1 true).1
    ≡ (drm_mode_get_plane booted drm_virtual_fd 1 true).1
get_plane-commit_example = get_plane-commit booted request 1 9 store-IsBooted
