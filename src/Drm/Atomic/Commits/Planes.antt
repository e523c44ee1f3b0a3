-- ===== src/Drm/Atomic/Commits/Planes.antt =====
-- What drmModeGetPlane of drm_linux.c answers, also after atomic commits.
use wwn_iland.Common.{
  ℕ, ◌%◌, ◌^◌, ◌≡◌, ◌∙◌, ap, sym, refl, true, ◌&&◌, some, List, [], ◌∷◌, ◌==◌, get_or, get_elem?,
  get_or-of_get_elem?, find_index, ok,
}
use wwn_iland.Drm.Buffers.{drm_virtual_fd}
use wwn_iland.Drm.Props.{ObjProps, object_plane}
use wwn_iland.Drm.Props.Records.{no_obj, get_obj_prop}
use wwn_iland.Drm.Props.Defaults.{
  IsBooted, HasDefaults, ensure-IsBooted, ensure_cached-IsBooted, default_indices,
  get_obj_props-found,
}
use wwn_iland.Drm.Device.{Device}
use wwn_iland.Drm.Objects.{
  Plane, format_xrgb8888, format_argb8888, plane_formats, drm_mode_get_plane,
}
use wwn_iland.Drm.Atomic.{AtomicReq, drm_mode_atomic_commit}
use wwn_iland.Drm.Atomic.Commits.Reports.{commit-IsBooted, commit_never_reaches_primary_plane}

-- A plane of this driver, which all run on its one CRTC.
unfoldable pub planes : (plane_id fb_id : ℕ) → (formats : List ℕ) → Plane
planes plane_id fb_id formats = record {
  plane_id = plane_id;
  possible_crtcs = 1;
  crtc_id = 1;
  fb_id = fb_id;
  gamma_size = 256;
  formats = formats;
}

-- The answer for a known plane, from the record that stands at its index.
get_plane_known :
    (d : Device) (plane i : ℕ) (formats : List ℕ)
    → IsBooted d.props
    → find_index (λ o. o.obj_id == plane && o.obj_type == object_plane) d.props.objs ≡ some i
    → plane_formats plane ≡ some formats
    → (drm_mode_get_plane d drm_virtual_fd plane true).1
      ≡ ok (record {
        plane_id = plane;
        possible_crtcs = 1;
        crtc_id = 1;
        fb_id = get_obj_prop (get_or d.props.objs i no_obj) d.props.cached.fb_id % 2 ^ 32;
        gamma_size = 256;
        formats = formats;
      })
unfolding drm_mode_get_plane
get_plane_known d plane i formats v found f =
    let e = ensure-IsBooted d.props v in
    let c = ensure_cached-IsBooted d.props v in
    let g = get_obj_props-found d.props.objs plane object_plane i found in
    rw (e, c, g, f) (rw (c, g))

plane_records :
    (os : List ObjProps)
    → HasDefaults os
    → (primary : ObjProps) × (cursor : ObjProps) × (get_elem? os 2 ≡ some primary)
      × (get_elem? os 3 ≡ some cursor)
plane_records (crtc ∷ connector ∷ primary ∷ cursor ∷ rest) h = (primary, cursor, refl, refl)
plane_records [] h = absurd h
plane_records (a ∷ []) h = absurd h
plane_records (a ∷ b ∷ []) h = absurd h
plane_records (a ∷ b ∷ c ∷ []) h = absurd h

-- On a device whose default objects are made, drmModeGetPlane succeeds for the primary and the cursor
-- plane and reports the FB_ID that their records, the third and the fourth, hold.
pub get_plane_lem :
    (d : Device) (primary cursor : ObjProps)
    → IsBooted d.props
    → get_elem? d.props.objs 2 ≡ some primary
    → get_elem? d.props.objs 3 ≡ some cursor
    → ((drm_mode_get_plane d drm_virtual_fd 1 true).1
        ≡ ok (planes 1 (get_obj_prop primary 7 % 2 ^ 32) (format_xrgb8888 ∷ format_argb8888 ∷ [])))
      × ((drm_mode_get_plane d drm_virtual_fd 2 true).1
          ≡ ok (planes 2 (get_obj_prop cursor 7 % 2 ^ 32) (format_argb8888 ∷ [])))
unfolding planes plane_formats
get_plane_lem d primary cursor v at2 at3 =
    let (i0, i1, i2, i3) = default_indices d.props.objs v.defaults in
    let id : d.props.cached.fb_id ≡ 7 = ap (λ k. k.fb_id) v.cached_is in
    (
      get_plane_known d 1 2 _ v i2 refl
          ∙ rw (id, get_or-of_get_elem? d.props.objs 2 primary no_obj at2),
      get_plane_known d 2 3 _ v i3 refl
          ∙ rw (id, get_or-of_get_elem? d.props.objs 3 cursor no_obj at3),
    )

-- After any commit drmModeGetPlane answers for the primary plane what it answered before, also after
-- one that shows a new framebuffer on it.
pub get_plane-commit :
    (d : Device) (req : AtomicReq) (flags user_data : ℕ)
    → IsBooted d.props
    → let d' = (drm_mode_atomic_commit d drm_virtual_fd (some req) flags user_data).0 in
      (drm_mode_get_plane d' drm_virtual_fd 1 true).1
      ≡ (drm_mode_get_plane d drm_virtual_fd 1 true).1
get_plane-commit d req flags user_data v =
    let v' = (commit-IsBooted d req flags user_data v).1 in
    let kept = (commit_never_reaches_primary_plane d req flags user_data v).1 in
    let (x, cursor, at, at3) = plane_records d.props.objs v.defaults in
    let (x', cursor', at', at3') = plane_records _ v'.defaults in
    (get_plane_lem _ x cursor' v' (kept ∙ at) at3').0 ∙ sym (get_plane_lem d x cursor v at at3).0
