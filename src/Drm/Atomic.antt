-- ===== src/Drm/Atomic.antt =====
-- Atomic requests of drm_linux.c: drmModeAtomicAlloc, drmModeAtomicAddProperty and
-- drmModeAtomicCommit.
pub mod Commits
mod Tests
use wwn_iland.Common.{
  ℕ, ◌%◌, ◌^◌, Bool, true, false, ◌&&◌, ◌||◌, not, Option, none, some, List, [], ◌∷◌, ◌++◌,
  if◌then◌else◌, leb, ltb, ◌==◌, length, get_or, set, find_index, Outcome, ok, fail, fault, ebadf,
  einval, enomem, require,
}
use wwn_iland.Drm.Buffers.{check_fd, word32}
use wwn_iland.Drm.Buffers.Framebuffers.{fb_id_to_surface}
use wwn_iland.Drm.Props.{ObjProps, PropStore}
use wwn_iland.Drm.Props.Records.{no_obj, ensure_obj_properties, set_obj_prop, get_obj_prop}
use wwn_iland.Drm.Device.{
  Device, Effect, present, cursor_set, cursor_move, send_page_flip, send_cursor_set,
  send_cursor_move,
}
use wwn_iland.Drm.Flip.{signal_flip}

abbrev pub max_atomic_props : ℕ
max_atomic_props = 64

pub record Assignment : Type 0 where
  pub obj_id : ℕ
  pub prop_id : ℕ
  pub value : ℕ

-- `drmModeAtomicReq`: the used parts of its three arrays, side by side.
abbrev pub AtomicReq : Type 0
AtomicReq = List Assignment

unfoldable pub drm_mode_atomic_alloc : AtomicReq
drm_mode_atomic_alloc = []

-- `none` is a null request. The result is the new count.
unfoldable pub drm_mode_atomic_add_property :
    Option AtomicReq → (object_id property_id value : ℕ) → Option AtomicReq × Outcome ℕ
drm_mode_atomic_add_property none object_id property_id value = (none, fail einval)
drm_mode_atomic_add_property (some req) object_id property_id value =
    require (not (leb max_atomic_props (length req))) enomem (some req)
      (some req', ok (length req'))
  where
    req' : AtomicReq
    req' = req ++ record { obj_id = object_id; prop_id = property_id; value = value } ∷ []

abbrev is_some {ℓ} : {A : Type ℓ} → Option A → Bool
is_some none = false
is_some (some a) = true

-- The cursor's new surface goes to the host, or else to framebufferd.
unfoldable pub output_cursor : Device → (surface : ℕ) → Device
output_cursor d surface = elim d.cursor_cb [
  | some user ↦ record d { log = cursor_set user surface ∷ d.log }
  | none ↦ if is_some d.present_cb then d else record d { log = send_cursor_set surface ∷ d.log }
]

-- The plane's new frame goes to the host, or else to framebufferd.
unfoldable pub output_plane : Device → (fb surface flags : ℕ) → Device
output_plane d fb surface flags = elim d.present_cb [
  | some user ↦ record d { log = present user 1 fb surface flags ∷ d.log; crtc_fb_id = fb }
  | none ↦ record d { log = send_page_flip 1 fb flags surface ∷ d.log; crtc_fb_id = fb }
]

-- What an assignment of FB_ID puts out; `fb` is the value cut to 32 bits.
unfoldable pub output_fb : Device → (obj_id fb flags : ℕ) → Device
unfolding output_cursor output_plane fb_id_to_surface
output_fb d obj_id fb flags =
    if fb_id_to_surface d.bufs fb == 0
    then d
    else if obj_id == 2
    then output_cursor d (fb_id_to_surface d.bufs fb)
    else output_plane d fb (fb_id_to_surface d.bufs fb) flags

-- The assignment in the property store: the first record with the object's id takes it.
unfoldable pub assign : List ObjProps → Assignment → List ObjProps
unfolding set_obj_prop
assign os a = elim (find_index (λ o. o.obj_id == a.obj_id) os) [
  | none ↦ os
  | some i ↦ set os i (set_obj_prop (get_or os i no_obj) a.prop_id a.value)
]

-- One round of the loop. The second part is `new_fb_id`.
unfoldable pub apply : (flags : ℕ) → Device × ℕ → Assignment → Device × ℕ
unfolding assign output_fb
apply flags (d, new_fb) a = elim (find_index (λ o. o.obj_id == a.obj_id) d.props.objs) [
  | none ↦ (d, new_fb)
  | some i ↦
      let d' = record d { props = record d.props { objs = assign d.props.objs a } } in
      if a.prop_id == d.props.cached.fb_id
      then (
        output_fb d' a.obj_id (a.value % word32) flags,
        if a.obj_id == 2 then new_fb else a.value % word32,
      )
      else (d', new_fb)
]

unfoldable pub apply_all : (flags : ℕ) → Device × ℕ → AtomicReq → Device × ℕ
unfolding apply
apply_all flags s [] = s
apply_all flags s (a ∷ as') = apply_all flags (apply flags s a) as'

-- The cursor's move, once its position and framebuffer are read.
unfoldable pub move_cursor : Device → (cx cy fb : ℕ) → Device
move_cursor d cx cy fb =
    if ltb 0 fb && not (cx == d.prev_cursor.0 && cy == d.prev_cursor.1)
    then record d { prev_cursor = (cx, cy); log = moved d.cursor_cb ∷ d.log }
    else d
  where
    moved : Option ℕ → Effect
    moved none = send_cursor_move cx cy
    moved (some user) = cursor_move user cx cy

-- The part after the loop that looks at the record with id 2.
unfoldable pub forward_cursor : Device → (cursor_props : Option ℕ) → Device
unfolding move_cursor get_obj_prop
forward_cursor d none = d
forward_cursor d (some i) =
    let o = get_or d.props.objs i no_obj in
    move_cursor d (get_obj_prop o d.props.cached.crtc_x % word32)
      (get_obj_prop o d.props.cached.crtc_y % word32) (get_obj_prop o d.props.cached.fb_id)

-- `DRM_MODE_PAGE_FLIP_EVENT` is the lowest bit of the flags.
unfoldable pub finish_flip : Device → (flags user_data : ℕ) → Device
unfolding signal_flip
finish_flip d flags user_data =
    if flags % 2 == 1 then signal_flip (record d { pending_flip_data = user_data }) else d

-- `if (new_fb_id > 0) g_state.crtc_fb_id = new_fb_id;`
unfoldable pub set_crtc_fb : Device × ℕ → Device
set_crtc_fb (d, new_fb) = if ltb 0 new_fb then record d { crtc_fb_id = new_fb } else d

unfoldable pub drm_mode_atomic_commit :
    Device → (fd : ℕ) → Option AtomicReq → (flags user_data : ℕ) → Device × Outcome (Unit {0})
unfolding check_fd ensure_obj_properties apply_all set_crtc_fb forward_cursor finish_flip
drm_mode_atomic_commit d fd req flags user_data = require (check_fd fd) ebadf d (elim req [
  | none ↦ (d, fail einval)
  | some as' ↦ elim (ensure_obj_properties d.props) [
    | none ↦ (d, fault)
    | some s ↦
        let cursor_props = find_index (λ o. o.obj_id == 2) s.objs in
        let d' = set_crtc_fb (apply_all flags (record d { props = s }, 0) as') in
        (finish_flip (forward_cursor d' cursor_props) flags user_data, ok tt)
  ]
])
