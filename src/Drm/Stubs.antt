-- ===== src/Drm/Stubs.antt =====
-- The calls of drm_linux.c that keep no state: authentication, the cursor and plane calls from before
-- atomic requests, synchronisation objects, prime descriptors and the names of modifiers. A result
-- written through a pointer is the outcome; `has_…` says that the pointer is not null.
use Prim.Native.String.{String}
use wwn_iland.Common.{
  ℕ, Bool, true, false, Option, none, some, Outcome, ok, fail, ebadf, einval, enosys, enotsup,
  if◌then◌else◌, ◌==◌,
}
use wwn_iland.Drm.Buffers.{Buffers, check_fd}
use wwn_iland.Drm.Buffers.Framebuffers.{drm_mode_add_fb, first_or_zero}
use wwn_iland.Common.{List}

unfoldable pub drm_ioctl : (fd request : ℕ) → Outcome (Unit {0})
drm_ioctl fd request = fail enosys

-- `if (check_fd(fd) < 0) return -1;` before a constant result.
unfoldable checked {ℓ} : {A : Type ℓ} → (fd : ℕ) → Outcome A → Outcome A
unfolding check_fd
checked fd r = if check_fd fd then r else fail ebadf

-- A number written through a pointer, where there is one.
abbrev written : (has_pointer : Bool) → ℕ → Option ℕ
written true n = some n
written false n = none

unfoldable pub drm_get_magic : (fd : ℕ) → (has_magic : Bool) → Outcome (Option ℕ)
unfolding checked
drm_get_magic fd has_magic = checked fd (ok (written has_magic 1))

unfoldable pub drm_auth_magic : (fd magic : ℕ) → Outcome (Unit {0})
unfolding checked
drm_auth_magic fd magic = checked fd (ok tt)

unfoldable pub drm_set_master : (fd : ℕ) → Outcome (Unit {0})
unfolding checked
drm_set_master fd = checked fd (ok tt)

unfoldable pub drm_drop_master : (fd : ℕ) → Outcome (Unit {0})
unfolding checked
drm_drop_master fd = checked fd (ok tt)

unfoldable pub drm_mode_set_cursor : (fd crtc_id bo_handle width height : ℕ) → Outcome (Unit {0})
drm_mode_set_cursor fd crtc_id bo_handle width height = fail enotsup

unfoldable pub drm_mode_move_cursor : (fd crtc_id x y : ℕ) → Outcome (Unit {0})
drm_mode_move_cursor fd crtc_id x y = fail enotsup

unfoldable pub drm_syncobj_create : (fd flags : ℕ) → (has_handle : Bool) → Outcome (Option ℕ)
unfolding checked
drm_syncobj_create fd flags has_handle = checked fd (ok (written has_handle 42))

unfoldable pub drm_syncobj_destroy : (fd handle : ℕ) → Outcome (Unit {0})
unfolding checked
drm_syncobj_destroy fd handle = checked fd (ok tt)

unfoldable pub drm_syncobj_import_sync_file : (fd handle sync_file_fd : ℕ) → Outcome (Unit {0})
unfolding checked
drm_syncobj_import_sync_file fd handle sync_file_fd = checked fd (ok tt)

-- What a call writes before it fails with ENOSYS is -1.
unfoldable pub drm_syncobj_export_sync_file : (fd handle : ℕ) → Outcome ℕ
unfolding checked
drm_syncobj_export_sync_file fd handle = checked fd (fail enosys)

unfoldable pub drm_syncobj_fd_to_handle :
    (fd sync_file_fd : ℕ) → (has_handle : Bool) → Outcome (Option ℕ)
unfolding checked
drm_syncobj_fd_to_handle fd sync_file_fd has_handle = checked fd (ok (written has_handle 42))

unfoldable pub drm_syncobj_handle_to_fd : (fd handle : ℕ) → Outcome ℕ
unfolding checked
drm_syncobj_handle_to_fd fd handle = checked fd (fail enosys)

-- `pipe` is the read end of a new pipe whose write end is closed, `none` where the system makes none.
unfoldable pub drm_prime_handle_to_fd :
    (fd handle flags : ℕ) → (has_prime_fd : Bool) → (pipe : Option ℕ) → Outcome ℕ
unfolding checked
drm_prime_handle_to_fd fd handle flags has_prime_fd pipe =
    checked fd
      (if has_prime_fd then elim pipe [ none ↦ fail enosys | some end ↦ ok end ] else fail einval)

-- It also closes `prime_fd`.
unfoldable pub drm_prime_fd_to_handle : (fd prime_fd : ℕ) → (has_handle : Bool) → Outcome (Option ℕ)
unfolding checked
drm_prime_fd_to_handle fd prime_fd has_handle = checked fd (ok (written has_handle 1))

unfoldable pub drm_mode_add_fb2_with_modifiers :
    Buffers
    → (fd width height : ℕ) → (bo_handles pitches : Option (List ℕ)) → (has_buf_id : Bool)
    → Buffers × Outcome ℕ
drm_mode_add_fb2_with_modifiers b fd width height bo_handles pitches has_buf_id =
    drm_mode_add_fb b fd width height 32 (first_or_zero pitches) (first_or_zero bo_handles)
      has_buf_id

-- `DRM_FORMAT_MOD_LINEAR`
abbrev format_mod_linear : ℕ
format_mod_linear = 0

unfoldable pub drm_get_format_modifier_name : (modifier : ℕ) → Option String
drm_get_format_modifier_name modifier =
    if modifier == format_mod_linear then some "Linear" else none

unfoldable pub drm_close_buffer_handle : (fd handle : ℕ) → Outcome (Unit {0})
unfolding checked
drm_close_buffer_handle fd handle = checked fd (ok tt)

unfoldable pub drm_mode_connector_set_property :
    (fd connector_id property_id value : ℕ) → Outcome (Unit {0})
unfolding checked
drm_mode_connector_set_property fd connector_id property_id value = checked fd (ok tt)

unfoldable pub drm_mode_crtc_set_gamma : (fd crtc_id size : ℕ) → Outcome (Unit {0})
unfolding checked
drm_mode_crtc_set_gamma fd crtc_id size = checked fd (ok tt)

unfoldable pub drm_mode_set_plane : (fd plane_id crtc_id fb_id flags : ℕ) → Outcome (Unit {0})
unfolding checked
drm_mode_set_plane fd plane_id crtc_id fb_id flags = checked fd (ok tt)

unfoldable pub drm_wait_vblank : (fd : ℕ) → Outcome (Unit {0})
unfolding checked
drm_wait_vblank fd = checked fd (ok tt)

unfoldable pub drm_mode_format_modifier_blob_iter_next : Bool
drm_mode_format_modifier_blob_iter_next = false

unfoldable pub drm_get_format_modifier_vendor : (modifier : ℕ) → Option String
drm_get_format_modifier_vendor modifier =
    if modifier == format_mod_linear then some "NONE" else none
