-- ===== src/Drm/Buffers/Framebuffers.antt =====
-- drmModeAddFB, drmModeAddFB2, drmModeRmFB and fb_id_to_surface of drm_linux.c, and the calls on the
-- buffer tables in any order.
use wwn_iland.Common.{
  ℕ, ◌+◌, ◌%◌, Bool, not, Option, none, some, List, [], ◌∷◌, ◌==◌, get_or, set, find_index, find?,
  Outcome, ok, fail, ebadf, einval, enoent, enomem, require,
}
use wwn_iland.Drm.Buffers.{
  Buffers, FbEntry, DisplaySurfaceInfo, check_fd, word32, no_fb, retain, release_if,
  handle_to_surface, drm_mode_create_dumb_buffer, drm_mode_destroy_dumb_buffer,
  drm_register_gbm_buffer, drm_unregister_gbm_buffer,
}

-- The `fb_entry_t` that `drmModeAddFB` writes into its slot.
abbrev pub new_fb : Buffers → (width height bpp pitch bo_handle : ℕ) → FbEntry
new_fb b width height bpp pitch bo_handle = record {
  fb_id = b.next_fb_id;
  handle = bo_handle;
  surface = handle_to_surface b bo_handle;
  width = width;
  height = height;
  bpp = bpp;
  pitch = pitch;
}

unfoldable pub install_fb : Buffers → (slot width height bpp pitch bo_handle : ℕ) → Buffers
unfolding retain
install_fb b slot width height bpp pitch bo_handle = record b {
  fbs = set b.fbs slot (new_fb b width height bpp pitch bo_handle);
  next_fb_id = (b.next_fb_id + 1) % word32;
  refs = retain (handle_to_surface b bo_handle) b.refs;
}

-- `has_buf_id` says that the pointer for the result is not null.
unfoldable pub drm_mode_add_fb :
    Buffers → (fd width height bpp pitch bo_handle : ℕ) → (has_buf_id : Bool) → Buffers × Outcome ℕ
unfolding check_fd
drm_mode_add_fb b fd width height bpp pitch bo_handle has_buf_id = require (check_fd fd) ebadf b (
    require has_buf_id einval b (
      require (not (handle_to_surface b bo_handle == 0)) enoent b
        (elim (find_index (λ f. f.fb_id == 0) b.fbs) [
          | none ↦ (b, fail enomem)
          | some slot ↦ (install_fb b slot width height bpp pitch bo_handle, ok b.next_fb_id)
        ])))

-- The first element of an array argument, 0 where the pointer is null.
abbrev pub first_or_zero : Option (List ℕ) → ℕ
first_or_zero none = 0
first_or_zero (some xs) = get_or xs 0 0

-- Also `drmModeAddFB2WithModifiers`, which has the same body.
unfoldable pub drm_mode_add_fb2 :
    Buffers
    → (fd width height : ℕ) → (bo_handles pitches : Option (List ℕ)) → (has_buf_id : Bool)
    → Buffers × Outcome ℕ
drm_mode_add_fb2 b fd width height bo_handles pitches has_buf_id =
    drm_mode_add_fb b fd width height 32 (first_or_zero pitches) (first_or_zero bo_handles)
      has_buf_id

-- `if (g_fbs[i].surface) CFRelease(g_fbs[i].surface); g_fbs[i] = (fb_entry_t){0};`
unfoldable pub clear_fb : Buffers → (i : ℕ) → Buffers
unfolding release_if
clear_fb b i = record b {
  fbs = set b.fbs i no_fb;
  refs = release_if (get_or b.fbs i no_fb).surface b.refs;
}

unfoldable pub drm_mode_rm_fb : Buffers → (fd buf_id : ℕ) → Buffers × Outcome (Unit {0})
unfolding check_fd
drm_mode_rm_fb b fd buf_id =
    require (check_fd fd) ebadf b (elim (find_index (λ f. f.fb_id == buf_id) b.fbs) [
      | none ↦ (b, fail enoent)
      | some i ↦ (clear_fb b i, ok tt)
    ])

unfoldable pub fb_id_to_surface : Buffers → (fb_id : ℕ) → ℕ
fb_id_to_surface b fb_id = elim (find? (λ f. f.fb_id == fb_id) b.fbs) [
  | none ↦ 0
  | some f ↦ f.surface
]

-- The calls that change the tables.
pub data BufferCall : Type 0 where
  create_dumb : (fd width height bpp : ℕ) → DisplaySurfaceInfo → BufferCall
  destroy_dumb : (fd handle : ℕ) → BufferCall
  register_gbm : (handle surface : ℕ) → BufferCall
  unregister_gbm : (handle : ℕ) → BufferCall
  add_fb : (fd width height bpp pitch bo_handle : ℕ) → (has_buf_id : Bool) → BufferCall
  rm_fb : (fd buf_id : ℕ) → BufferCall

unfoldable pub step : Buffers → BufferCall → Buffers
step b (create_dumb fd width height bpp dsi) =
    (drm_mode_create_dumb_buffer b fd width height bpp dsi).0
step b (destroy_dumb fd handle) = (drm_mode_destroy_dumb_buffer b fd handle).0
step b (register_gbm handle surface) = drm_register_gbm_buffer b handle surface
step b (unregister_gbm handle) = drm_unregister_gbm_buffer b handle
step b (add_fb fd width height bpp pitch bo_handle has_buf_id) =
    (drm_mode_add_fb b fd width height bpp pitch bo_handle has_buf_id).0
step b (rm_fb fd buf_id) = (drm_mode_rm_fb b fd buf_id).0

unfoldable pub run : Buffers → List BufferCall → Buffers
unfolding step
run b [] = b
run b (c ∷ cs) = run (step b c) cs
