-- ===== src/Drm/Buffers/Lookups.antt =====
-- What the calls on the buffer tables of drm_linux.c do to the lookups by handle and by id.
use wwn_iland.Common.{
  find_index-cases, ℕ, ◌+◌, ◌%◌, ◌≤◌, ◌<◌, ◌≡◌, ◌≢◌, refl, ◌⊎◌, inl, inr, Bool, true, some, arith,
  ◌==◌, if◌then◌else◌, get_elem?, count, find?-insert, find?-clear, find_index-count_zero,
  get_elem?-count, ok, fail, enoent, enomem,
}
use wwn_iland.Drm.Buffers.{
  Buffers, DumbBuf, FbEntry, DumbInfo, DisplaySurfaceInfo, word32, no_dumb, no_fb, new_dumb,
  check_fd, drm_virtual_fd, install_dumb, clear_dumb, handle_to_surface,
  drm_mode_create_dumb_buffer, drm_mode_destroy_dumb_buffer, drm_mode_map_dumb_buffer,
}
use wwn_iland.Drm.Buffers.Framebuffers.{
  new_fb, install_fb, clear_fb, fb_id_to_surface, drm_mode_add_fb, drm_mode_rm_fb,
}
use wwn_iland.Drm.Buffers.Handles.{HasHandles, dumb_fresh, fb_fresh}

-- What a successful `drmModeCreateDumbBuffer` found on its way.
record Created (b : Buffers) (fd width height bpp : ℕ) (dsi : DisplaySurfaceInfo) (b' : Buffers)
    (info : DumbInfo) : Type 0 where
  slot : ℕ
  old : DumbBuf
  at_slot : get_elem? b.dumb slot ≡ some old
  was_free : old.handle ≡ 0
  fd_ok : check_fd fd ≡ true
  after : b' ≡ install_dumb b slot width height bpp dsi
  handle_is : info.handle ≡ b.next_dumb_handle

create-Created :
    (b : Buffers) (fd width height bpp : ℕ) (dsi : DisplaySurfaceInfo) (b' : Buffers)
    (info : DumbInfo)
    → drm_mode_create_dumb_buffer b fd width height bpp dsi ≡ (b', ok info)
    → Created b fd width height bpp dsi b' info
unfolding drm_mode_create_dumb_buffer
create-Created b fd width height bpp dsi b' info h =
    elim (find_index-cases (λ d. d.handle == 0) b.dumb) [
      | inl e ↦ let k = rw (e, drm_mode_create_dumb_buffer) at h in absurd (ground (arith, k))
      | inr (i, x, e, g, p) ↦
          let k = rw (e, drm_mode_create_dumb_buffer) at h in
          record {
            slot = i;
            old = x;
            at_slot = g;
            was_free = ground arith;
            fd_ok = ground (arith, k);
            after = ground (arith, k);
            handle_is = ground (arith, k);
          }
    ]

-- A new dumb buffer maps at its surface's base address under the handle that the call returns, and
-- every other handle that is not 0 maps as before.
pub map-create :
    (b : Buffers) (fd width height bpp : ℕ) (dsi : DisplaySurfaceInfo) (b' : Buffers)
    (info : DumbInfo) (j : ℕ)
    → HasHandles b
    → drm_mode_create_dumb_buffer b fd width height bpp dsi ≡ (b', ok info)
    → j ≢ 0
    → drm_mode_map_dumb_buffer b' fd j
      ≡ (if info.handle == j then ok dsi.base_address else drm_mode_map_dumb_buffer b fd j)
unfolding drm_mode_map_dumb_buffer install_dumb
map-create b fd width height bpp dsi b' info j v h j0 =
    let c = create-Created b fd width height bpp dsi b' info h in
    let found =
      find?-insert (λ d. d.handle) b.dumb c.slot c.old (new_dumb b width height bpp dsi) j c.at_slot
        c.was_free (dumb_fresh b v) j0 in
    rw (c.after, c.fd_ok, c.handle_is, found) (ground arith)

record Cleared (b : Buffers) (fd handle : ℕ) (b' : Buffers) : Type 0 where
  index : ℕ
  old : DumbBuf
  at_index : get_elem? b.dumb index ≡ some old
  handle_is : old.handle ≡ handle
  fd_ok : check_fd fd ≡ true
  after : b' ≡ clear_dumb b index

destroy-Cleared :
    (b : Buffers) (fd handle : ℕ) (b' : Buffers)
    → drm_mode_destroy_dumb_buffer b fd handle ≡ (b', ok tt)
    → Cleared b fd handle b'
unfolding drm_mode_destroy_dumb_buffer
destroy-Cleared b fd handle b' h = elim (find_index-cases (λ d. d.handle == handle) b.dumb) [
  | inl e ↦ let k = rw (e, drm_mode_destroy_dumb_buffer) at h in absurd (ground (arith, k))
  | inr (i, x, e, g, p) ↦
      let k = rw (e, drm_mode_destroy_dumb_buffer) at h in
      record {
        index = i;
        old = x;
        at_index = g;
        handle_is = ground arith;
        fd_ok = ground (arith, k);
        after = ground (arith, k);
      }
]

-- A destroyed dumb buffer can no longer be mapped, and every other handle that is not 0 maps as
-- before.
pub map-destroy :
    (b : Buffers) (fd handle : ℕ) (b' : Buffers) (j : ℕ)
    → HasHandles b
    → drm_mode_destroy_dumb_buffer b fd handle ≡ (b', ok tt)
    → handle ≢ 0
    → j ≢ 0
    → drm_mode_map_dumb_buffer b' fd j
      ≡ (if handle == j then fail enoent else drm_mode_map_dumb_buffer b fd j)
unfolding drm_mode_map_dumb_buffer clear_dumb
map-destroy b fd handle b' j v h h0 j0 =
    let c = destroy-Cleared b fd handle b' h in
    let unique : count (λ d. d.handle == c.old.handle) b.dumb ≤ 1 =
      rw c.handle_is (v.dumb_unique handle h0) in
    let found =
      find?-clear (λ d. d.handle) b.dumb c.index c.old no_dumb j c.at_index refl unique j0 in
    rw (c.after, c.fd_ok, found, c.handle_is) (ground arith)

record Added (b : Buffers) (fd width height bpp pitch bo_handle : ℕ) (b' : Buffers) (id : ℕ)
    : Type 0 where
  slot : ℕ
  old : FbEntry
  at_slot : get_elem? b.fbs slot ≡ some old
  was_free : old.fb_id ≡ 0
  backed : handle_to_surface b bo_handle ≢ 0
  after : b' ≡ install_fb b slot width height bpp pitch bo_handle
  id_is : id ≡ b.next_fb_id

add_fb-Added :
    (b : Buffers) (fd width height bpp pitch bo_handle : ℕ) (has_buf_id : Bool) (b' : Buffers)
    (id : ℕ)
    → drm_mode_add_fb b fd width height bpp pitch bo_handle has_buf_id ≡ (b', ok id)
    → Added b fd width height bpp pitch bo_handle b' id
unfolding drm_mode_add_fb
add_fb-Added b fd width height bpp pitch bo_handle has_buf_id b' id h =
    elim (find_index-cases (λ f. f.fb_id == 0) b.fbs) [
      | inl e ↦ let k = rw (e, drm_mode_add_fb) at h in absurd (ground (arith, k))
      | inr (i, x, e, g, p) ↦
          let k = rw (e, drm_mode_add_fb) at h in
          record {
            slot = i;
            old = x;
            at_slot = g;
            was_free = ground arith;
            backed = ground (arith, k);
            after = ground (arith, k);
            id_is = ground (arith, k);
          }
    ]

-- A new framebuffer id finds the surface behind the buffer handle, a surface that is not null; it
-- holds one more reference to that surface, and every other id that is not 0 finds what it did.
pub fb_id_to_surface-add :
    (b : Buffers) (fd width height bpp pitch bo_handle : ℕ) (has_buf_id : Bool) (b' : Buffers)
    (id j : ℕ)
    → HasHandles b
    → drm_mode_add_fb b fd width height bpp pitch bo_handle has_buf_id ≡ (b', ok id)
    → j ≢ 0
    → (fb_id_to_surface b' j
        ≡ (if id == j then handle_to_surface b bo_handle else fb_id_to_surface b j))
      × (handle_to_surface b bo_handle ≢ 0)
      × (b'.refs (handle_to_surface b bo_handle) ≡ b.refs (handle_to_surface b bo_handle) + 1)
unfolding fb_id_to_surface install_fb
fb_id_to_surface-add b fd width height bpp pitch bo_handle has_buf_id b' id j v h j0 =
    let c = add_fb-Added b fd width height bpp pitch bo_handle has_buf_id b' id h in
    let new = new_fb b width height bpp pitch bo_handle in
    let found =
      find?-insert (λ f. f.fb_id) b.fbs c.slot c.old new j c.at_slot c.was_free (fb_fresh b v) j0 in
    (rw (c.after, c.id_is) (ground (arith, found)), c.backed, rw c.after (ground arith))

record Removed (b : Buffers) (fd buf_id : ℕ) (b' : Buffers) : Type 0 where
  index : ℕ
  old : FbEntry
  at_index : get_elem? b.fbs index ≡ some old
  id_is : old.fb_id ≡ buf_id
  after : b' ≡ clear_fb b index

rm_fb-Removed :
    (b : Buffers) (fd buf_id : ℕ) (b' : Buffers)
    → drm_mode_rm_fb b fd buf_id ≡ (b', ok tt)
    → Removed b fd buf_id b'
unfolding drm_mode_rm_fb
rm_fb-Removed b fd buf_id b' h = elim (find_index-cases (λ f. f.fb_id == buf_id) b.fbs) [
  | inl e ↦ let k = rw (e, drm_mode_rm_fb) at h in absurd (ground (arith, k))
  | inr (i, x, e, g, p) ↦
      let k = rw (e, drm_mode_rm_fb) at h in
      record { index = i; old = x; at_index = g; id_is = ground arith; after = ground (arith, k) }
]

-- A removed framebuffer id finds no surface any more, and every other id that is not 0 finds what it
-- did.
pub fb_id_to_surface-rm :
    (b : Buffers) (fd buf_id : ℕ) (b' : Buffers) (j : ℕ)
    → HasHandles b
    → drm_mode_rm_fb b fd buf_id ≡ (b', ok tt)
    → buf_id ≢ 0
    → j ≢ 0
    → fb_id_to_surface b' j ≡ (if buf_id == j then 0 else fb_id_to_surface b j)
unfolding fb_id_to_surface clear_fb
fb_id_to_surface-rm b fd buf_id b' j v h id0 j0 =
    let c = rm_fb-Removed b fd buf_id b' h in
    let unique : count (λ f. f.fb_id == c.old.fb_id) b.fbs ≤ 1 =
      rw c.id_is (v.fb_unique buf_id id0) in
    let found = find?-clear (λ f. f.fb_id) b.fbs c.index c.old no_fb j c.at_index refl unique j0 in
    rw c.after (ground (arith, found, c.id_is))

-- Creating a dumb buffer succeeds exactly if the table has a free slot, which is one whose handle is
-- 0, and the system gives a surface; else it reports ENOMEM and changes nothing.
pub create_outcome :
    (b : Buffers) (width height bpp : ℕ) (dsi : DisplaySurfaceInfo)
    → let (b', r) = drm_mode_create_dumb_buffer b drm_virtual_fd width height bpp dsi in
      ((0 < count (λ d. d.handle == 0) b.dumb)
        × (dsi.surface ≢ 0)
        × (r
            ≡ ok (record {
              handle = b.next_dumb_handle;
              pitch = dsi.bytes_per_row % word32;
              size = dsi.alloc_size;
            })))
      ⊎ (((count (λ d. d.handle == 0) b.dumb ≡ 0) ⊎ (dsi.surface ≡ 0))
          × (r ≡ fail enomem)
          × (b' ≡ b))
unfolding drm_mode_create_dumb_buffer
create_outcome b width height bpp dsi = elim (find_index-cases (λ d. d.handle == 0) b.dumb) [
  | inl e ↦ rw e (inr (inl (find_index-count_zero (λ d. d.handle == 0) b.dumb e), refl, refl))
  | inr (i, x, e, g, p) ↦ rw e (ground (arith, get_elem?-count (λ d. d.handle == 0) b.dumb i x g p))
]
