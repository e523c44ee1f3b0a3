-- ===== src/Drm/Buffers/Cases.antt =====
-- How each call of the buffer tables can change them, as a rule for proofs about the state after.
use wwn_iland.Common.{
  ℕ, ◌≡◌, ◌≢◌, inl, inr, Bool, none, some, [], ◌∷◌, ◌++◌, arith, ◌==◌, ◌<◌, length, get_elem?,
  get_last, set, find_index, find_index-cases,
}
use mathlib.Core.List.{drop_last}
use wwn_iland.Drm.Buffers.{
  Buffers, DumbBuf, FbEntry, GbmBufEntry, DisplaySurfaceInfo, max_gbm_bufs, no_gbm_buf,
  install_dumb, clear_dumb, handle_to_surface, drm_mode_create_dumb_buffer,
  drm_mode_destroy_dumb_buffer, drm_register_gbm_buffer, drm_unregister_gbm_buffer,
}
use wwn_iland.Drm.Buffers.Framebuffers.{install_fb, clear_fb, drm_mode_add_fb, drm_mode_rm_fb}

module _ (P : Buffers → Type 0) (b : Buffers) (same : P b) where
  pub create_dumb_cases :
      (fd width height bpp : ℕ) (dsi : DisplaySurfaceInfo)
      → ((slot : ℕ) (e : DumbBuf)
          → get_elem? b.dumb slot ≡ some e
          → e.handle ≡ 0
          → dsi.surface ≢ 0
          → P (install_dumb b slot width height bpp dsi))
      → P (drm_mode_create_dumb_buffer b fd width height bpp dsi).0
  unfolding drm_mode_create_dumb_buffer
  create_dumb_cases fd width height bpp dsi installed =
      elim (find_index-cases (λ d. d.handle == 0) b.dumb) [
        | inl e ↦ rw e (ground arith)
        | inr (i, x, e, g, p) ↦ rw e (ground (arith, installed i x g))
      ]

  pub destroy_dumb_cases :
      (fd handle : ℕ)
      → ((i : ℕ) (e : DumbBuf)
          → get_elem? b.dumb i ≡ some e
          → e.handle ≡ handle
          → P (clear_dumb b i))
      → P (drm_mode_destroy_dumb_buffer b fd handle).0
  unfolding drm_mode_destroy_dumb_buffer
  destroy_dumb_cases fd handle cleared = elim (find_index-cases (λ d. d.handle == handle) b.dumb) [
    | inl e ↦ rw e (ground arith)
    | inr (i, x, e, g, p) ↦ rw e (ground (arith, cleared i x g))
  ]

  pub register_gbm_cases :
      (handle surface : ℕ)
      → ((i : ℕ) (e : GbmBufEntry)
          → get_elem? b.gbm_bufs i ≡ some e
          → e.handle ≡ handle
          → surface ≢ 0
          → handle ≢ 0
          → P (record b {
            gbm_bufs = set b.gbm_bufs i (record { handle = handle; surface = surface });
          }))
      → (find_index (λ g. g.handle == handle) b.gbm_bufs ≡ none
          → length b.gbm_bufs < max_gbm_bufs
          → surface ≢ 0
          → handle ≢ 0
          → P (record b {
            gbm_bufs = b.gbm_bufs ++ record { handle = handle; surface = surface } ∷ [];
          }))
      → P (drm_register_gbm_buffer b handle surface)
  unfolding drm_register_gbm_buffer
  register_gbm_cases handle surface replaced added =
      elim (find_index-cases (λ g. g.handle == handle) b.gbm_bufs) [
        | inl e ↦ rw e (ground (arith, added e))
        | inr (i, x, e, g, p) ↦ rw e (ground (arith, replaced i x g))
      ]

  pub unregister_gbm_cases :
      (handle : ℕ)
      → ((i : ℕ) (e : GbmBufEntry)
          → get_elem? b.gbm_bufs i ≡ some e
          → e.handle ≡ handle
          → P (record b {
            gbm_bufs = drop_last (set b.gbm_bufs i (get_last b.gbm_bufs no_gbm_buf));
          }))
      → P (drm_unregister_gbm_buffer b handle)
  unfolding drm_unregister_gbm_buffer
  unregister_gbm_cases handle removed =
      elim (find_index-cases (λ g. g.handle == handle) b.gbm_bufs) [
        | inl e ↦ rw (e, drm_unregister_gbm_buffer) same
        | inr (i, x, e, g, p) ↦ rw (e, drm_unregister_gbm_buffer) (removed i x g (ground arith))
      ]

  pub add_fb_cases :
      (fd width height bpp pitch bo_handle : ℕ) (has_buf_id : Bool)
      → ((slot : ℕ) (e : FbEntry)
          → get_elem? b.fbs slot ≡ some e
          → e.fb_id ≡ 0
          → handle_to_surface b bo_handle ≢ 0
          → P (install_fb b slot width height bpp pitch bo_handle))
      → P (drm_mode_add_fb b fd width height bpp pitch bo_handle has_buf_id).0
  unfolding drm_mode_add_fb
  add_fb_cases fd width height bpp pitch bo_handle has_buf_id installed =
      elim (find_index-cases (λ f. f.fb_id == 0) b.fbs) [
        | inl e ↦ rw e (ground arith)
        | inr (i, x, e, g, p) ↦ rw e (ground (arith, installed i x g))
      ]

  pub rm_fb_cases :
      (fd buf_id : ℕ)
      → ((i : ℕ) (e : FbEntry) → get_elem? b.fbs i ≡ some e → e.fb_id ≡ buf_id → P (clear_fb b i))
      → P (drm_mode_rm_fb b fd buf_id).0
  unfolding drm_mode_rm_fb
  rm_fb_cases fd buf_id cleared = elim (find_index-cases (λ f. f.fb_id == buf_id) b.fbs) [
    | inl e ↦ rw e (ground arith)
    | inr (i, x, e, g, p) ↦ rw e (ground (arith, cleared i x g))
  ]
