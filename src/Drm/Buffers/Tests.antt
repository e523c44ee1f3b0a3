-- ===== src/Drm/Buffers/Tests.antt =====
-- Examples for the theorems on the buffer tables of drm_linux.c.
use wwn_iland.Common.{◌<◌, ◌≡◌, refl, true, List, [], ◌∷◌, arith, ok, find?, find_index}
use wwn_iland.Drm.Buffers.{
  Buffers, initial, DisplaySurfaceInfo, DumbInfo, drm_mode_create_dumb_buffer,
  drm_mode_destroy_dumb_buffer, drm_mode_map_dumb_buffer, drm_register_gbm_buffer,
  drm_unregister_gbm_buffer, lookup_gbm_buffer, handle_to_surface, drm_virtual_fd, word32,
}
use wwn_iland.Drm.Buffers.Framebuffers.{
  BufferCall, create_dumb, add_fb, destroy_dumb, register_gbm, unregister_gbm, run, step,
  drm_mode_add_fb, drm_mode_rm_fb, fb_id_to_surface,
}
use wwn_iland.Drm.Buffers.Handles.{HasHandles}
use wwn_iland.Drm.Buffers.Safety.{IsValid, run-IsValid, initial-IsValid, fb_id_to_surface_alive}
use wwn_iland.Drm.Buffers.Lookups.{map-create}
use wwn_iland.Drm.Buffers.Gbm.{lookup-unregister}

abbrev screen : DisplaySurfaceInfo
screen = record { surface = 7; bytes_per_row = 256; alloc_size = 16384; base_address = 4096 }

-- A framebuffer that outlives the dumb buffer it was made from.
abbrev calls : List BufferCall
calls = create_dumb 42 64 64 32 screen ∷ add_fb 42 64 64 32 256 1 true ∷ destroy_dumb 42 1 ∷ []

abbrev one_dumb : Buffers
one_dumb = run initial (create_dumb 42 64 64 32 screen ∷ [])

abbrev one_fb : Buffers
one_fb = run initial (create_dumb 42 64 64 32 screen ∷ add_fb 42 64 64 32 256 1 true ∷ [])

abbrev two_gbm : Buffers
two_gbm = run initial (register_gbm 5 8 ∷ register_gbm 6 9 ∷ [])

run-IsValid_example : IsValid (λ s. 0) (run initial calls)
unfolding initial
run-IsValid_example = run-IsValid (λ s. 0) initial calls initial-IsValid (omega arith)

fb_id_to_surface_alive_example :
    0 < (run initial calls).refs (fb_id_to_surface (run initial calls) 1)
unfolding initial run fb_id_to_surface find_index find? drm_mode_destroy_dumb_buffer drm_mode_add_fb
    handle_to_surface drm_mode_create_dumb_buffer wwn_iland.Drm.Buffers.install_dumb
    wwn_iland.Drm.Buffers.Framebuffers.install_fb wwn_iland.Drm.Buffers.clear_dumb
fb_id_to_surface_alive_example =
    fb_id_to_surface_alive (λ s. 0) initial calls 1 initial-IsValid (omega arith) (omega arith)

one_dumb-HasHandles : HasHandles one_dumb
unfolding initial
one_dumb-HasHandles =
    (run-IsValid (λ s. 0) initial (create_dumb 42 64 64 32 screen ∷ []) initial-IsValid
      (omega arith)).handles

one_fb-HasHandles : HasHandles one_fb
unfolding initial
one_fb-HasHandles =
    (run-IsValid (λ s. 0) initial
      (create_dumb 42 64 64 32 screen ∷ add_fb 42 64 64 32 256 1 true ∷ []) initial-IsValid
      (omega arith)).handles

two_gbm-HasHandles : HasHandles two_gbm
unfolding initial
two_gbm-HasHandles =
    (run-IsValid (λ s. 0) initial (register_gbm 5 8 ∷ register_gbm 6 9 ∷ []) initial-IsValid
      (omega arith)).handles

map-create_example : drm_mode_map_dumb_buffer one_dumb 42 1 ≡ ok 4096
unfolding initial run drm_mode_map_dumb_buffer find_index find? drm_mode_create_dumb_buffer
map-create_example =
    map-create initial 42 64 64 32 screen one_dumb
      (record { handle = 1; pitch = 256; size = 16384 }) 1 initial-IsValid.handles refl
      (omega arith)

lookup-unregister_example : lookup_gbm_buffer (drm_unregister_gbm_buffer two_gbm 5) 6 ≡ 9
unfolding initial run find_index find? lookup_gbm_buffer drm_register_gbm_buffer
lookup-unregister_example = lookup-unregister two_gbm 5 6 two_gbm-HasHandles
