-- ===== src/Drm/Buffers/Safety.antt =====
-- Every history of calls on the buffer tables of drm_linux.c: the references that the tables hold,
-- and the handles in use.
use wwn_iland.Common.{
  ℕ, suc, ◌<◌, ◌≡◌, ◌≢◌, inl, inr, List, [], ◌∷◌, arith, ◌==◌, length, find?, Option-cases,
  find?-count,
}
use wwn_iland.Drm.Buffers.{Buffers, GbmBufEntry, initial, install_dumb, clear_dumb}
use wwn_iland.Drm.Buffers.Framebuffers.{
  BufferCall, create_dumb, destroy_dumb, register_gbm, unregister_gbm, add_fb, rm_fb, step, run,
  fb_id_to_surface, install_fb, clear_fb,
}
use wwn_iland.Drm.Buffers.Cases.{
  create_dumb_cases, destroy_dumb_cases, register_gbm_cases, unregister_gbm_cases, add_fb_cases,
  rm_fb_cases,
}
use wwn_iland.Drm.Buffers.Ownership.{
  IsBalanced, held, install_dumb-IsBalanced, clear_dumb-IsBalanced, install_fb-IsBalanced,
  clear_fb-IsBalanced, gbm-IsBalanced, initial-IsBalanced,
}
use wwn_iland.Drm.Buffers.Handles.{
  HasHandles, HasRoom, install_dumb-HasHandles, clear_dumb-HasHandles, install_fb-HasHandles,
  clear_fb-HasHandles, replace_gbm-HasHandles, add_gbm-HasHandles, remove_gbm-HasHandles,
  initial-HasHandles,
}

pub record IsValid (outside : ℕ → ℕ) (b : Buffers) : Type 0 where
  pub balanced : IsBalanced outside b
  pub handles : HasHandles b

-- The tables are valid, and `n` calls can follow before a counter wraps.
abbrev Ready : (ℕ → ℕ) → ℕ → Buffers → Type 0
Ready outside n b = IsValid outside b × HasRoom n b

alive :
    (outside : ℕ → ℕ) (b : Buffers) (fb_id : ℕ)
    → IsBalanced outside b
    → fb_id_to_surface b fb_id ≢ 0
    → 0 < b.refs (fb_id_to_surface b fb_id)
unfolding fb_id_to_surface held
alive outside b fb_id v found = elim (Option-cases (find? (λ f. f.fb_id == fb_id) b.fbs)) [
  | inl e ↦ absurd (found (rw (e, fb_id_to_surface)))
  | inr (f, e) ↦
      let same : fb_id_to_surface b fb_id ≡ f.surface = rw (e, fb_id_to_surface) in
      let s = fb_id_to_surface b fb_id in
      omega (
        arith,
        v.balance s found,
        find?-count (λ f. f.fb_id == fb_id) (λ f. f.surface == s) b.fbs f e (ground (arith, same)),
      )
]

module _ (outside : ℕ → ℕ) (n : ℕ) (b : Buffers) (v : IsValid outside b)
    (room : HasRoom (suc n) b) where
  keeps : Ready outside n b
  keeps = (v, omega arith)

  room_one : HasRoom 1 b
  room_one = omega arith

  gbm_keeps :
      (gs : List GbmBufEntry)
      → HasHandles (record b { gbm_bufs = gs })
      → Ready outside n (record b { gbm_bufs = gs })
  gbm_keeps gs h =
      (record { balanced = gbm-IsBalanced outside b gs v.balanced; handles = h }, omega arith)

  step-Ready : (c : BufferCall) → Ready outside n (step b c)
  unfolding step install_dumb clear_dumb install_fb clear_fb
  step-Ready (create_dumb fd width height bpp dsi) =
      create_dumb_cases (Ready outside n) b keeps fd width height bpp dsi λ slot e g h0 s0. (
        record {
          balanced =
              install_dumb-IsBalanced outside b v.balanced slot width height bpp dsi e g h0
                (omega (arith, v.handles.dumb_next));
          handles = install_dumb-HasHandles b v.handles room_one slot width height bpp dsi e g h0;
        },
        omega arith,
      )
  step-Ready (destroy_dumb fd handle) =
      destroy_dumb_cases (Ready outside n) b keeps fd handle λ i e g h. (
        record {
          balanced = clear_dumb-IsBalanced outside b v.balanced i e g;
          handles = clear_dumb-HasHandles b v.handles i e g;
        },
        omega arith,
      )
  step-Ready (register_gbm handle surface) =
      register_gbm_cases (Ready outside n) b keeps handle surface
        (λ i e g h s0 h0. gbm_keeps _ (replace_gbm-HasHandles b v.handles i e _ g h))
        (λ absent free s0 h0. gbm_keeps _ (add_gbm-HasHandles b v.handles _ absent free))
  step-Ready (unregister_gbm handle) =
      unregister_gbm_cases (Ready outside n) b keeps handle
        (λ i e g h. gbm_keeps _ (remove_gbm-HasHandles b v.handles i e g))
  step-Ready (add_fb fd width height bpp pitch bo_handle has_buf_id) =
      add_fb_cases (Ready outside n) b keeps fd width height bpp pitch bo_handle has_buf_id
        λ slot e g h0 s0. (
          record {
            balanced =
                install_fb-IsBalanced outside b v.balanced slot width height bpp pitch bo_handle e g
                  h0 (omega (arith, v.handles.fb_next));
            handles =
                install_fb-HasHandles b v.handles room_one slot width height bpp pitch bo_handle e g
                  h0;
          },
          omega arith,
        )
  step-Ready (rm_fb fd buf_id) = rm_fb_cases (Ready outside n) b keeps fd buf_id λ i e g h. (
    record {
      balanced = clear_fb-IsBalanced outside b v.balanced i e g;
      handles = clear_fb-HasHandles b v.handles i e g;
    },
    omega arith,
  )

-- From valid tables, and with fewer than 2 ^ 32 handles and ids given out, no history of calls loses
-- a reference or releases one twice: for every surface, the slots that name it and the references
-- held outside the tables make up its reference count. Nor do two slots come to share a handle or an
-- id, or a table to outgrow its array.
pub run-IsValid :
    (outside : ℕ → ℕ) (b : Buffers) (cs : List BufferCall)
    → IsValid outside b
    → HasRoom (length cs) b
    → IsValid outside (run b cs)
unfolding run
run-IsValid outside b [] v room = v
run-IsValid outside b (c ∷ cs) v room =
    let (v', room') = step-Ready outside (length cs) b v room c in
    run-IsValid outside (step b c) cs v' room'

pub initial-IsValid : IsValid (λ s. 0) initial
initial-IsValid = record { balanced = initial-IsBalanced; handles = initial-HasHandles }

-- From valid tables whose next handle and next framebuffer id, each plus the number of the calls, stay
-- below 2 ^ 32: after any history of calls, a surface that is found through a framebuffer id is still
-- referenced, whatever became of the buffer that it was made from.
pub fb_id_to_surface_alive :
    (outside : ℕ → ℕ) (b : Buffers) (cs : List BufferCall) (fb_id : ℕ)
    → IsValid outside b
    → HasRoom (length cs) b
    → fb_id_to_surface (run b cs) fb_id ≢ 0
    → 0 < (run b cs).refs (fb_id_to_surface (run b cs) fb_id)
fb_id_to_surface_alive outside b cs fb_id v room found =
    alive outside (run b cs) fb_id (run-IsValid outside b cs v room).balanced found
