-- ===== src/Drm/Buffers/Ownership.antt =====
-- Who holds references to the surfaces of drm_linux.c: the slots of the dumb buffer and framebuffer
-- tables, one each, and everyone outside the tables.
use wwn_iland.Common.{
  ℕ, ◌+◌, ◌≡◌, ◌≢◌, refl, some, List, arith, ◌==◌, get_elem?, count, All, All-set, All-get,
  All-replicate, count-set, count-replicate, get_or-of_get_elem?,
}
use wwn_iland.Drm.Buffers.{
  Buffers, DumbBuf, FbEntry, GbmBufEntry, DisplaySurfaceInfo, no_dumb, no_fb, new_dumb,
  install_dumb, clear_dumb, initial,
}
use wwn_iland.Drm.Buffers.Framebuffers.{new_fb, install_fb, clear_fb}

-- The references to `s` that the tables hold.
unfoldable pub held : Buffers → ℕ → ℕ
held b s = count (λ d. d.surface == s) b.dumb + count (λ f. f.surface == s) b.fbs

-- `outside s` is the number of references to `s` held elsewhere: by GBM, by EGL, by a client.
pub record IsBalanced (outside : ℕ → ℕ) (b : Buffers) : Type 0 where
  pub balance : (s : ℕ) → s ≢ 0 → held b s + outside s ≡ b.refs s
  pub free_dumb : All (λ d. d.handle ≡ 0 → d.surface ≡ 0) b.dumb
  pub free_fb : All (λ f. f.fb_id ≡ 0 → f.surface ≡ 0) b.fbs

module _ (outside : ℕ → ℕ) (b : Buffers) (v : IsBalanced outside b) where
  pub install_dumb-IsBalanced :
      (slot width height bpp : ℕ) (dsi : DisplaySurfaceInfo) (e : DumbBuf)
      → get_elem? b.dumb slot ≡ some e
      → e.handle ≡ 0
      → b.next_dumb_handle ≢ 0
      → IsBalanced outside (install_dumb b slot width height bpp dsi)
  unfolding install_dumb held
  install_dumb-IsBalanced slot width height bpp dsi e g h0 nz = record {
    balance = λ s s0.
        let empty = All-get (λ d. d.handle ≡ 0 → d.surface ≡ 0) b.dumb slot e g v.free_dumb h0 in
        let new = new_dumb b width height bpp dsi in
        ground (arith, empty, v.balance s s0, count-set (λ d. d.surface == s) b.dumb slot e new g);
    free_dumb =
        All-set (λ d. d.handle ≡ 0 → d.surface ≡ 0) b.dumb slot (new_dumb b width height bpp dsi)
          v.free_dumb (λ z. absurd (nz z));
    free_fb = v.free_fb;
  }

  pub clear_dumb-IsBalanced :
      (i : ℕ) (e : DumbBuf) → get_elem? b.dumb i ≡ some e → IsBalanced outside (clear_dumb b i)
  unfolding clear_dumb held
  clear_dumb-IsBalanced i e g = record {
    balance = λ s s0.
        rw (get_or-of_get_elem? b.dumb i e no_dumb g)
          (ground (arith, v.balance s s0, count-set (λ d. d.surface == s) b.dumb i e no_dumb g));
    free_dumb =
        All-set (λ d. d.handle ≡ 0 → d.surface ≡ 0) b.dumb i no_dumb v.free_dumb (λ z. refl);
    free_fb = v.free_fb;
  }

  pub install_fb-IsBalanced :
      (slot width height bpp pitch bo_handle : ℕ) (e : FbEntry)
      → get_elem? b.fbs slot ≡ some e
      → e.fb_id ≡ 0
      → b.next_fb_id ≢ 0
      → IsBalanced outside (install_fb b slot width height bpp pitch bo_handle)
  unfolding install_fb held
  install_fb-IsBalanced slot width height bpp pitch bo_handle e g h0 nz = record {
    balance = λ s s0.
        let empty = All-get (λ f. f.fb_id ≡ 0 → f.surface ≡ 0) b.fbs slot e g v.free_fb h0 in
        let new = new_fb b width height bpp pitch bo_handle in
        ground (arith, empty, v.balance s s0, count-set (λ f. f.surface == s) b.fbs slot e new g);
    free_dumb = v.free_dumb;
    free_fb =
        All-set (λ f. f.fb_id ≡ 0 → f.surface ≡ 0) b.fbs slot
          (new_fb b width height bpp pitch bo_handle) v.free_fb (λ z. absurd (nz z));
  }

  pub clear_fb-IsBalanced :
      (i : ℕ) (e : FbEntry) → get_elem? b.fbs i ≡ some e → IsBalanced outside (clear_fb b i)
  unfolding clear_fb held
  clear_fb-IsBalanced i e g = record {
    balance = λ s s0.
        rw (get_or-of_get_elem? b.fbs i e no_fb g)
          (ground (arith, v.balance s s0, count-set (λ f. f.surface == s) b.fbs i e no_fb g));
    free_dumb = v.free_dumb;
    free_fb = All-set (λ f. f.fb_id ≡ 0 → f.surface ≡ 0) b.fbs i no_fb v.free_fb (λ z. refl);
  }

-- The GBM table holds no references.
pub gbm-IsBalanced :
    (outside : ℕ → ℕ) (b : Buffers) (gs : List GbmBufEntry)
    → IsBalanced outside b
    → IsBalanced outside (record b { gbm_bufs = gs })
unfolding held
gbm-IsBalanced outside b gs v = record {
  balance = v.balance;
  free_dumb = v.free_dumb;
  free_fb = v.free_fb;
}

pub initial-IsBalanced : IsBalanced (λ s. 0) initial
unfolding initial held
initial-IsBalanced = record {
  balance = λ s s0. ground (
    arith,
    count-replicate (λ d. d.surface == s) 64 no_dumb,
    count-replicate (λ f. f.surface == s) 64 no_fb,
  );
  free_dumb = All-replicate (λ d. d.handle ≡ 0 → d.surface ≡ 0) 64 no_dumb (λ z. refl);
  free_fb = All-replicate (λ f. f.fb_id ≡ 0 → f.surface ≡ 0) 64 no_fb (λ z. refl);
}
