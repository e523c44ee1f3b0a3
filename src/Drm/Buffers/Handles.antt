-- ===== src/Drm/Buffers/Handles.antt =====
-- The handles and framebuffer ids of drm_linux.c: which are in use, and that no two slots share one.
use wwn_iland.Common.{
  ℕ, ◌+◌, ◌%◌, ◌<◌, ◌≤◌, ◌≡◌, ◌≢◌, refl, some, none, arith, ◌==◌, ◌∷◌, [], ◌++◌, get_elem?,
  get_last, length, set, count, find_index, find_index-count_zero, List, All, All-set, All-mono,
  All-count, All-replicate, count-set, count-append, count-replicate, length-set, length-append,
  count-swap_remove, length-swap_remove, false,
}
use mathlib.Core.List.{drop_last}
use wwn_iland.Drm.Buffers.{
  Buffers, DumbBuf, FbEntry, GbmBufEntry, DisplaySurfaceInfo, word32, max_dumb_bufs, max_fbs,
  max_gbm_bufs, no_dumb, no_fb, no_gbm_buf, new_dumb, install_dumb, clear_dumb, initial,
}
use wwn_iland.Drm.Buffers.Framebuffers.{new_fb, install_fb, clear_fb}

-- 0 marks a free slot of `g_dumb` and `g_fbs`; the used part of `g_gbm_bufs` holds no free slot.
pub record HasHandles (b : Buffers) : Type 0 where
  pub dumb_size : length b.dumb ≡ max_dumb_bufs
  pub dumb_next : 0 < b.next_dumb_handle
  pub dumb_below : All (λ d. d.handle < b.next_dumb_handle) b.dumb
  pub dumb_unique : (h : ℕ) → h ≢ 0 → count (λ d. d.handle == h) b.dumb ≤ 1
  pub fb_size : length b.fbs ≡ max_fbs
  pub fb_next : 0 < b.next_fb_id
  pub fb_below : All (λ f. f.fb_id < b.next_fb_id) b.fbs
  pub fb_unique : (h : ℕ) → h ≢ 0 → count (λ f. f.fb_id == h) b.fbs ≤ 1
  pub gbm_size : length b.gbm_bufs ≤ max_gbm_bufs
  pub gbm_unique : (h : ℕ) → count (λ g. g.handle == h) b.gbm_bufs ≤ 1

-- `n` more buffers and framebuffers can be made before a counter wraps round at 2 ^ 32.
abbrev pub HasRoom : ℕ → Buffers → Type 0
HasRoom n b = (b.next_dumb_handle + n < word32) × (b.next_fb_id + n < word32)

-- No dumb buffer has the handle that the next one will get.
pub dumb_fresh :
    (b : Buffers) → HasHandles b → All (λ d. (d.handle == b.next_dumb_handle) ≡ false) b.dumb
dumb_fresh b v =
    All-mono (λ d. d.handle < b.next_dumb_handle) (λ d. (d.handle == b.next_dumb_handle) ≡ false)
      b.dumb (λ d lt. ground arith) v.dumb_below

pub fb_fresh : (b : Buffers) → HasHandles b → All (λ f. (f.fb_id == b.next_fb_id) ≡ false) b.fbs
fb_fresh b v =
    All-mono (λ f. f.fb_id < b.next_fb_id) (λ f. (f.fb_id == b.next_fb_id) ≡ false) b.fbs
      (λ f lt. ground arith) v.fb_below

module _ (b : Buffers) (v : HasHandles b) (room : HasRoom 1 b) where
  pub install_dumb-HasHandles :
      (slot width height bpp : ℕ) (dsi : DisplaySurfaceInfo) (e : DumbBuf)
      → get_elem? b.dumb slot ≡ some e
      → e.handle ≡ 0
      → HasHandles (install_dumb b slot width height bpp dsi)
  unfolding install_dumb
  install_dumb-HasHandles slot width height bpp dsi e g h0 = record {
    dumb_size = omega (arith, v.dumb_size, length-set b.dumb slot new);
    dumb_next = omega arith;
    dumb_below =
        All-set (λ d. d.handle < (b.next_dumb_handle + 1) % word32) b.dumb slot new
          (All-mono (λ d. d.handle < b.next_dumb_handle)
            (λ d. d.handle < (b.next_dumb_handle + 1) % word32) b.dumb
            (λ d lt. omega (arith, lt, room)) v.dumb_below)
          (omega arith);
    dumb_unique = λ h h0'.
        ground
          (arith, v.dumb_unique h h0', count-set (λ d. d.handle == h) b.dumb slot e new g, fresh h);
    fb_size = v.fb_size;
    fb_next = v.fb_next;
    fb_below = v.fb_below;
    fb_unique = v.fb_unique;
    gbm_size = v.gbm_size;
    gbm_unique = v.gbm_unique;
  }
    where
      new : DumbBuf
      new = new_dumb b width height bpp dsi

      fresh : (h : ℕ) → h ≡ b.next_dumb_handle → count (λ d. d.handle == h) b.dumb ≡ 0
      fresh h e = rw e (All-count _ _ b.dumb (λ d q. q) (dumb_fresh b v))

  pub install_fb-HasHandles :
      (slot width height bpp pitch bo_handle : ℕ) (e : FbEntry)
      → get_elem? b.fbs slot ≡ some e
      → e.fb_id ≡ 0
      → HasHandles (install_fb b slot width height bpp pitch bo_handle)
  unfolding install_fb
  install_fb-HasHandles slot width height bpp pitch bo_handle e g h0 = record {
    dumb_size = v.dumb_size;
    dumb_next = v.dumb_next;
    dumb_below = v.dumb_below;
    dumb_unique = v.dumb_unique;
    fb_size = omega (arith, v.fb_size, length-set b.fbs slot new);
    fb_next = omega arith;
    fb_below =
        All-set (λ f. f.fb_id < (b.next_fb_id + 1) % word32) b.fbs slot new
          (All-mono (λ f. f.fb_id < b.next_fb_id) (λ f. f.fb_id < (b.next_fb_id + 1) % word32) b.fbs
            (λ f lt. omega (arith, lt, room)) v.fb_below)
          (omega arith);
    fb_unique = λ h h0'.
        ground
          (arith, v.fb_unique h h0', count-set (λ f. f.fb_id == h) b.fbs slot e new g, fresh h);
    gbm_size = v.gbm_size;
    gbm_unique = v.gbm_unique;
  }
    where
      new : FbEntry
      new = new_fb b width height bpp pitch bo_handle

      fresh : (h : ℕ) → h ≡ b.next_fb_id → count (λ f. f.fb_id == h) b.fbs ≡ 0
      fresh h e = rw e (All-count _ _ b.fbs (λ f q. q) (fb_fresh b v))

module _ (b : Buffers) (v : HasHandles b) where
  pub clear_dumb-HasHandles :
      (i : ℕ) (e : DumbBuf) → get_elem? b.dumb i ≡ some e → HasHandles (clear_dumb b i)
  unfolding clear_dumb
  clear_dumb-HasHandles i e g = record {
    dumb_size = omega (arith, v.dumb_size, length-set b.dumb i no_dumb);
    dumb_next = v.dumb_next;
    dumb_below =
        All-set (λ d. d.handle < b.next_dumb_handle) b.dumb i no_dumb v.dumb_below v.dumb_next;
    dumb_unique = λ h h0.
        ground (arith, v.dumb_unique h h0, count-set (λ d. d.handle == h) b.dumb i e no_dumb g);
    fb_size = v.fb_size;
    fb_next = v.fb_next;
    fb_below = v.fb_below;
    fb_unique = v.fb_unique;
    gbm_size = v.gbm_size;
    gbm_unique = v.gbm_unique;
  }

  pub clear_fb-HasHandles :
      (i : ℕ) (e : FbEntry) → get_elem? b.fbs i ≡ some e → HasHandles (clear_fb b i)
  unfolding clear_fb
  clear_fb-HasHandles i e g = record {
    dumb_size = v.dumb_size;
    dumb_next = v.dumb_next;
    dumb_below = v.dumb_below;
    dumb_unique = v.dumb_unique;
    fb_size = omega (arith, v.fb_size, length-set b.fbs i no_fb);
    fb_next = v.fb_next;
    fb_below = All-set (λ f. f.fb_id < b.next_fb_id) b.fbs i no_fb v.fb_below v.fb_next;
    fb_unique =
        λ h h0. ground (arith, v.fb_unique h h0, count-set (λ f. f.fb_id == h) b.fbs i e no_fb g);
    gbm_size = v.gbm_size;
    gbm_unique = v.gbm_unique;
  }

  -- A change of the GBM table alone.
  gbm-HasHandles :
      (gs : List GbmBufEntry)
      → length gs ≤ max_gbm_bufs
      → ((h : ℕ) → count (λ g. g.handle == h) gs ≤ 1)
      → HasHandles (record b { gbm_bufs = gs })
  gbm-HasHandles gs size unique = record {
    dumb_size = v.dumb_size;
    dumb_next = v.dumb_next;
    dumb_below = v.dumb_below;
    dumb_unique = v.dumb_unique;
    fb_size = v.fb_size;
    fb_next = v.fb_next;
    fb_below = v.fb_below;
    fb_unique = v.fb_unique;
    gbm_size = size;
    gbm_unique = unique;
  }

  pub replace_gbm-HasHandles :
      (i : ℕ) (e new : GbmBufEntry)
      → get_elem? b.gbm_bufs i ≡ some e
      → e.handle ≡ new.handle
      → HasHandles (record b { gbm_bufs = set b.gbm_bufs i new })
  replace_gbm-HasHandles i e new g same =
      gbm-HasHandles (set b.gbm_bufs i new) (omega (arith, v.gbm_size, length-set b.gbm_bufs i new))
        (λ h. ground (arith, v.gbm_unique h, count-set (λ g. g.handle == h) b.gbm_bufs i e new g))

  pub add_gbm-HasHandles :
      (new : GbmBufEntry)
      → find_index (λ g. g.handle == new.handle) b.gbm_bufs ≡ none
      → length b.gbm_bufs < max_gbm_bufs
      → HasHandles (record b { gbm_bufs = b.gbm_bufs ++ new ∷ [] })
  unfolding count
  add_gbm-HasHandles new absent room =
      gbm-HasHandles (b.gbm_bufs ++ new ∷ []) (omega (arith, length-append b.gbm_bufs (new ∷ [])))
        (λ h.
          ground (
            arith,
            v.gbm_unique h,
            count-append (λ g. g.handle == h) b.gbm_bufs (new ∷ []),
            other h,
          ))
    where
      other : (h : ℕ) → h ≡ new.handle → count (λ g. g.handle == h) b.gbm_bufs ≡ 0
      other h e = rw e (find_index-count_zero (λ g. g.handle == new.handle) b.gbm_bufs absent)

  pub remove_gbm-HasHandles :
      (i : ℕ) (e : GbmBufEntry)
      → get_elem? b.gbm_bufs i ≡ some e
      → HasHandles
          (record b { gbm_bufs = drop_last (set b.gbm_bufs i (get_last b.gbm_bufs no_gbm_buf)) })
  remove_gbm-HasHandles i e g =
      gbm-HasHandles (drop_last (set b.gbm_bufs i (get_last b.gbm_bufs no_gbm_buf)))
        (omega (arith, v.gbm_size, length-swap_remove b.gbm_bufs i e no_gbm_buf g))
        (λ h. omega (
          arith,
          v.gbm_unique h,
          count-swap_remove (λ g. g.handle == h) b.gbm_bufs i e no_gbm_buf g,
        ))

pub initial-HasHandles : HasHandles initial
unfolding initial count
initial-HasHandles = record {
  dumb_size = refl;
  dumb_next = omega arith;
  dumb_below = All-replicate (λ d. d.handle < 1) 64 no_dumb (omega arith);
  dumb_unique = λ h h0. ground (arith, count-replicate (λ d. d.handle == h) 64 no_dumb);
  fb_size = refl;
  fb_next = omega arith;
  fb_below = All-replicate (λ f. f.fb_id < 1) 64 no_fb (omega arith);
  fb_unique = λ h h0. ground (arith, count-replicate (λ f. f.fb_id == h) 64 no_fb);
  gbm_size = omega arith;
  gbm_unique = λ h. ground arith;
}
