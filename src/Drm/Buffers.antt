-- ===== src/Drm/Buffers.antt =====
-- The buffer tables of drm_linux.c, the reference counts of the IOSurfaces that they name, and the
-- calls on dumb buffers and GBM handles. A surface is a number, 0 the null reference.
pub mod Framebuffers
pub mod Cases
pub mod Ownership
pub mod Handles
pub mod Safety
pub mod Lookups
pub mod Gbm
mod Tests
use mathlib.Core.List.{drop_last}
use wwn_iland.Common.{
  ℕ, ◌+◌, ◌-◌, ◌^◌, ◌%◌, Bool, not, ◌||◌, Option, none, some, List, [], ◌∷◌, ◌++◌, if◌then◌else◌,
  ◌==◌, leb, length, get_or, get_last, set, replicate, find_index, find?, Outcome, ok, fail, ebadf,
  einval, enoent, enomem, require,
}

-- `DRM_VIRTUAL_FD`. An `int` descriptor is its bit pattern.
abbrev pub drm_virtual_fd : ℕ
drm_virtual_fd = 42

-- `check_fd(fd) == 0`; the caller sets EBADF by `require`.
unfoldable pub check_fd : ℕ → Bool
check_fd fd = fd == drm_virtual_fd

abbrev pub max_dumb_bufs : ℕ
max_dumb_bufs = 64

abbrev pub max_fbs : ℕ
max_fbs = 64

abbrev pub max_gbm_bufs : ℕ
max_gbm_bufs = 64

-- `uint32_t`
abbrev pub word32 : ℕ
word32 = 2 ^ 32

pub record DumbBuf : Type 0 where
  pub handle : ℕ
  pub surface : ℕ
  pub width : ℕ
  pub height : ℕ
  pub bpp : ℕ
  pub pitch : ℕ
  pub size : ℕ
  pub map : ℕ

pub record FbEntry : Type 0 where
  pub fb_id : ℕ
  pub handle : ℕ
  pub surface : ℕ
  pub width : ℕ
  pub height : ℕ
  pub bpp : ℕ
  pub pitch : ℕ

pub record GbmBufEntry : Type 0 where
  pub handle : ℕ
  pub surface : ℕ

abbrev pub no_dumb : DumbBuf
no_dumb = record {
  handle = 0;
  surface = 0;
  width = 0;
  height = 0;
  bpp = 0;
  pitch = 0;
  size = 0;
  map = 0;
}

abbrev pub no_fb : FbEntry
no_fb = record { fb_id = 0; handle = 0; surface = 0; width = 0; height = 0; bpp = 0; pitch = 0 }

-- `refs s` is the reference count of the surface `s`; `gbm_bufs` is the used part of the table.
pub record Buffers : Type 0 where
  pub dumb : List DumbBuf
  pub next_dumb_handle : ℕ
  pub gbm_bufs : List GbmBufEntry
  pub fbs : List FbEntry
  pub next_fb_id : ℕ
  pub refs : ℕ → ℕ

unfoldable pub initial : Buffers
initial = record {
  dumb = replicate max_dumb_bufs no_dumb;
  next_dumb_handle = 1;
  gbm_bufs = [];
  fbs = replicate max_fbs no_fb;
  next_fb_id = 1;
  refs = λ s. 0;
}

-- `CFRetain`, and the reference that a newly created surface comes with.
unfoldable pub retain : ℕ → (ℕ → ℕ) → ℕ → ℕ
retain s refs x = if x == s then refs x + 1 else refs x

-- `CFRelease`
unfoldable pub release : ℕ → (ℕ → ℕ) → ℕ → ℕ
release s refs x = if x == s then refs x - 1 else refs x

-- What `DisplaySurface_create` and the queries on the new surface return; `surface` is 0 on failure.
pub record DisplaySurfaceInfo : Type 0 where
  pub surface : ℕ
  pub bytes_per_row : ℕ
  pub alloc_size : ℕ
  pub base_address : ℕ

-- What the call writes through its pointers.
pub record DumbInfo : Type 0 where
  pub handle : ℕ
  pub pitch : ℕ
  pub size : ℕ

-- The `dumb_buf_t` that the call writes into its slot.
abbrev pub new_dumb : Buffers → (width height bpp : ℕ) → DisplaySurfaceInfo → DumbBuf
new_dumb b width height bpp dsi = record {
  handle = b.next_dumb_handle;
  surface = dsi.surface;
  width = width;
  height = height;
  bpp = bpp;
  pitch = dsi.bytes_per_row % word32;
  size = dsi.alloc_size;
  map = dsi.base_address;
}

-- `drmModeCreateDumbBuffer` once the slot and the surface are there.
unfoldable pub install_dumb : Buffers → (slot width height bpp : ℕ) → DisplaySurfaceInfo → Buffers
unfolding retain
install_dumb b slot width height bpp dsi = record b {
  dumb = set b.dumb slot (new_dumb b width height bpp dsi);
  next_dumb_handle = (b.next_dumb_handle + 1) % word32;
  refs = retain dsi.surface b.refs;
}

unfoldable pub drm_mode_create_dumb_buffer :
    Buffers → (fd width height bpp : ℕ) → DisplaySurfaceInfo → Buffers × Outcome DumbInfo
unfolding check_fd
drm_mode_create_dumb_buffer b fd width height bpp dsi =
    require (check_fd fd) ebadf b (elim (find_index (λ d. d.handle == 0) b.dumb) [
      | none ↦ (b, fail enomem)
      | some slot ↦ require (not (dsi.surface == 0)) enomem b (
        install_dumb b slot width height bpp dsi,
        ok (record {
          handle = b.next_dumb_handle;
          pitch = dsi.bytes_per_row % word32;
          size = dsi.alloc_size;
        }),
      )
    ])

-- `if (surface) CFRelease(surface);`
unfoldable pub release_if : ℕ → (ℕ → ℕ) → ℕ → ℕ
unfolding release
release_if s refs = if s == 0 then refs else release s refs

-- `if (g_dumb[i].surface) CFRelease(g_dumb[i].surface); g_dumb[i] = (dumb_buf_t){0};`
unfoldable pub clear_dumb : Buffers → (i : ℕ) → Buffers
unfolding release_if
clear_dumb b i = record b {
  dumb = set b.dumb i no_dumb;
  refs = release_if (get_or b.dumb i no_dumb).surface b.refs;
}

unfoldable pub drm_mode_destroy_dumb_buffer :
    Buffers → (fd handle : ℕ) → Buffers × Outcome (Unit {0})
unfolding check_fd
drm_mode_destroy_dumb_buffer b fd handle =
    require (check_fd fd) ebadf b (elim (find_index (λ d. d.handle == handle) b.dumb) [
      | none ↦ (b, fail enoent)
      | some i ↦ (clear_dumb b i, ok tt)
    ])

-- The result is what goes through `offset`.
unfoldable pub drm_mode_map_dumb_buffer : Buffers → (fd handle : ℕ) → Outcome ℕ
unfolding check_fd
drm_mode_map_dumb_buffer b fd handle =
    if check_fd fd
    then elim (find? (λ d. d.handle == handle) b.dumb) [ none ↦ fail enoent | some d ↦ ok d.map ]
    else fail ebadf

-- The GBM table takes no references: the buffer's owner keeps the surface alive.
unfoldable pub drm_register_gbm_buffer : Buffers → (handle surface : ℕ) → Buffers
drm_register_gbm_buffer b handle surface =
    if surface == 0 || handle == 0
    then b
    else elim (find_index (λ g. g.handle == handle) b.gbm_bufs) [
      | some i ↦ record b {
        gbm_bufs = set b.gbm_bufs i (record { handle = handle; surface = surface });
      }
      | none ↦ if leb max_gbm_bufs (length b.gbm_bufs) then b else record b {
        gbm_bufs = b.gbm_bufs ++ (record { handle = handle; surface = surface } ∷ []);
      }
    ]

abbrev pub no_gbm_buf : GbmBufEntry
no_gbm_buf = record { handle = 0; surface = 0 }

-- `g_gbm_bufs[i] = g_gbm_bufs[--g_gbm_buf_count]`
unfoldable pub drm_unregister_gbm_buffer : Buffers → (handle : ℕ) → Buffers
drm_unregister_gbm_buffer b handle = elim (find_index (λ g. g.handle == handle) b.gbm_bufs) [
  | none ↦ b
  | some i ↦ record b { gbm_bufs = drop_last (set b.gbm_bufs i (get_last b.gbm_bufs no_gbm_buf)) }
]

abbrev pub gbm_surface : Option GbmBufEntry → ℕ
gbm_surface none = 0
gbm_surface (some g) = g.surface

unfoldable pub lookup_gbm_buffer : Buffers → (handle : ℕ) → ℕ
lookup_gbm_buffer b handle = gbm_surface (find? (λ g. g.handle == handle) b.gbm_bufs)

-- The surface behind a handle: a dumb buffer's, else a GBM buffer's. A free slot has no surface.
unfoldable pub handle_to_surface : Buffers → (bo_handle : ℕ) → ℕ
unfolding lookup_gbm_buffer
handle_to_surface b bo_handle =
    let dumb : ℕ = elim (find? (λ d. d.handle == bo_handle) b.dumb) [
      | none ↦ 0
      | some d ↦ d.surface
    ] in
    if dumb == 0 then lookup_gbm_buffer b bo_handle else dumb
