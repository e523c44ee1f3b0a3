-- ===== src/Drm/Blobs.antt =====
-- The property blobs of drm_linux.c, and the blob of the IN_FORMATS property.
pub mod Laws
mod Tests
use wwn_iland.Common.{
  ℕ, ◌+◌, ◌/◌, ◌%◌, ◌^◌, Bool, true, false, ◌&&◌, not, Option, none, some, List, [], ◌∷◌, ◌++◌,
  if◌then◌else◌, ◌==◌, zero, suc, length, take, get_or, set, replicate, find_index, find?, Outcome,
  ok, fail, ebadf, einval, enoent, enomem, require,
}
use wwn_iland.Drm.Buffers.{check_fd, word32}

abbrev pub max_blobs : ℕ
max_blobs = 32

-- One index of `g_blob_ids`, `g_blob_sizes` and `g_blob_data`; `bytes` is `none` for a null pointer.
pub record BlobSlot : Type 0 where
  pub id : ℕ
  pub size : ℕ
  pub bytes : Option (List ℕ)

-- `in_formats_blob_id` is 0 before the blob is made.
pub record Blobs : Type 0 where
  pub slots : List BlobSlot
  pub next_blob_id : ℕ
  pub in_formats_blob_id : ℕ

abbrev pub no_blob : BlobSlot
no_blob = record { id = 0; size = 0; bytes = none }

unfoldable pub initial : Blobs
initial = record { slots = replicate max_blobs no_blob; next_blob_id = 256; in_formats_blob_id = 0 }

abbrev pub has_bytes : BlobSlot → Bool
has_bytes s = elim s.bytes [ none ↦ false | some _ ↦ true ]

-- `g_blob_data[i] != NULL && g_blob_ids[i] == blob_id`
abbrev pub is_blob : (blob_id : ℕ) → BlobSlot → Bool
is_blob blob_id s = has_bytes s && s.id == blob_id

-- The low `n` bytes of a number, lowest first.
abbrev le_bytes : (n x : ℕ) → List ℕ
le_bytes zero x = []
le_bytes (suc n) x = x % 256 ∷ le_bytes n (x / 256)

-- One `fmt_mod_pair` with `DRM_FORMAT_MOD_LINEAR`: the format, four bytes of padding, the modifier.
abbrev fmt_mod_pair : (format : ℕ) → List ℕ
fmt_mod_pair format = le_bytes 4 format ++ le_bytes 4 0 ++ le_bytes 8 0

-- The bytes of `g_in_formats`: XRGB8888, ARGB8888, XBGR8888, ABGR8888.
unfoldable pub in_formats_bytes : List ℕ
in_formats_bytes =
    fmt_mod_pair 0x34325258
    ++ fmt_mod_pair 0x34325241
    ++ fmt_mod_pair 0x34324258
    ++ fmt_mod_pair 0x34324241

-- A copy of `data` in slot `i` under the next id.
unfoldable pub install_blob : Blobs → (slot : ℕ) → (data_bytes : List ℕ) → Blobs
install_blob b slot data_bytes = record b {
  slots =
      set b.slots slot (record {
        id = b.next_blob_id;
        size = length data_bytes % word32;
        bytes = some data_bytes;
      });
  next_blob_id = (b.next_blob_id + 1) % word32;
}

-- `alloc` says whether `malloc` gave memory for the copy; the result is 0 on failure.
unfoldable pub create_in_formats_blob : Blobs → (alloc : Bool) → Blobs × ℕ
unfolding install_blob in_formats_bytes
create_in_formats_blob b alloc =
    if not alloc then (b, 0) else elim (find_index (λ s. not (has_bytes s)) b.slots) [
      | none ↦ (b, 0)
      | some i ↦ (install_blob b i in_formats_bytes, b.next_blob_id)
    ]

unfoldable pub get_or_create_in_formats_blob : Blobs → (alloc : Bool) → Blobs × ℕ
unfolding create_in_formats_blob
get_or_create_in_formats_blob b alloc =
    if not (b.in_formats_blob_id == 0)
    then (b, b.in_formats_blob_id)
    else (let (b', id) = create_in_formats_blob b alloc in
        (record b' { in_formats_blob_id = id }, id))

-- `drmModePropertyBlobRes`; `bytes` is `none` for a null pointer.
pub record PropertyBlob : Type 0 where
  pub id : ℕ
  pub blob_length : ℕ
  pub bytes : Option (List ℕ)

abbrev bytes_or : Option (List ℕ) → List ℕ
bytes_or none = []
bytes_or (some bs) = bs

-- `alloc` says whether `calloc` gave memory for the result; if not, the loop ends as if nothing were
-- found. `data_alloc` says whether `malloc` gave memory for the copy of the data.
unfoldable pub drm_mode_get_property_blob :
    Blobs → (fd blob_id : ℕ) → (alloc data_alloc : Bool) → Outcome PropertyBlob
unfolding check_fd
drm_mode_get_property_blob b fd blob_id alloc data_alloc =
    if not (check_fd fd) then fail ebadf else elim (find? (is_blob blob_id) b.slots) [
      | none ↦ fail enoent
      | some s ↦
          if alloc
          then ok (record {
            id = blob_id;
            blob_length = s.size;
            bytes = if data_alloc then some (take s.size (bytes_or s.bytes)) else none;
          })
          else fail enoent
    ]

-- `data_bytes` is `none` for a null pointer, and `has_blob_id` says that the pointer for the result is
-- not null.
unfoldable pub drm_mode_create_property_blob :
    Blobs
    → (fd : ℕ) → (data_bytes : Option (List ℕ)) → (has_blob_id alloc : Bool) → Blobs × Outcome ℕ
unfolding check_fd
drm_mode_create_property_blob b fd data_bytes has_blob_id alloc =
    require (check_fd fd) ebadf b (elim data_bytes [
      | none ↦ (b, fail einval)
      | some bs ↦ require has_blob_id einval b (elim (find_index (λ s. not (has_bytes s)) b.slots) [
        | none ↦ (b, fail enomem)
        | some i ↦ require alloc enomem b (install_blob b i bs, ok b.next_blob_id)
      ])
    ])

-- The id and the size stay in the slot.
unfoldable pub clear_blob : Blobs → (slot : ℕ) → Blobs
clear_blob b slot = record b {
  slots = set b.slots slot (record (get_or b.slots slot no_blob) { bytes = none });
}

unfoldable pub drm_mode_destroy_property_blob :
    Blobs → (fd blob_id : ℕ) → Blobs × Outcome (Unit {0})
unfolding check_fd
drm_mode_destroy_property_blob b fd blob_id =
    require (check_fd fd) ebadf b (elim (find_index (is_blob blob_id) b.slots) [
      | none ↦ (b, fail enoent)
      | some i ↦ (clear_blob b i, ok tt)
    ])
