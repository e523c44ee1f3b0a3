-- ===== src/Drm/Blobs/Laws.antt =====
-- What a client can rely on of the blobs of drm_linux.c.
use wwn_iland.Common.{
  ℕ, ◌+◌, ◌%◌, ◌<◌, ◌≤◌, ◌≡◌, ◌≢◌, inl, inr, Bool, true, false, not, Option, some, none, List,
  arith, ◌==◌, if◌then◌else◌, length, get_elem?, set, count, All, All-set, All-mono, All-replicate,
  All-count, All-get, find?, find_index-cases, Bool-cases, get_elem?-lt, get_or-of_get_elem?,
  length-set, find?-set_fresh, find?-set_other, find?-count_zero, count-set, count-replicate, ok,
  fail, enoent, refl, ◌∙◌, ==_refl, take, take-few,
}
use wwn_iland.Drm.Buffers.{check_fd, word32}
use wwn_iland.Drm.Blobs.{
  Blobs, BlobSlot, max_blobs, no_blob, has_bytes, is_blob, install_blob, clear_blob, initial,
  in_formats_bytes, create_in_formats_blob, get_or_create_in_formats_blob,
  drm_mode_get_property_blob, drm_mode_create_property_blob, drm_mode_destroy_property_blob,
}

pub record HasBlobs (b : Blobs) : Type 0 where
  pub size : length b.slots ≡ max_blobs
  pub below : All (λ s. s.id < b.next_blob_id) b.slots
  pub unique : (id : ℕ) → count (is_blob id) b.slots ≤ 1

pub initial-HasBlobs : HasBlobs initial
unfolding initial
initial-HasBlobs = record {
  size = refl;
  below = All-replicate (λ s. s.id < 256) 32 no_blob (omega arith);
  unique = λ id. omega (arith, count-replicate (is_blob id) 32 no_blob refl);
}

abbrev new_blob : Blobs → List ℕ → BlobSlot
new_blob b bs = record { id = b.next_blob_id; size = length bs % word32; bytes = some bs }

next_is_fresh : (b : Blobs) → HasBlobs b → All (λ s. is_blob b.next_blob_id s ≡ false) b.slots
next_is_fresh b v =
    All-mono (λ s. s.id < b.next_blob_id) (λ s. is_blob b.next_blob_id s ≡ false) b.slots
      (λ s lt. ground arith) v.below

module _ (b : Blobs) (v : HasBlobs b) (slot : ℕ) (e : BlobSlot)
    (at : get_elem? b.slots slot ≡ some e) where
  install_blob-HasBlobs :
      (bs : List ℕ) → b.next_blob_id + 1 < word32 → HasBlobs (install_blob b slot bs)
  unfolding install_blob
  install_blob-HasBlobs bs room = record {
    size = omega (arith, v.size, length-set b.slots slot (new_blob b bs));
    below =
        All-set (λ s. s.id < (b.next_blob_id + 1) % word32) b.slots slot (new_blob b bs)
          (All-mono (λ s. s.id < b.next_blob_id) (λ s. s.id < (b.next_blob_id + 1) % word32) b.slots
            (λ s lt. omega (arith, lt, room)) v.below)
          (omega arith);
    unique = λ id.
        ground
          (arith, v.unique id, count-set (is_blob id) b.slots slot e (new_blob b bs) at, fresh id);
  }
    where
      fresh : (id : ℕ) → id ≡ b.next_blob_id → count (is_blob id) b.slots ≡ 0
      fresh id p =
          rw p (All-count (is_blob b.next_blob_id) _ b.slots (λ s q. q) (next_is_fresh b v))

  clear_blob-HasBlobs : HasBlobs (clear_blob b slot)
  unfolding clear_blob
  clear_blob-HasBlobs = rw (get_or-of_get_elem? b.slots slot e no_blob at) (record {
    size = omega (arith, v.size, length-set b.slots slot (record e { bytes = none }));
    below =
        All-set (λ s. s.id < b.next_blob_id) b.slots slot (record e { bytes = none }) v.below
          (All-get (λ s. s.id < b.next_blob_id) b.slots slot e at v.below);
    unique = λ id.
        ground (
          arith,
          v.unique id,
          count-set (is_blob id) b.slots slot e (record e { bytes = none }) at,
        );
  })

-- The calls that change the blobs.
pub data BlobCall : Type 0 where
  create : (fd : ℕ) → (data_bytes : Option (List ℕ)) → (has_blob_id alloc : Bool) → BlobCall
  destroy : (fd blob_id : ℕ) → BlobCall
  in_formats : (alloc : Bool) → BlobCall

unfoldable pub step : Blobs → BlobCall → Blobs
step b (create fd data_bytes has_blob_id alloc) =
    (drm_mode_create_property_blob b fd data_bytes has_blob_id alloc).0
step b (destroy fd blob_id) = (drm_mode_destroy_property_blob b fd blob_id).0
step b (in_formats alloc) = (get_or_create_in_formats_blob b alloc).0

in_formats_set-HasBlobs :
    (b : Blobs) (id : ℕ) → HasBlobs b → HasBlobs (record b { in_formats_blob_id = id })
in_formats_set-HasBlobs b id v = record { size = v.size; below = v.below; unique = v.unique }

-- Creating a blob by a client or for IN_FORMATS, or destroying one, keeps the ids of the live blobs
-- distinct and below the next id and the table at its 32 slots, until the ids wrap round at 2 ^ 32.
pub step-HasBlobs :
    (b : Blobs) (c : BlobCall) → HasBlobs b → b.next_blob_id + 1 < word32 → HasBlobs (step b c)
unfolding step drm_mode_create_property_blob drm_mode_destroy_property_blob
    get_or_create_in_formats_blob
step-HasBlobs b (create fd none has_blob_id alloc) v room = ground (arith, v)
step-HasBlobs b (create fd (some bs) has_blob_id alloc) v room =
    elim (find_index-cases (λ s. not (has_bytes s)) b.slots) [
      | inl e ↦ rw (e, step, drm_mode_create_property_blob) (ground (arith, v))
      | inr (i, x, e, at, p) ↦
          rw (e, step, drm_mode_create_property_blob)
            (ground (arith, v, install_blob-HasBlobs b v i x at bs room))
    ]
step-HasBlobs b (destroy fd blob_id) v room = elim (find_index-cases (is_blob blob_id) b.slots) [
  | inl e ↦ rw (e, step, drm_mode_destroy_property_blob) (ground (arith, v))
  | inr (i, x, e, at, p) ↦
      rw (e, step, drm_mode_destroy_property_blob)
        (ground (arith, v, clear_blob-HasBlobs b v i x at))
]
step-HasBlobs b (in_formats alloc) v room =
    elim (find_index-cases (λ s. not (has_bytes s)) b.slots) [
      | inl e ↦
          rw (e, step, get_or_create_in_formats_blob, create_in_formats_blob) (ground (arith, v))
      | inr (i, x, e, at, p) ↦
          let w = install_blob-HasBlobs b v i x at in_formats_bytes room in
          rw (e, step, get_or_create_in_formats_blob, create_in_formats_blob)
            (ground (
              arith,
              v,
              in_formats_set-HasBlobs (install_blob b i in_formats_bytes) b.next_blob_id w,
            ))
    ]

-- The search for a blob after a copy was put into a free slot.
find?-installed :
    (b : Blobs) (i : ℕ) (x : BlobSlot) (bs : List ℕ) (j : ℕ)
    → HasBlobs b
    → get_elem? b.slots i ≡ some x
    → not (has_bytes x) ≡ true
    → find? (is_blob j) (set b.slots i (new_blob b bs))
      ≡ (if b.next_blob_id == j then some (new_blob b bs) else find? (is_blob j) b.slots)
find?-installed b i x bs j v at free = elim (Bool-cases (b.next_blob_id == j)) [
  | inl same ↦
      let k : j ≡ b.next_blob_id = ground (arith, same) in
      rw (same, k)
        (find?-set_fresh (is_blob b.next_blob_id) b.slots i (new_blob b bs) (next_is_fresh b v)
          (get_elem?-lt (λ s. true) b.slots i x at) (ground arith))
  | inr other ↦
      rw other
        (find?-set_other (is_blob j) b.slots i x (new_blob b bs) at (ground (arith, free)) other)
]

-- The search for a blob after a slot was cleared.
find?-cleared :
    (b : Blobs) (i : ℕ) (x : BlobSlot) (id j : ℕ)
    → HasBlobs b
    → get_elem? b.slots i ≡ some x
    → is_blob id x ≡ true
    → find? (is_blob j) (set b.slots i (record x { bytes = none }))
      ≡ (if id == j then none else find? (is_blob j) b.slots)
find?-cleared b i x id j v at hit = elim (Bool-cases (id == j)) [
  | inl same ↦
      let k : j ≡ id = ground (arith, same) in
      rw (same, k)
        (find?-count_zero (is_blob id) (set b.slots i (record x { bytes = none })) (
          ground (
            arith,
            hit,
            v.unique id,
            count-set (is_blob id) b.slots i x (record x { bytes = none }) at,
          )))
  | inr other ↦ rw other (
      find?-set_other (is_blob j) b.slots i x (record x { bytes = none }) at
        (ground (arith, hit, other)) refl)
]

-- A blob of fewer than 2 ^ 32 bytes that was created is read back byte for byte under the id that
-- the call returned, and what is read under any other id is as before, where memory is given.
pub get-create_property_blob :
    (b : Blobs) (fd : ℕ) (bs : List ℕ) (b' : Blobs) (id j : ℕ)
    → HasBlobs b
    → length bs < word32
    → drm_mode_create_property_blob b fd (some bs) true true ≡ (b', ok id)
    → drm_mode_get_property_blob b' fd j true true ≡ (
        if id == j
        then ok (record { id = id; blob_length = length bs; bytes = some bs })
        else drm_mode_get_property_blob b fd j true true)
unfolding drm_mode_create_property_blob drm_mode_get_property_blob install_blob
get-create_property_blob b fd bs b' id j v small h =
    elim (find_index-cases (λ s. not (has_bytes s)) b.slots) [
      | inl e ↦ absurd (ground (arith, rw (e, drm_mode_create_property_blob) at h))
      | inr (i, x, e, at, p) ↦
          let k = rw (e, drm_mode_create_property_blob) at h in
          let after : b' ≡ install_blob b i bs = ground (arith, k) in
          let id_is : id ≡ b.next_blob_id = ground (arith, k) in
          let fd_ok : check_fd fd ≡ true = ground (arith, k) in
          let fits : length bs % word32 ≡ length bs = ground (arith, small) in
          let whole : take (length bs % word32) bs ≡ bs =
            take-few (length bs % word32) bs (omega (arith, fits)) in
          rw (after, id_is, fd_ok) (ground (arith, find?-installed b i x bs j v at p, fits, whole))
    ]

-- A destroyed blob is not found any more, and what is read under any other id is as before.
pub get-destroy_property_blob :
    (b : Blobs) (fd id : ℕ) (b' : Blobs) (j : ℕ)
    → HasBlobs b
    → drm_mode_destroy_property_blob b fd id ≡ (b', ok tt)
    → drm_mode_get_property_blob b' fd j true true
      ≡ (if id == j then fail enoent else drm_mode_get_property_blob b fd j true true)
unfolding drm_mode_destroy_property_blob drm_mode_get_property_blob clear_blob
get-destroy_property_blob b fd id b' j v h = elim (find_index-cases (is_blob id) b.slots) [
  | inl e ↦ absurd (ground (arith, rw (e, drm_mode_destroy_property_blob) at h))
  | inr (i, x, e, at, p) ↦
      let k = rw (e, drm_mode_destroy_property_blob) at h in
      let after : b' ≡ clear_blob b i = ground (arith, k) in
      let fd_ok : check_fd fd ≡ true = ground (arith, k) in
      let old = get_or-of_get_elem? b.slots i x no_blob at in
      rw (after, fd_ok) (ground (arith, old, find?-cleared b i x id j v at p))
]

-- The id of the IN_FORMATS blob is remembered when a client destroys the blob: right after that the
-- property names the id, and no blob is found under it.
pub in_formats_blob_stale :
    (b : Blobs) (fd : ℕ) (b' : Blobs) (alloc : Bool)
    → HasBlobs b
    → b.in_formats_blob_id ≢ 0
    → drm_mode_destroy_property_blob b fd b.in_formats_blob_id ≡ (b', ok tt)
    → (get_or_create_in_formats_blob b' alloc ≡ (b', b.in_formats_blob_id))
      × (drm_mode_get_property_blob b' fd b.in_formats_blob_id true true ≡ fail enoent)
unfolding drm_mode_destroy_property_blob get_or_create_in_formats_blob clear_blob
in_formats_blob_stale b fd b' alloc v nz h = (
  ground (arith, in_formats_kept),
  get-destroy_property_blob b fd b.in_formats_blob_id b' b.in_formats_blob_id v h
      ∙ rw (==_refl b.in_formats_blob_id),
)
  where
    in_formats_kept : b'.in_formats_blob_id ≡ b.in_formats_blob_id
    in_formats_kept = ground (arith, h)
