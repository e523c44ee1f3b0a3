-- ===== src/Drm/Blobs/Tests.antt =====
-- Examples for the theorems on the blobs of drm_linux.c.
use wwn_iland.Common.{ℕ, ◌≡◌, refl, some, true, List, [], ◌∷◌, arith, Outcome, ok, fail, enoent}
use wwn_iland.Drm.Blobs.{
  Blobs, initial, drm_mode_get_property_blob, drm_mode_create_property_blob,
  drm_mode_destroy_property_blob, get_or_create_in_formats_blob,
}
use wwn_iland.Drm.Blobs.Laws.{
  HasBlobs, initial-HasBlobs, create, in_formats, step, step-HasBlobs, get-create_property_blob,
  in_formats_blob_stale,
}

abbrev one_blob : Blobs
one_blob = step initial (create 42 (some (1 ∷ 2 ∷ [])) true true)

abbrev with_formats : Blobs
with_formats = step initial (in_formats true)

with_formats-HasBlobs : HasBlobs with_formats
unfolding initial
with_formats-HasBlobs = step-HasBlobs initial (in_formats true) initial-HasBlobs (omega arith)

get-create_property_blob_example :
    drm_mode_get_property_blob one_blob 42 256 true true
    ≡ ok (record { id = 256; blob_length = 2; bytes = some (1 ∷ 2 ∷ []) })
unfolding initial step drm_mode_create_property_blob wwn_iland.Common.find_index
get-create_property_blob_example =
    get-create_property_blob initial 42 (1 ∷ 2 ∷ []) one_blob 256 256 initial-HasBlobs (omega arith)
      refl

in_formats_blob_stale_example :
    let b' = (drm_mode_destroy_property_blob with_formats 42 256).0 in
    (get_or_create_in_formats_blob b' true ≡ (b', 256))
    × (drm_mode_get_property_blob b' 42 256 true true ≡ fail enoent)
unfolding initial step get_or_create_in_formats_blob wwn_iland.Common.find_index
    drm_mode_destroy_property_blob
in_formats_blob_stale_example =
    in_formats_blob_stale with_formats 42 (drm_mode_destroy_property_blob with_formats 42 256).0
      true with_formats-HasBlobs (omega arith) refl
