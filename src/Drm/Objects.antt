-- ===== src/Drm/Objects.antt =====
-- The property and plane queries of drm_linux.c: drmModeGetProperty, drmModeObjectGetProperties,
-- drmModeGetPlaneResources and drmModeGetPlane.
pub mod Queries
use Prim.Native.String.{String}
use text.Mathlib.Text.{◌==◌ as str_eq}
use wwn_iland.Common.{
  ℕ, ◌-◌, ◌%◌, ◌^◌, Bool, ◌&&◌, ◌||◌, not, Option, none, some, List, [], ◌∷◌, if◌then◌else◌, ltb,
  ◌==◌, length, get_or, get_elem?, Outcome, ok, fail, fault, ebadf, enoent, enomem, eopnotsupp,
  require,
}
use wwn_iland.Drm.Buffers.{check_fd}
use wwn_iland.Drm.Props.{
  PropDef, ObjProps, PropStore, no_prop, ensure_properties, ensure_cached_prop_ids, object_plane,
}
use wwn_iland.Drm.Props.Records.{no_obj, ensure_obj_properties, get_obj_props, get_obj_prop}
use wwn_iland.Drm.Blobs.{Blobs, get_or_create_in_formats_blob}
use wwn_iland.Drm.Device.{Device}

-- `drmModePropertyRes`; the enum names are those of the definition.
pub record Property : Type 0 where
  pub prop_id : ℕ
  pub flags : ℕ
  pub name : String
  pub values : List ℕ
  pub enums : List (ℕ × String)
  pub blob_ids : List ℕ

-- `alloc` says whether `calloc` gave memory for the result, `blob_alloc` whether `malloc` does for
-- the IN_FORMATS blob.
unfoldable pub drm_mode_get_property :
    Device → (fd property_id : ℕ) → (alloc blob_alloc : Bool) → Device × Outcome Property
unfolding check_fd ensure_properties
drm_mode_get_property d fd property_id alloc blob_alloc = require (check_fd fd) ebadf d (
    let ps = ensure_properties d.props.props in
    let d' = record d { props = record d.props { props = ps } } in
    let pd = get_or ps (property_id - 1) no_prop in
    require (not (ltb property_id 1 || ltb (length ps) property_id)) enoent d' (
      require alloc enomem d' (
        if str_eq pd.name "IN_FORMATS" && pd.count_blobs == 0
        then in_formats_result d' pd (get_or_create_in_formats_blob d'.blobs blob_alloc)
        else (d', ok (describe pd [])))))
  where
    describe : PropDef → List ℕ → Property
    describe pd blob_ids = record {
      prop_id = pd.id;
      flags = pd.flags;
      name = pd.name;
      values = pd.values;
      enums = pd.enums;
      blob_ids = blob_ids;
    }

    in_formats_result : Device → PropDef → Blobs × ℕ → Device × Outcome Property
    in_formats_result d' pd (blobs, id) = (record d' { blobs = blobs }, ok (describe pd (id ∷ [])))

-- The ids and values of an object's properties. An object that is not known gets a record.
unfoldable pub drm_mode_object_get_properties :
    Device → (fd object_id object_type : ℕ) → (alloc : Bool) → Device × Outcome (List (ℕ × ℕ))
unfolding check_fd
drm_mode_object_get_properties d fd object_id object_type alloc =
    require (check_fd fd) ebadf d (elim (ensure_obj_properties d.props) [
      | none ↦ (d, fault)
      | some s ↦
          let (os, found) = get_obj_props s.objs object_id object_type in
          let d' = record d { props = record s { objs = os } } in
          elim found [
            | none ↦ (d', fail enoent)
            | some i ↦ require alloc enomem d' (d', ok (get_or os i no_obj).vals)
          ]
    ])

unfoldable pub drm_mode_get_plane_resources : Device → (fd : ℕ) → (alloc : Bool) → Outcome (List ℕ)
unfolding check_fd
drm_mode_get_plane_resources d fd alloc =
    if not (check_fd fd)
    then fail ebadf
    else if d.universal_planes == 0
    then fail eopnotsupp
    else if not alloc
    then fail enomem
    else ok (1 ∷ [])

-- `drmModePlane`
pub record Plane : Type 0 where
  pub plane_id : ℕ
  pub possible_crtcs : ℕ
  pub crtc_id : ℕ
  pub fb_id : ℕ
  pub gamma_size : ℕ
  pub formats : List ℕ

abbrev pub format_xrgb8888 : ℕ
format_xrgb8888 = 0x34325258

abbrev pub format_argb8888 : ℕ
format_argb8888 = 0x34325241

-- The `switch` on the plane id, `none` in the default case.
unfoldable pub plane_formats : (plane_id : ℕ) → Option (List ℕ)
plane_formats plane_id =
    if plane_id == 1
    then some (format_xrgb8888 ∷ format_argb8888 ∷ [])
    else if plane_id == 2
    then some (format_argb8888 ∷ [])
    else if plane_id == 3
    then some (format_xrgb8888 ∷ format_argb8888 ∷ [])
    else none

-- Where the object table is full, the source reads the framebuffer id through a null pointer.
unfoldable pub drm_mode_get_plane :
    Device → (fd plane_id : ℕ) → (alloc : Bool) → Device × Outcome Plane
unfolding check_fd get_obj_prop plane_formats
drm_mode_get_plane d fd plane_id alloc =
    require (check_fd fd) ebadf d (elim (ensure_obj_properties d.props) [
      | none ↦ (d, fault)
      | some s0 ↦
          let s = ensure_cached_prop_ids s0 in
          require alloc enomem (record d { props = s })
            (let (os, found) = get_obj_props s.objs plane_id object_plane in
              let d' = record d { props = record s { objs = os } } in
              elim found [
                | none ↦ (d', fault)
                | some i ↦ elim (plane_formats plane_id) [
                  | none ↦ (d', fail enoent)
                  | some formats ↦ (
                    d',
                    ok (record {
                      plane_id = plane_id;
                      possible_crtcs = 1;
                      crtc_id = 1;
                      fb_id = get_obj_prop (get_or os i no_obj) s.cached.fb_id % 2 ^ 32;
                      gamma_size = 256;
                      formats = formats;
                    }),
                  )
                ]
              ])
    ])
