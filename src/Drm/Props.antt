-- ===== src/Drm/Props.antt =====
-- The property store of drm_linux.c: add_prop and its kin, ensure_properties and the cached ids.
pub mod Records
pub mod Values
pub mod Defaults
mod Tests
use Prim.Native.Nat.{bit_or}
use Prim.Native.String.{String}
use text.Mathlib.Text.{◌==◌ as str_eq}
use wwn_iland.Common.{
  ℕ, suc, ◌+◌, ◌-◌, Bool, ◌&&◌, not, Option, none, some, List, [], ◌∷◌, ◌++◌, if◌then◌else◌, leb,
  ltb, ◌==◌, length, get_or, get_elem?, set, find_index, find?,
}

abbrev pub max_props : ℕ
max_props = 64

abbrev pub max_props_per_obj : ℕ
max_props_per_obj = 16

-- The size of `g_obj_props`.
abbrev pub max_obj_props : ℕ
max_obj_props = 16

-- `DRM_MODE_PROP_*`
abbrev pub prop_range : ℕ
prop_range = 1

abbrev pub prop_enum : ℕ
prop_enum = 2

abbrev pub prop_blob : ℕ
prop_blob = 4

abbrev pub prop_immutable : ℕ
prop_immutable = 16

abbrev pub prop_atomic : ℕ
prop_atomic = 32

-- `DRM_MODE_OBJECT_*`
abbrev pub object_crtc : ℕ
object_crtc = 0xcccccccc

abbrev pub object_connector : ℕ
object_connector = 0xc0c0c0c0

abbrev pub object_plane : ℕ
object_plane = 0xeeeeeeee

-- `prop_def_t`. `values` is the part of the array that `count_values` counts.
pub record PropDef : Type 0 where
  pub id : ℕ
  pub flags : ℕ
  pub name : String
  pub values : List ℕ
  pub enums : List (ℕ × String)
  pub count_blobs : ℕ

-- `obj_props_t`: the used parts of `prop_ids` and `prop_vals`, side by side.
pub record ObjProps : Type 0 where
  pub obj_id : ℕ
  pub obj_type : ℕ
  pub vals : List (ℕ × ℕ)

-- `g_cached_prop_ids`
pub record CachedPropIds : Type 0 where
  pub fb_id : ℕ
  pub crtc_x : ℕ
  pub crtc_y : ℕ
  pub crtc_w : ℕ
  pub crtc_h : ℕ
  pub src_x : ℕ
  pub src_y : ℕ
  pub src_w : ℕ
  pub src_h : ℕ
  pub crtc_id : ℕ
  pub active : ℕ
  pub mode_id : ℕ
  pub dpms : ℕ
  pub type : ℕ
  pub in_formats : ℕ

-- `g_props[0 .. g_prop_count)`, `g_obj_props[0 .. g_obj_prop_count)` and the cache.
pub record PropStore : Type 0 where
  pub props : List PropDef
  pub objs : List ObjProps
  pub cached : CachedPropIds

-- With the new property's id, `none` where the source returns -1.
unfoldable pub add_prop :
    List PropDef → String → (flags : ℕ) → (vals : List ℕ) → List PropDef × Option ℕ
add_prop ps name flags vals =
    if leb max_props (length ps) then (ps, none) else (ps ++ added ∷ [], some (length ps + 1))
  where
    added : PropDef
    added = record {
      id = length ps + 1;
      flags = flags;
      name = name;
      values = vals;
      enums = [];
      count_blobs = 0;
    }

abbrev pub no_prop : PropDef
no_prop = record { id = 0; flags = 0; name = ""; values = []; enums = []; count_blobs = 0 }

unfoldable pub add_enum_prop :
    List PropDef → String → (flags : ℕ) → (enums : List (ℕ × String)) → List PropDef × Option ℕ
unfolding add_prop
add_enum_prop ps name flags enums =
    let (ps', id) = add_prop ps name flags [] in
    elim id [
      | none ↦ (ps', none)
      | some n ↦ (set ps' (n - 1) (record (get_or ps' (n - 1) no_prop) { enums = enums }), some n)
    ]

unfoldable pub add_blob_prop : List PropDef → String → (flags : ℕ) → List PropDef × Option ℕ
unfolding add_prop
add_blob_prop ps name flags = add_prop ps name (bit_or flags prop_blob) []

-- The calls of `ensure_properties` that add the plane's coordinates, all with the same range.
unfoldable pub add_ranges : List PropDef → List String → List PropDef
unfolding add_prop
add_ranges ps [] = ps
add_ranges ps (name ∷ names) =
    add_ranges (add_prop ps name (bit_or prop_range prop_atomic) (0 ∷ 0xffffffff ∷ [])).0 names

unfoldable pub ensure_properties : List PropDef → List PropDef
unfolding add_prop add_enum_prop add_blob_prop add_ranges
ensure_properties (p ∷ ps) = p ∷ ps
ensure_properties [] =
    let p1 =
      (add_enum_prop [] "DPMS" (bit_or prop_enum prop_atomic) ((0, "OK") ∷ (1, "off") ∷ [])).0 in
    let p2 =
      (add_prop p1 "CRTC_ID" (bit_or (bit_or prop_range prop_atomic) prop_immutable)
        (0 ∷ 1 ∷ [])).0 in
    let p3 = (add_blob_prop p2 "EDID" prop_immutable).0 in
    let p4 = (add_prop p3 "ACTIVE" (bit_or prop_range prop_atomic) (0 ∷ 1 ∷ [])).0 in
    let p5 = (add_blob_prop p4 "MODE_ID" prop_atomic).0 in
    let p6 = (add_blob_prop p5 "IN_FORMATS" (bit_or prop_immutable prop_blob)).0 in
    let p7 = add_ranges p6 (
      "FB_ID" ∷ "CRTC_X" ∷ "CRTC_Y" ∷ "CRTC_W" ∷ "CRTC_H" ∷ "SRC_X" ∷ "SRC_Y" ∷ "SRC_W" ∷ "SRC_H"
      ∷ []) in
    (add_enum_prop p7 "type" (bit_or prop_immutable prop_enum)
      ((0, "Overlay") ∷ (1, "Primary") ∷ (2, "Cursor") ∷ [])).0

unfoldable pub lookup_prop_id : List PropDef → String → ℕ
lookup_prop_id ps name = elim (find? (λ p. str_eq p.name name) ps) [ none ↦ 0 | some p ↦ p.id ]

unfoldable pub look_up_all : List PropDef → CachedPropIds
unfolding lookup_prop_id
look_up_all ps = record {
  fb_id = lookup_prop_id ps "FB_ID";
  crtc_x = lookup_prop_id ps "CRTC_X";
  crtc_y = lookup_prop_id ps "CRTC_Y";
  crtc_w = lookup_prop_id ps "CRTC_W";
  crtc_h = lookup_prop_id ps "CRTC_H";
  src_x = lookup_prop_id ps "SRC_X";
  src_y = lookup_prop_id ps "SRC_Y";
  src_w = lookup_prop_id ps "SRC_W";
  src_h = lookup_prop_id ps "SRC_H";
  crtc_id = lookup_prop_id ps "CRTC_ID";
  active = lookup_prop_id ps "ACTIVE";
  mode_id = lookup_prop_id ps "MODE_ID";
  dpms = lookup_prop_id ps "DPMS";
  type = lookup_prop_id ps "type";
  in_formats = lookup_prop_id ps "IN_FORMATS";
}

unfoldable pub ensure_cached_prop_ids : PropStore → PropStore
unfolding look_up_all ensure_properties
ensure_cached_prop_ids s =
    if s.cached.fb_id == 0
    then record s {
      props = ensure_properties s.props;
      cached = look_up_all (ensure_properties s.props);
    }
    else s

unfoldable pub initial : PropStore
initial = record {
  props = [];
  objs = [];
  cached = record {
    fb_id = 0;
    crtc_x = 0;
    crtc_y = 0;
    crtc_w = 0;
    crtc_h = 0;
    src_x = 0;
    src_y = 0;
    src_w = 0;
    src_h = 0;
    crtc_id = 0;
    active = 0;
    mode_id = 0;
    dpms = 0;
    type = 0;
    in_formats = 0;
  };
}
