-- ===== src/Drm/Props/Records.antt =====
-- get_obj_props, set_obj_prop, get_obj_prop and ensure_obj_properties of drm_linux.c: the property
-- values of each object. A pointer into `g_obj_props` is its index.
use wwn_iland.Common.{
  ℕ, ◌&&◌, Option, none, some, List, [], ◌∷◌, ◌++◌, if◌then◌else◌, leb, ◌==◌, length, get_or, set,
  find_index, find?,
}
use wwn_iland.Drm.Props.{
  ObjProps, CachedPropIds, PropStore, max_props_per_obj, max_obj_props, object_crtc,
  object_connector, object_plane, ensure_cached_prop_ids,
}

-- The index of the object's record, which is made if it is not there and the table has room.
unfoldable pub get_obj_props : List ObjProps → (obj_id obj_type : ℕ) → List ObjProps × Option ℕ
get_obj_props os obj_id obj_type =
    elim (find_index (λ o. o.obj_id == obj_id && o.obj_type == obj_type) os) [
      | some i ↦ (os, some i)
      | none ↦ if leb max_obj_props (length os) then (os, none) else (
        os ++ record { obj_id = obj_id; obj_type = obj_type; vals = [] } ∷ [],
        some (length os),
      )
    ]

unfoldable pub set_vals : List (ℕ × ℕ) → (prop_id val : ℕ) → List (ℕ × ℕ)
set_vals vs prop_id val = elim (find_index (λ (p : ℕ × ℕ). p.0 == prop_id) vs) [
  | some i ↦ set vs i (prop_id, val)
  | none ↦ if leb max_props_per_obj (length vs) then vs else vs ++ (prop_id, val) ∷ []
]

unfoldable pub set_obj_prop : ObjProps → (prop_id val : ℕ) → ObjProps
unfolding set_vals
set_obj_prop o prop_id val = record o { vals = set_vals o.vals prop_id val }

abbrev pub value_of : Option (ℕ × ℕ) → ℕ
value_of none = 0
value_of (some p) = p.1

unfoldable pub get_obj_prop : ObjProps → (prop_id : ℕ) → ℕ
get_obj_prop o prop_id = value_of (find? (λ (p : ℕ × ℕ). p.0 == prop_id) o.vals)

unfoldable pub set_obj_props : ObjProps → List (ℕ × ℕ) → ObjProps
unfolding set_obj_prop
set_obj_props o [] = o
set_obj_props o ((prop_id, val) ∷ ps) = set_obj_props (set_obj_prop o prop_id val) ps

abbrev pub no_obj : ObjProps
no_obj = record { obj_id = 0; obj_type = 0; vals = [] }

-- The defaults of one object: `none` where the record could not be made, and the source reads
-- through a null pointer.
unfoldable pub ensure_object :
    List ObjProps → (obj_id obj_type : ℕ) → (defaults : List (ℕ × ℕ)) → Option (List ObjProps)
unfolding get_obj_props set_obj_props
ensure_object os obj_id obj_type defaults =
    let (os', found) = get_obj_props os obj_id obj_type in
    elim found [
      | none ↦ none
      | some i ↦
          if length (get_or os' i no_obj).vals == 0
          then some (set os' i (set_obj_props (get_or os' i no_obj) defaults))
          else some os'
    ]

-- The property list of a plane in the source's order.
unfoldable pub plane_defaults : CachedPropIds → (plane_type size : ℕ) → List (ℕ × ℕ)
plane_defaults c plane_type size =
    (c.type, plane_type)
    ∷ (c.fb_id, 0)
    ∷ (c.crtc_id, 0)
    ∷ (c.crtc_x, 0)
    ∷ (c.crtc_y, 0)
    ∷ (c.crtc_w, size)
    ∷ (c.crtc_h, size)
    ∷ (c.src_x, 0)
    ∷ (c.src_y, 0)
    ∷ (c.src_w, size)
    ∷ (c.src_h, size)
    ∷ []

-- `DRM_PLANE_TYPE_*`
abbrev pub plane_type_primary : ℕ
plane_type_primary = 1

abbrev pub plane_type_cursor : ℕ
plane_type_cursor = 2

infixl 5 ◌>>=◌
abbrev ◌>>=◌ : {A B : Type 0} → Option A → (A → Option B) → Option B
none >>= f = none
some a >>= f = f a

unfoldable pub ensure_obj_properties : PropStore → Option PropStore
unfolding ensure_cached_prop_ids ensure_object plane_defaults
ensure_obj_properties s = do
  let s' = ensure_cached_prop_ids s
  let c = s'.cached
  o1 ← ensure_object s'.objs 1 object_crtc ((c.active, 1) ∷ (c.mode_id, 0) ∷ [])
  o2 ← ensure_object o1 1 object_connector ((c.dpms, 0) ∷ (c.crtc_id, 0) ∷ [])
  o3 ← ensure_object o2 1 object_plane (plane_defaults c plane_type_primary 0)
  o4 ← ensure_object o3 2 object_plane (plane_defaults c plane_type_cursor 64)
  some (record s' { objs = o4 })
