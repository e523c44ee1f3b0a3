-- ===== src/Drm/Props/Defaults.antt =====
-- The default objects of drm_linux.c: the CRTC, the connector, the primary and the cursor plane.
use wwn_iland.Common.{
  ℕ, ◌<◌, ◌≤◌, ◌≡◌, ◌⊎◌, inl, inr, true, ◌&&◌, some, none, List, [], ◌∷◌, ◌++◌, arith, ◌==◌, leb,
  zero, suc, Bool-cases, get_elem?, find?, find_index-cases, length-append, ap, length, get_or, set,
  find_index, refl,
}
use wwn_iland.Drm.Props.{
  ObjProps, CachedPropIds, PropStore, object_crtc, object_connector, object_plane, max_obj_props,
  ensure_cached_prop_ids, initial,
}
use wwn_iland.Drm.Props.Records.{
  no_obj, get_obj_props, set_obj_prop, ensure_object, ensure_obj_properties,
}
use wwn_iland.Drm.Props.Values.{length-set_obj_prop}

-- A record of the object, with values.
abbrev pub Describes : (obj_id obj_type : ℕ) → ObjProps → Type 0
Describes obj_id obj_type o = (o.obj_id ≡ obj_id) × (o.obj_type ≡ obj_type) × (0 < length o.vals)

-- The first four records, in the order that `ensure_obj_properties` makes them.
abbrev pub HasDefaults : List ObjProps → Type 0
HasDefaults (crtc ∷ connector ∷ primary ∷ cursor ∷ rest) =
    Describes 1 object_crtc crtc
    × Describes 1 object_connector connector
    × Describes 1 object_plane primary
    × Describes 2 object_plane cursor
HasDefaults _ = ⊥

-- The ids that the property names get.
abbrev pub standard_ids : CachedPropIds
standard_ids = record {
  fb_id = 7;
  crtc_x = 8;
  crtc_y = 9;
  crtc_w = 10;
  crtc_h = 11;
  src_x = 12;
  src_y = 13;
  src_w = 14;
  src_h = 15;
  crtc_id = 2;
  active = 4;
  mode_id = 5;
  dpms = 1;
  type = 16;
  in_formats = 6;
}

pub record IsBooted (s : PropStore) : Type 0 where
  pub cached_is : s.cached ≡ standard_ids
  pub props_size : length s.props ≡ 16
  pub objs_size : length s.objs ≤ max_obj_props
  pub defaults : HasDefaults s.objs

-- The first call makes the defaults.
pub ensure-initial : (s : PropStore) × (ensure_obj_properties initial ≡ some s) × IsBooted s
unfolding ensure_obj_properties initial find_index find?
ensure-initial = (
  _,
  refl,
  record { cached_is = refl; props_size = refl; objs_size = omega arith; defaults = omega arith },
)

-- An object whose record has values is left as it is.
ensure_object-present :
    (os : List ObjProps) (obj_id obj_type i : ℕ) (defaults : List (ℕ × ℕ))
    → find_index (λ o. o.obj_id == obj_id && o.obj_type == obj_type) os ≡ some i
    → 0 < length (get_or os i no_obj).vals
    → ensure_object os obj_id obj_type defaults ≡ some os
unfolding ensure_object get_obj_props
ensure_object-present os obj_id obj_type i defaults found has =
    rw (found, ensure_object) (ground arith)

-- Where `get_obj_props` finds the default objects.
pub default_indices :
    (os : List ObjProps)
    → HasDefaults os
    → (find_index (λ o. o.obj_id == 1 && o.obj_type == object_crtc) os ≡ some 0)
      × (find_index (λ o. o.obj_id == 1 && o.obj_type == object_connector) os ≡ some 1)
      × (find_index (λ o. o.obj_id == 1 && o.obj_type == object_plane) os ≡ some 2)
      × (find_index (λ o. o.obj_id == 2 && o.obj_type == object_plane) os ≡ some 3)
unfolding find_index
default_indices (crtc ∷ connector ∷ primary ∷ cursor ∷ rest) h = ground arith
default_indices [] h = absurd h
default_indices (a ∷ []) h = absurd h
default_indices (a ∷ b ∷ []) h = absurd h
default_indices (a ∷ b ∷ c ∷ []) h = absurd h

default_values :
    (os : List ObjProps)
    → HasDefaults os
    → (0 < length (get_or os 0 no_obj).vals)
      × (0 < length (get_or os 1 no_obj).vals)
      × (0 < length (get_or os 2 no_obj).vals)
      × (0 < length (get_or os 3 no_obj).vals)
default_values (crtc ∷ connector ∷ primary ∷ cursor ∷ rest) h = omega arith
default_values [] h = absurd h
default_values (a ∷ []) h = absurd h
default_values (a ∷ b ∷ []) h = absurd h
default_values (a ∷ b ∷ c ∷ []) h = absurd h

pub ensure_cached-IsBooted : (s : PropStore) → IsBooted s → ensure_cached_prop_ids s ≡ s
unfolding ensure_cached_prop_ids
ensure_cached-IsBooted s v =
    let e : s.cached.fb_id ≡ 7 = ap (λ c. c.fb_id) v.cached_is in ground (arith, e)

-- Once the defaults are made, a further call succeeds and changes nothing, so it overwrites no value
-- that a client has set.
pub ensure-IsBooted : (s : PropStore) → IsBooted s → ensure_obj_properties s ≡ some s
unfolding ensure_obj_properties
ensure-IsBooted s v =
    let (i0, i1, i2, i3) = default_indices s.objs v.defaults in
    let (v0, v1, v2, v3) = default_values s.objs v.defaults in
    rw (
      ensure_cached-IsBooted s v,
      ensure_object-present s.objs 1 object_crtc 0 _ i0 v0,
      ensure_object-present s.objs 1 object_connector 1 _ i1 v1,
      ensure_object-present s.objs 1 object_plane 2 _ i2 v2,
      ensure_object-present s.objs 2 object_plane 3 _ i3 v3,
    )

-- Setting a property of any record keeps the defaults in place.
pub set-HasDefaults :
    (os : List ObjProps) (i prop_id val : ℕ)
    → HasDefaults os
    → HasDefaults (set os i (set_obj_prop (get_or os i no_obj) prop_id val))
unfolding set_obj_prop
set-HasDefaults (crtc ∷ connector ∷ primary ∷ cursor ∷ rest) zero prop_id val h =
    omega (arith, length-set_obj_prop crtc prop_id val)
set-HasDefaults (crtc ∷ connector ∷ primary ∷ cursor ∷ rest) (suc zero) prop_id val h =
    omega (arith, length-set_obj_prop connector prop_id val)
set-HasDefaults (crtc ∷ connector ∷ primary ∷ cursor ∷ rest) (suc (suc zero)) prop_id val h =
    omega (arith, length-set_obj_prop primary prop_id val)
set-HasDefaults (crtc ∷ connector ∷ primary ∷ cursor ∷ rest) (suc (suc (suc zero))) prop_id val h =
    omega (arith, length-set_obj_prop cursor prop_id val)
set-HasDefaults (crtc ∷ connector ∷ primary ∷ cursor ∷ rest) (suc (suc (suc (suc i)))) prop_id val
      h =
    h
set-HasDefaults [] i prop_id val h = absurd h
set-HasDefaults (a ∷ []) i prop_id val h = absurd h
set-HasDefaults (a ∷ b ∷ []) i prop_id val h = absurd h
set-HasDefaults (a ∷ b ∷ c ∷ []) i prop_id val h = absurd h

append-HasDefaults :
    (os : List ObjProps) (o : ObjProps) → HasDefaults os → HasDefaults (os ++ o ∷ [])
append-HasDefaults (crtc ∷ connector ∷ primary ∷ cursor ∷ rest) o h = h
append-HasDefaults [] o h = absurd h
append-HasDefaults (a ∷ []) o h = absurd h
append-HasDefaults (a ∷ b ∷ []) o h = absurd h
append-HasDefaults (a ∷ b ∷ c ∷ []) o h = absurd h

abbrev pub empty_obj : (obj_id obj_type : ℕ) → ObjProps
empty_obj obj_id obj_type = record { obj_id = obj_id; obj_type = obj_type; vals = [] }

-- The three ways of a lookup: found, full, or made.
pub get_obj_props-cases :
    (os : List ObjProps) (obj_id obj_type : ℕ)
    → ((i : ℕ) × (o : ObjProps) × (get_obj_props os obj_id obj_type ≡ (os, some i))
        × (get_elem? os i ≡ some o))
      ⊎ ((get_obj_props os obj_id obj_type ≡ (os, none))
          × (find_index (λ o. o.obj_id == obj_id && o.obj_type == obj_type) os ≡ none)
          × (max_obj_props ≤ length os))
      ⊎ ((get_obj_props os obj_id obj_type
            ≡ (os ++ empty_obj obj_id obj_type ∷ [], some (length os)))
          × (length os < max_obj_props))
unfolding get_obj_props
get_obj_props-cases os obj_id obj_type =
    elim (find_index-cases (λ o. o.obj_id == obj_id && o.obj_type == obj_type) os) [
      | inl absent ↦ elim (Bool-cases (leb max_obj_props (length os))) [
        | inl full ↦ inr (inl (rw (absent, get_obj_props, full), absent, ground (arith, full)))
        | inr free ↦ inr (inr (rw (absent, get_obj_props, free), ground (arith, free)))
      ]
      | inr (i, e, found, at, p) ↦ inl (i, e, rw (found, get_obj_props), at)
    ]

-- A lookup that finds its object changes nothing.
pub get_obj_props-found :
    (os : List ObjProps) (obj_id obj_type i : ℕ)
    → find_index (λ o. o.obj_id == obj_id && o.obj_type == obj_type) os ≡ some i
    → get_obj_props os obj_id obj_type ≡ (os, some i)
unfolding get_obj_props
get_obj_props-found os obj_id obj_type i found = rw (found, get_obj_props)

-- A lookup in a full table that does not hold the object has no record to give.
pub get_obj_props-full :
    (os : List ObjProps) (obj_id obj_type : ℕ)
    → find_index (λ o. o.obj_id == obj_id && o.obj_type == obj_type) os ≡ none
    → max_obj_props ≤ length os
    → get_obj_props os obj_id obj_type ≡ (os, none)
unfolding get_obj_props
get_obj_props-full os obj_id obj_type absent full =
    let is_full : leb max_obj_props (length os) ≡ true = ground (arith, full) in
    rw (absent, get_obj_props, is_full)

-- Looking up an object keeps the defaults in place and the table within its array.
pub get_obj_props-HasDefaults :
    (os : List ObjProps) (obj_id obj_type : ℕ)
    → HasDefaults os
    → length os ≤ max_obj_props
    → HasDefaults (get_obj_props os obj_id obj_type).0
      × (length (get_obj_props os obj_id obj_type).0 ≤ max_obj_props)
get_obj_props-HasDefaults os obj_id obj_type h size =
    elim (get_obj_props-cases os obj_id obj_type) [
      | inl (i, o, e, at) ↦ rw e (h, size)
      | inr (inl (e, absent, full)) ↦ rw e (h, size)
      | inr (inr (e, free)) ↦ rw e (
        append-HasDefaults os (empty_obj obj_id obj_type) h,
        omega (arith, length-append os (empty_obj obj_id obj_type ∷ [])),
      )
    ]
