-- ===== src/Drm/Objects/Queries.antt =====
-- What the property and plane queries of drm_linux.c answer.
use wwn_iland.Common.{
  ℕ, ◌≤◌, ◌≡◌, ◌⊎◌, refl, inl, inr, true, ◌&&◌, none, List, arith, ◌==◌, length, find_index, ok,
  fail, enoent,
}
use wwn_iland.Drm.Buffers.{drm_virtual_fd}
use wwn_iland.Drm.Props.{ObjProps, PropStore, max_obj_props}
use wwn_iland.Drm.Props.Defaults.{
  IsBooted, HasDefaults, ensure-IsBooted, get_obj_props-cases, get_obj_props-HasDefaults,
}
use wwn_iland.Drm.Device.{Device}
use wwn_iland.Drm.Objects.{drm_mode_object_get_properties}

with_objs-IsBooted :
    (s : PropStore) (os : List ObjProps)
    → IsBooted s
    → HasDefaults os
    → length os ≤ max_obj_props
    → IsBooted (record s { objs = os })
with_objs-IsBooted s os v h size = record {
  cached_is = v.cached_is;
  props_size = v.props_size;
  objs_size = size;
  defaults = h;
}

-- Asking for the properties of any object on a device whose default objects are made keeps those in
-- place and the table within its 16 records. It answers also for an object that it did not know,
-- except where the table is full: then it reports ENOENT.
pub object_get_properties_lem :
    (d : Device) (object_id object_type : ℕ)
    → IsBooted d.props
    → let (d', r) = drm_mode_object_get_properties d drm_virtual_fd object_id object_type true in
      IsBooted d'.props
      × (((vals : List (ℕ × ℕ)) × (r ≡ ok vals))
          ⊎ ((find_index (λ o. o.obj_id == object_id && o.obj_type == object_type) d.props.objs
                ≡ none)
              × (length d.props.objs ≡ max_obj_props)
              × (r ≡ fail enoent)))
unfolding drm_mode_object_get_properties
object_get_properties_lem d object_id object_type v =
    let e = ensure-IsBooted d.props v in
    let kept =
      get_obj_props-HasDefaults d.props.objs object_id object_type v.defaults v.objs_size in
    let booted = with_objs-IsBooted d.props _ v kept.0 kept.1 in
    elim (get_obj_props-cases d.props.objs object_id object_type) [
      | inl (i, o, found, at) ↦ rw (e, found) (booted, inl (_, refl))
      | inr (inl (found, absent, full)) ↦
          rw (e, found) (booted, inr (absent, omega (arith, full, v.objs_size), refl))
      | inr (inr (found, free)) ↦ rw (e, found) (booted, inl (_, refl))
    ]
