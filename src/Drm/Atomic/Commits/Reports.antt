-- ===== src/Drm/Atomic/Commits/Reports.antt =====
-- What a client sees of an atomic commit of drm_linux.c.
use wwn_iland.Common.{
  ℕ, ◌+◌, ◌≤◌, ◌≡◌, ◌∙◌, inl, inr, ◌&&◌, Option, none, some, List, [], ◌∷◌, arith, if◌then◌else◌,
  ◌==◌, length, get_elem?, find?, Bool-cases, ok,
}
use wwn_iland.Drm.Buffers.{drm_virtual_fd}
use wwn_iland.Drm.Props.{ObjProps, max_props_per_obj}
use wwn_iland.Drm.Props.Records.{no_obj, set_obj_prop, get_obj_prop}
use wwn_iland.Drm.Props.Values.{get-set_obj_prop, length-set_obj_prop}
use wwn_iland.Drm.Props.Defaults.{IsBooted}
use wwn_iland.Drm.Device.{Device}
use wwn_iland.Drm.Atomic.{AtomicReq, assign, drm_mode_atomic_commit}
use wwn_iland.Drm.Atomic.Commits.Store.{
  assign_all, commit-props, find?-assign, assign_all-HasDefaults,
}

-- On a device whose default objects are made, every commit of a request succeeds, and the default
-- objects, the cached ids and the bounds of the store are as good after it as before.
pub commit-IsBooted :
    (d : Device) (req : AtomicReq) (flags user_data : ℕ)
    → IsBooted d.props
    → let (d', r) = drm_mode_atomic_commit d drm_virtual_fd (some req) flags user_data in
      (r ≡ ok tt) × IsBooted d'.props
commit-IsBooted d req flags user_data v =
    let (done, after) = commit-props d req flags user_data v in
    let (defaults, size, k1, k2) = assign_all-HasDefaults d.props.objs req v.defaults in
    (
      done,
      rw after (record {
        cached_is = v.cached_is;
        props_size = v.props_size;
        objs_size = omega (arith, size, v.objs_size);
        defaults = defaults;
      }),
    )

-- A commit reaches neither the connector nor the primary plane: their records, and so the framebuffer
-- that drmModeGetPlane reports for the primary plane, are the same after every commit, also one that
-- sets properties of the object with their id 1. Those properties go to the CRTC, whose record with
-- the same id stands first.
pub commit_never_reaches_primary_plane :
    (d : Device) (req : AtomicReq) (flags user_data : ℕ)
    → IsBooted d.props
    → let d' = (drm_mode_atomic_commit d drm_virtual_fd (some req) flags user_data).0 in
      (get_elem? d'.props.objs 1 ≡ get_elem? d.props.objs 1)
      × (get_elem? d'.props.objs 2 ≡ get_elem? d.props.objs 2)
commit_never_reaches_primary_plane d req flags user_data v =
    let (done, after) = commit-props d req flags user_data v in
    let (defaults, size, k1, k2) = assign_all-HasDefaults d.props.objs req v.defaults in
    rw after (k1, k2)

-- The value of property `p` in the first record of object `o`, 0 without one.
unfoldable pub value_in : List ObjProps → (o p : ℕ) → ℕ
value_in os o p = get_obj_prop (found (find? (λ y. y.obj_id == o) os)) p
  where
    found : Option ObjProps → ObjProps
    found none = no_obj
    found (some x) = x

-- The specification of a request: the last assignment to the property of the object, or else the value
-- from before.
unfoldable pub last_value : AtomicReq → (o p before : ℕ) → ℕ
last_value [] o p before = before
last_value (a ∷ as') o p before =
    last_value as' o p (if a.obj_id == o && a.prop_id == p then a.value else before)

value_in-assign_all :
    (os : List ObjProps) (as' : AtomicReq) (o p : ℕ) (x : ObjProps)
    → find? (λ y. y.obj_id == o) os ≡ some x
    → length x.vals + length as' ≤ max_props_per_obj
    → value_in (assign_all os as') o p ≡ last_value as' o p (get_obj_prop x p)
unfolding value_in assign_all last_value
value_in-assign_all os [] o p x h room = rw h
value_in-assign_all os (a ∷ as') o p x h room = elim (Bool-cases (a.obj_id == o)) [
  | inl same ↦
      let x' = set_obj_prop x a.prop_id a.value in
      let h' : find? (λ y. y.obj_id == o) (assign os a) ≡ some x' =
        find?-assign os a o x h ∙ rw same in
      let got = get-set_obj_prop x a.prop_id a.value p (inl (omega (arith, room))) in
      value_in-assign_all (assign os a) as' o p x' h'
        (omega (arith, room, length-set_obj_prop x a.prop_id a.value))
      ∙ rw (got, same)
  | inr other ↦
      let h' : find? (λ y. y.obj_id == o) (assign os a) ≡ some x =
        find?-assign os a o x h ∙ rw other in
      value_in-assign_all (assign os a) as' o p x h' (omega (arith, room)) ∙ rw other
]

-- After a commit, the first record of an object holds for each property the value that the request
-- assigned last, and the value from before where the request assigned none, provided the object has
-- room for as many values as the request has assignments.
pub commit_assigns_last_values :
    (d : Device) (req : AtomicReq) (flags user_data o p : ℕ) (x : ObjProps)
    → IsBooted d.props
    → find? (λ y. y.obj_id == o) d.props.objs ≡ some x
    → length x.vals + length req ≤ max_props_per_obj
    → value_in (drm_mode_atomic_commit d drm_virtual_fd (some req) flags user_data).0.props.objs o p
      ≡ last_value req o p (get_obj_prop x p)
commit_assigns_last_values d req flags user_data o p x v h room =
    rw (commit-props d req flags user_data v).1 (value_in-assign_all d.props.objs req o p x h room)
