-- ===== src/Drm/Atomic/Commits/Store.antt =====
-- The property store under an atomic commit of drm_linux.c.
use wwn_iland.Common.{
  ℕ, ◌%◌, ◌≡◌, ◌≢◌, ◌∙◌, sym, ap, refl, inl, inr, true, false, Option, none, some, List, [], ◌∷◌,
  arith, if◌then◌else◌, ◌==◌, length, length-set, get_elem?, get_or, set, find?, find_index,
  find?-count_zero, find_index-count_zero, get_or-of_get_elem?, find?-find_index, find?-set_found,
  find?-set_other, get_elem?-set_ne, find_index-cases, Bool-cases, ok,
}
use wwn_iland.Drm.Buffers.{word32, drm_virtual_fd}
use wwn_iland.Drm.Props.{ObjProps, PropStore}
use wwn_iland.Drm.Props.Records.{no_obj, set_obj_prop}
use wwn_iland.Drm.Props.Defaults.{IsBooted, HasDefaults, ensure-IsBooted, set-HasDefaults}
use wwn_iland.Drm.Device.{Device}
use wwn_iland.Drm.Atomic.{
  Assignment, AtomicReq, output_fb, assign, apply, apply_all, forward_cursor, finish_flip,
  set_crtc_fb, drm_mode_atomic_commit,
}

-- The assignments of a request, one after the other.
unfoldable pub assign_all : List ObjProps → AtomicReq → List ObjProps
assign_all os [] = os
assign_all os (a ∷ as') = assign_all (assign os a) as'

output_fb-props : (d : Device) (obj_id fb flags : ℕ) → (output_fb d obj_id fb flags).props ≡ d.props
unfolding output_fb
output_fb-props d obj_id fb flags = ground arith

assign-absent :
    (os : List ObjProps) (a : Assignment)
    → find_index (λ o. o.obj_id == a.obj_id) os ≡ none
    → assign os a ≡ os
unfolding assign
assign-absent os a e = rw (e, assign)

apply-props :
    (flags : ℕ) (d : Device) (n : ℕ) (a : Assignment)
    → (apply flags (d, n) a).0.props ≡ record d.props { objs = assign d.props.objs a }
unfolding apply
apply-props flags d n a = elim (find_index-cases (λ o. o.obj_id == a.obj_id) d.props.objs) [
  | inl e ↦
      let same : apply flags (d, n) a ≡ (d, n) = rw (e, apply) in
      rw (same, assign-absent d.props.objs a e)
  | inr (i, x, e, at, p) ↦ elim (Bool-cases (a.prop_id == d.props.cached.fb_id)) [
    | inl fb ↦
        rw (e, apply, fb)
          (output_fb-props (record d { props = record d.props { objs = assign d.props.objs a } })
            a.obj_id (a.value % word32) flags)
    | inr other ↦ rw (e, apply, other)
  ]
]

apply_all-props :
    (flags : ℕ) (d : Device) (n : ℕ) (as' : AtomicReq)
    → (apply_all flags (d, n) as').0.props ≡ record d.props { objs = assign_all d.props.objs as' }
unfolding apply_all assign_all
apply_all-props flags d n [] = refl
apply_all-props flags d n (a ∷ as') =
    let (d', n') = apply flags (d, n) a in
    apply_all-props flags d' n' as'
    ∙ ap (λ (s : PropStore). record s { objs = assign_all s.objs as' }) (apply-props flags d n a)

finish-props :
    (d : Device) (n : ℕ) (cursor_props : Option ℕ) (flags user_data : ℕ)
    → (finish_flip (forward_cursor (set_crtc_fb (d, n)) cursor_props) flags user_data).props
      ≡ d.props
unfolding finish_flip forward_cursor set_crtc_fb
finish-props d n none flags user_data = ground arith
finish-props d n (some i) flags user_data = ground arith

-- The store after a commit on a device whose defaults are made.
pub commit-props :
    (d : Device) (as' : AtomicReq) (flags user_data : ℕ)
    → IsBooted d.props
    → let (d', r) = drm_mode_atomic_commit d drm_virtual_fd (some as') flags user_data in
      (r ≡ ok tt) × (d'.props ≡ record d.props { objs = assign_all d.props.objs as' })
unfolding drm_mode_atomic_commit
commit-props d as' flags user_data v =
    let e = ensure-IsBooted d.props v in
    rw (e, drm_mode_atomic_commit)
      (
        refl,
        finish-props _ (apply_all flags (d, 0) as').1 _ flags user_data
            ∙ apply_all-props flags d 0 as',
      )

obj_id-set_obj_prop :
    (o : ObjProps) (prop_id val : ℕ) → (set_obj_prop o prop_id val).obj_id ≡ o.obj_id
unfolding set_obj_prop
obj_id-set_obj_prop o prop_id val = refl

not_hidden :
    (os : List ObjProps) (obj_id i : ℕ)
    → HasDefaults os
    → find_index (λ o. o.obj_id == obj_id) os ≡ some i
    → (i ≢ 1) × (i ≢ 2)
unfolding find_index
not_hidden (crtc ∷ connector ∷ primary ∷ cursor ∷ rest) obj_id i h e =
    (ground (arith, h, e), ground (arith, h, e))
not_hidden [] obj_id i h e = absurd h
not_hidden (a ∷ []) obj_id i h e = absurd h
not_hidden (a ∷ b ∷ []) obj_id i h e = absurd h
not_hidden (a ∷ b ∷ c ∷ []) obj_id i h e = absurd h

-- Finding the record of object `o` after an assignment.
pub find?-assign :
    (os : List ObjProps) (a : Assignment) (o : ℕ) (x : ObjProps)
    → find? (λ y. y.obj_id == o) os ≡ some x
    → find? (λ y. y.obj_id == o) (assign os a)
      ≡ some (if a.obj_id == o then set_obj_prop x a.prop_id a.value else x)
unfolding assign
find?-assign os a o x h = elim (find_index-cases (λ y. y.obj_id == a.obj_id) os) [
  | inl e ↦ elim (Bool-cases (a.obj_id == o)) [
    | inl same ↦
        let k : a.obj_id ≡ o = ground (arith, same) in
        let gone =
          find?-count_zero (λ y. y.obj_id == o) os
            (find_index-count_zero (λ y. y.obj_id == o) os (rw k at e)) in
        absurd (ground (arith, h, gone))
    | inr other ↦ rw (e, assign, other) h
  ]
  | inr (i, y, e, at, p) ↦
      let old = get_or-of_get_elem? os i y no_obj at in
      elim (Bool-cases (a.obj_id == o)) [
        | inl same ↦
            let k : a.obj_id ≡ o = ground (arith, same) in
            let is_x : some y ≡ some x =
              sym (find?-find_index (λ y. y.obj_id == o) os i y (rw k at e) at) ∙ h in
            let z : y ≡ x = ground (arith, is_x) in
            rw (e, assign, old, same)
              (find?-set_found (λ y. y.obj_id == o) os i (set_obj_prop y a.prop_id a.value)
                  (rw k at e) (same_id y i e k p)
                ∙ ap (λ w. some (set_obj_prop w a.prop_id a.value)) z)
        | inr other ↦
            rw (e, assign, old, other)
              (find?-set_other (λ y. y.obj_id == o) os i y (set_obj_prop y a.prop_id a.value) at
                  (ground (arith, p, other)) (other_id y p other)
                ∙ h)
      ]
]
  where
    same_id :
        (y : ObjProps) (i : ℕ)
        → find_index (λ w. w.obj_id == a.obj_id) os ≡ some i
        → a.obj_id ≡ o
        → (y.obj_id == a.obj_id) ≡ true
        → ((set_obj_prop y a.prop_id a.value).obj_id == o) ≡ true
    same_id y i e k p = ground (arith, p, k, obj_id-set_obj_prop y a.prop_id a.value)

    other_id :
        (y : ObjProps)
        → (y.obj_id == a.obj_id) ≡ true
        → (a.obj_id == o) ≡ false
        → ((set_obj_prop y a.prop_id a.value).obj_id == o) ≡ false
    other_id y p other = ground (arith, p, other, obj_id-set_obj_prop y a.prop_id a.value)

-- No assignment reaches the records with index 1 and 2: the connector and the primary plane have the
-- same id as the CRTC in front of them.
assign_keeps_hidden :
    (os : List ObjProps) (a : Assignment)
    → HasDefaults os
    → (get_elem? (assign os a) 1 ≡ get_elem? os 1) × (get_elem? (assign os a) 2 ≡ get_elem? os 2)
unfolding assign
assign_keeps_hidden os a h = elim (find_index-cases (λ o. o.obj_id == a.obj_id) os) [
  | inl e ↦ rw (e, assign) (refl, refl)
  | inr (i, y, e, at, p) ↦
      let (i1, i2) = not_hidden os a.obj_id i h e in
      let new = set_obj_prop (get_or os i no_obj) a.prop_id a.value in
      rw (e, assign) (get_elem?-set_ne os i 1 new i1, get_elem?-set_ne os i 2 new i2)
]

assign-HasDefaults :
    (os : List ObjProps) (a : Assignment)
    → HasDefaults os
    → HasDefaults (assign os a) × (length (assign os a) ≡ length os)
unfolding assign
assign-HasDefaults os a h = elim (find_index-cases (λ o. o.obj_id == a.obj_id) os) [
  | inl e ↦ let same : assign os a ≡ os = assign-absent os a e in rw same (h, refl)
  | inr (i, y, e, at, p) ↦
      let new = set_obj_prop (get_or os i no_obj) a.prop_id a.value in
      let same : assign os a ≡ set os i new = rw (e, assign) in
      rw same (set-HasDefaults os i a.prop_id a.value h, length-set os i new)
]

pub assign_all-HasDefaults :
    (os : List ObjProps) (as' : AtomicReq)
    → HasDefaults os
    → HasDefaults (assign_all os as')
      × (length (assign_all os as') ≡ length os)
      × (get_elem? (assign_all os as') 1 ≡ get_elem? os 1)
      × (get_elem? (assign_all os as') 2 ≡ get_elem? os 2)
unfolding assign_all
assign_all-HasDefaults os [] h = (h, refl, refl, refl)
assign_all-HasDefaults os (a ∷ as') h =
    let (h', size) = assign-HasDefaults os a h in
    let (k1, k2) = assign_keeps_hidden os a h in
    let (hs, sizes, r1, r2) = assign_all-HasDefaults (assign os a) as' h' in
    (hs, sizes ∙ size, r1 ∙ k1, r2 ∙ k2)
