-- ===== src/Drm/Atomic/Commits/Flags.antt =====
-- The flags of an atomic commit of drm_linux.c.
use wwn_iland.Common.{
  ℕ, ◌%◌, ◌≡◌, ◌∙◌, ap, sym, refl, inl, inr, Option, none, some, [], ◌∷◌, arith, if◌then◌else◌, ltb,
  ◌==◌, find_index, find_index-cases, Bool-cases, Option-cases, Outcome, ok, fault,
}
use wwn_iland.Drm.Buffers.{Buffers, word32, drm_virtual_fd}
use wwn_iland.Drm.Buffers.Framebuffers.{fb_id_to_surface}
use wwn_iland.Drm.Props.{PropStore}
use wwn_iland.Drm.Props.Records.{ensure_obj_properties}
use wwn_iland.Drm.Device.{Device}
use wwn_iland.Drm.Flip.{signal_flip}
use wwn_iland.Drm.Atomic.{
  Assignment, AtomicReq, output_fb, assign, apply, apply_all, set_crtc_fb, move_cursor,
  forward_cursor, finish_flip, drm_mode_atomic_commit,
}

output_fb-crtc :
    (d : Device) (o fb flags : ℕ)
    → ((output_fb d o fb flags).props ≡ d.props)
      × ((output_fb d o fb flags).bufs ≡ d.bufs)
      × ((output_fb d o fb flags).crtc_fb_id ≡ (
          if fb_id_to_surface d.bufs fb == 0
          then d.crtc_fb_id
          else if o == 2
          then d.crtc_fb_id
          else fb))
unfolding output_fb
output_fb-crtc d o fb flags = (ground arith, ground arith, ground arith)

-- The part of a device and its `new_fb_id` that decides the framebuffer of the CRTC.
unfoldable view : Device × ℕ → PropStore × Buffers × ℕ × ℕ
view (d, n) = (d.props, d.bufs, d.crtc_fb_id, n)

-- What one assignment does to that part.
unfoldable apply_view : PropStore × Buffers × ℕ × ℕ → Assignment → PropStore × Buffers × ℕ × ℕ
apply_view (s, b, c, n) a = elim (find_index (λ o. o.obj_id == a.obj_id) s.objs) [
  | none ↦ (s, b, c, n)
  | some i ↦
      if a.prop_id == s.cached.fb_id
      then (
        record s { objs = assign s.objs a },
        b,
        if fb_id_to_surface b (a.value % word32) == 0
            then c
            else if a.obj_id == 2
            then c
            else a.value % word32,
        if a.obj_id == 2 then n else a.value % word32,
      )
      else (record s { objs = assign s.objs a }, b, c, n)
]

view-apply :
    (flags : ℕ) (d : Device) (n : ℕ) (a : Assignment)
    → view (apply flags (d, n) a) ≡ apply_view (view (d, n)) a
unfolding view apply_view apply find_index
view-apply flags d n a = elim (find_index-cases (λ o. o.obj_id == a.obj_id) d.props.objs) [
  | inl absent ↦ rw (absent, apply)
  | inr (i, x, found, at, same) ↦ elim (Bool-cases (a.prop_id == d.props.cached.fb_id)) [
    | inl fb ↦
        let d' = record d { props = record d.props { objs = assign d.props.objs a } } in
        let (p, b, c) = output_fb-crtc d' a.obj_id (a.value % word32) flags in
        rw (found, apply, fb, p, b, c)
    | inr other ↦ rw (found, apply, other)
  ]
]

apply_view_all : PropStore × Buffers × ℕ × ℕ → AtomicReq → PropStore × Buffers × ℕ × ℕ
apply_view_all v [] = v
apply_view_all v (a ∷ as') = apply_view_all (apply_view v a) as'

view-apply_all :
    (flags : ℕ) (s : Device × ℕ) (as' : AtomicReq)
    → view (apply_all flags s as') ≡ apply_view_all (view s) as'
unfolding apply_all apply_view_all
view-apply_all flags s [] = refl
view-apply_all flags (d, n) (a ∷ as') =
    view-apply_all flags (apply flags (d, n) a) as'
    ∙ ap (λ v. apply_view_all v as') (view-apply flags d n a)

-- The part of a device that a client of a commit can read back.
unfoldable read_back : Device → PropStore × Buffers × ℕ
read_back d = (d.props, d.bufs, d.crtc_fb_id)

read_back-finish :
    (d : Device) (i : Option ℕ) (flags user_data : ℕ)
    → read_back (finish_flip (forward_cursor d i) flags user_data) ≡ read_back d
unfolding read_back finish_flip forward_cursor move_cursor signal_flip
read_back-finish d none flags user_data = ground arith
read_back-finish d (some i) flags user_data = ground arith

-- What `set_crtc_fb` leaves of the viewed part.
unfoldable settle : PropStore × Buffers × ℕ × ℕ → PropStore × Buffers × ℕ
settle (s, b, c, n) = (s, b, if ltb 0 n then n else c)

settle-view : (s : Device × ℕ) → read_back (set_crtc_fb s) ≡ settle (view s)
unfolding read_back settle view set_crtc_fb
settle-view (d, n) = ground arith

-- What can be read back after a commit, without the flags.
commit-read_back :
    (d : Device) (req : AtomicReq) (flags user_data : ℕ) (s : PropStore)
    → ensure_obj_properties d.props ≡ some s
    → let (d', r) = drm_mode_atomic_commit d drm_virtual_fd (some req) flags user_data in
      (read_back d' ≡ settle (apply_view_all (view (record d { props = s }, 0)) req)) × (r ≡ ok tt)
unfolding drm_mode_atomic_commit
commit-read_back d req flags user_data s e =
    let start : Device × ℕ = (record d { props = s }, 0) in
    rw (e, drm_mode_atomic_commit)
      (
        read_back-finish (set_crtc_fb (apply_all flags start req)) _ flags user_data
            ∙ settle-view (apply_all flags start req)
            ∙ ap settle (view-apply_all flags start req),
        refl,
      )

-- Where the default objects cannot be made, a commit does nothing.
commit-fault :
    (d : Device) (req : AtomicReq) (flags user_data : ℕ)
    → ensure_obj_properties d.props ≡ none
    → drm_mode_atomic_commit d drm_virtual_fd (some req) flags user_data ≡ (d, fault)
unfolding drm_mode_atomic_commit
commit-fault d req flags user_data e = rw (e, drm_mode_atomic_commit) refl

-- A commit's flags and user data, DRM_MODE_ATOMIC_TEST_ONLY among them, have no part in the property
-- store, the buffer tables and the framebuffer on the CRTC that it leaves, nor in its result, from any
-- state of the device: two commits of the same request agree in these, so that a test-only commit is
-- applied like any other.
pub commit_ignores_flags :
    (d : Device) (req : AtomicReq) (flags user_data flags' user_data' : ℕ)
    → let (d1, r1) = drm_mode_atomic_commit d drm_virtual_fd (some req) flags user_data in
      let (d2, r2) = drm_mode_atomic_commit d drm_virtual_fd (some req) flags' user_data' in
      (d1.props ≡ d2.props) × (d1.bufs ≡ d2.bufs) × (d1.crtc_fb_id ≡ d2.crtc_fb_id) × (r1 ≡ r2)
unfolding read_back
commit_ignores_flags d req flags user_data flags' user_data' =
    elim (Option-cases (ensure_obj_properties d.props)) [
      | inl e ↦
          let same =
            commit-fault d req flags user_data e ∙ sym (commit-fault d req flags' user_data' e) in
          (
            ap (λ (p : Device × Outcome (Unit {0})). p.0.props) same,
            ap (λ (p : Device × Outcome (Unit {0})). p.0.bufs) same,
            ap (λ (p : Device × Outcome (Unit {0})). p.0.crtc_fb_id) same,
            ap (λ (p : Device × Outcome (Unit {0})). p.1) same,
          )
      | inr (s, e) ↦
          let (e1, r) = commit-read_back d req flags user_data s e in
          let (e2, r') = commit-read_back d req flags' user_data' s e in
          let same = e1 ∙ sym e2 in
          (
            ap (λ (x : PropStore × Buffers × ℕ). x.0) same,
            ap (λ (x : PropStore × Buffers × ℕ). x.1) same,
            ap (λ (x : PropStore × Buffers × ℕ). x.2) same,
            r ∙ sym r',
          )
    ]
