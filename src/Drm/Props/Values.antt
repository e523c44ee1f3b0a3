-- ===== src/Drm/Props/Values.antt =====
-- The property values of one object in drm_linux.c behave as a map of at most 16 entries.
use wwn_iland.Common.{
  ℕ, ◌<◌, ◌≤◌, ◌+◌, ◌≡◌, ◌⊎◌, inl, inr, some, List, [], ◌∷◌, arith, ◌==◌, if◌then◌else◌, length,
  count, find?, find?-added, find?-replaced, find_index-count_zero, find_index-cases,
  get_elem?-count, ap, length-set, length-append,
}
use wwn_iland.Drm.Props.{ObjProps, max_props_per_obj}
use wwn_iland.Drm.Props.Records.{set_vals, set_obj_prop, get_obj_prop}

-- The object has a value for the property, or has room for one.
abbrev pub Takes : ObjProps → ℕ → Type 0
Takes o prop_id =
    (length o.vals < max_props_per_obj) ⊎ (0 < count (λ (p : ℕ × ℕ). p.0 == prop_id) o.vals)

find?-set_vals :
    (vs : List (ℕ × ℕ)) (prop_id val j : ℕ)
    → (length vs < max_props_per_obj) ⊎ (0 < count (λ (p : ℕ × ℕ). p.0 == prop_id) vs)
    → find? (λ (p : ℕ × ℕ). p.0 == j) (set_vals vs prop_id val)
      ≡ (if prop_id == j then some (prop_id, val) else find? (λ (p : ℕ × ℕ). p.0 == j) vs)
unfolding set_vals
find?-set_vals vs prop_id val j room = elim (find_index-cases (λ (p : ℕ × ℕ). p.0 == prop_id) vs) [
  | inl absent ↦
      let c0 = find_index-count_zero (λ (p : ℕ × ℕ). p.0 == prop_id) vs absent in
      rw (absent, set_vals)
        (ground (arith, c0, find?-added (λ (p : ℕ × ℕ). p.0) vs (prop_id, val) j c0))
  | inr (i, e, found, at, p) ↦
      rw (found, set_vals) (find?-replaced (λ (p : ℕ × ℕ). p.0) vs (prop_id, val) j i e found at p)
]

set_vals-full :
    (vs : List (ℕ × ℕ)) (prop_id val : ℕ)
    → ¬ ((length vs < max_props_per_obj) ⊎ (0 < count (λ (p : ℕ × ℕ). p.0 == prop_id) vs))
    → set_vals vs prop_id val ≡ vs
unfolding set_vals
set_vals-full vs prop_id val full = elim (find_index-cases (λ (p : ℕ × ℕ). p.0 == prop_id) vs) [
  | inl absent ↦ rw (absent, set_vals) (ground (arith, full))
  | inr (i, e, found, at, p) ↦
      absurd (full (inr (get_elem?-count (λ (p : ℕ × ℕ). p.0 == prop_id) vs i e at p)))
]

-- Setting a property sets its value and no other's, if the object has a value for it or fewer than 16
-- values.
pub get-set_obj_prop :
    (o : ObjProps) (prop_id val j : ℕ)
    → Takes o prop_id
    → get_obj_prop (set_obj_prop o prop_id val) j ≡ (if prop_id == j then val else get_obj_prop o j)
unfolding get_obj_prop set_obj_prop
get-set_obj_prop o prop_id val j room = rw (find?-set_vals o.vals prop_id val j room) (ground arith)

-- An object with 16 values drops a write to a property that it has no value for, without a report.
pub set_obj_prop-full :
    (o : ObjProps) (prop_id val : ℕ) → ¬ Takes o prop_id → set_obj_prop o prop_id val ≡ o
unfolding set_obj_prop
set_obj_prop-full o prop_id val full =
    ap (λ vs. record o { vals = vs }) (set_vals-full o.vals prop_id val full)

length-set_vals :
    (vs : List (ℕ × ℕ)) (prop_id val : ℕ)
    → (length vs ≤ length (set_vals vs prop_id val))
      × (length (set_vals vs prop_id val) ≤ length vs + 1)
      × (length vs ≤ max_props_per_obj → length (set_vals vs prop_id val) ≤ max_props_per_obj)
unfolding set_vals
length-set_vals vs prop_id val = elim (find_index-cases (λ (p : ℕ × ℕ). p.0 == prop_id) vs) [
  | inl absent ↦ rw (absent, set_vals) (ground (arith, length-append vs ((prop_id, val) ∷ [])))
  | inr (i, e, found, at, p) ↦ rw (found, set_vals) (ground (arith, length-set vs i (prop_id, val)))
]

-- A write never removes a value and adds at most one, and an object never comes to hold
-- more than 16.
pub length-set_obj_prop :
    (o : ObjProps) (prop_id val : ℕ)
    → (length o.vals ≤ length (set_obj_prop o prop_id val).vals)
      × (length (set_obj_prop o prop_id val).vals ≤ length o.vals + 1)
      × (length o.vals ≤ max_props_per_obj
          → length (set_obj_prop o prop_id val).vals ≤ max_props_per_obj)
unfolding set_obj_prop
length-set_obj_prop o prop_id val = length-set_vals o.vals prop_id val
