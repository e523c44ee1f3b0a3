-- ===== src/Drm/Buffers/Gbm.antt =====
-- The GBM handle table of drm_linux.c behaves as a map from handles to surfaces.
use wwn_iland.Common.{
  find_index-cases, ℕ, ◌+◌, ◌≤◌, ◌<◌, ◌≡◌, ◌≢◌, ◌⊎◌, inl, inr, Bool, ◌&&◌, bit, some, List, arith,
  ◌==◌, if◌then◌else◌, get_elem?, get_last, set, length, count, find?, count-le, Bool-cases,
  Option-cases, find?-unique, find?-count, find?-count_zero, find?-eq-none, find?-added,
  find?-replaced, find_index-count_zero, count-swap_remove, find?-test,
}
use mathlib.Core.List.{drop_last}
use wwn_iland.Drm.Buffers.{
  Buffers, GbmBufEntry, no_gbm_buf, max_gbm_bufs, lookup_gbm_buffer, gbm_surface,
  drm_register_gbm_buffer, drm_unregister_gbm_buffer,
}
use wwn_iland.Drm.Buffers.Handles.{HasHandles}

abbrev surface_at : ℕ → List GbmBufEntry → ℕ
surface_at j gs = gbm_surface (find? (λ g. g.handle == j) gs)

surface_at-count :
    (j s : ℕ) (gs : List GbmBufEntry)
    → count (λ g. g.handle == j) gs ≤ 1
    → 0 < count (λ g. g.handle == j && g.surface == s) gs
    → surface_at j gs ≡ s
surface_at-count j s gs u c = elim (Option-cases (find? (λ g. g.handle == j) gs)) [
  | inl e ↦ absurd (
      omega (
        arith,
        c,
        find?-eq-none (λ g. g.handle == j) gs e,
        count-le (λ g. g.handle == j && g.surface == s) (λ g. g.handle == j) gs (λ x. ground arith),
      ))
  | inr (g, e) ↦
      let p =
        find?-unique (λ g. g.handle == j && g.surface == s) (λ g. g.handle == j) gs g
          (λ x. ground arith) u c e in
      rw e (ground (arith, p))
]

-- What is left once the entry at `i` is removed, seen through the lookups.
surface_at-removed :
    (gs : List GbmBufEntry) (i : ℕ) (e : GbmBufEntry) (j : ℕ)
    → get_elem? gs i ≡ some e
    → count (λ g. g.handle == j) gs ≤ 1
    → surface_at j (drop_last (set gs i (get_last gs no_gbm_buf)))
      ≡ (if e.handle == j then 0 else surface_at j gs)
surface_at-removed gs i e j at u = elim (Bool-cases (e.handle == j)) [
  | inl same ↦
      let gone : count (λ g. g.handle == j) (drop_last (set gs i (get_last gs no_gbm_buf))) ≡ 0 =
        ground (arith, same, count_of (λ g. g.handle == j)) in
      rw (same, find?-count_zero (λ g. g.handle == j) _ gone)
  | inr other ↦ elim (Option-cases (find? (λ g. g.handle == j) gs)) [
    | inl absent ↦
        let gone : count (λ g. g.handle == j) (drop_last (set gs i (get_last gs no_gbm_buf))) ≡ 0 =
          ground (
            arith,
            other,
            count_of (λ g. g.handle == j),
            find?-eq-none (λ g. g.handle == j) gs absent,
          ) in
        rw (other, absent, find?-count_zero (λ g. g.handle == j) _ gone)
    | inr (g, found) ↦
        rw (other, found)
          (surface_at-count j g.surface _ (ground (arith, other, count_of (λ g. g.handle == j))) (
            ground (
              arith,
              other,
              count_of (λ x. x.handle == j && x.surface == g.surface),
              find?-count (λ g. g.handle == j) (λ x. x.handle == j && x.surface == g.surface) gs g
                  found (ground (arith, find?-test (λ g. g.handle == j) gs g found)),
            )))
  ]
]
  where
    count_of :
        (t : GbmBufEntry → Bool)
        → count t (drop_last (set gs i (get_last gs no_gbm_buf))) + bit (t e) ≡ count t gs
    count_of t = count-swap_remove t gs i e no_gbm_buf at

-- Unregistering a handle removes that handle's surface, and no other's, from the table, although the
-- last entry moves into the gap.
pub lookup-unregister :
    (b : Buffers) (handle j : ℕ)
    → HasHandles b
    → lookup_gbm_buffer (drm_unregister_gbm_buffer b handle) j
      ≡ (if handle == j then 0 else lookup_gbm_buffer b j)
unfolding lookup_gbm_buffer drm_unregister_gbm_buffer
lookup-unregister b handle j v = elim (find_index-cases (λ g. g.handle == handle) b.gbm_bufs) [
  | inl absent ↦
      rw (absent, drm_unregister_gbm_buffer)
        (elim (Bool-cases (handle == j)) [
          | inl same ↦
              let e : j ≡ handle = ground (arith, same) in
              rw (
                same,
                e,
                find?-count_zero (λ g. g.handle == handle) b.gbm_bufs
                    (find_index-count_zero (λ g. g.handle == handle) b.gbm_bufs absent),
              )
          | inr other ↦ rw other
        ])
  | inr (i, e, found, at, p) ↦
      let h : handle ≡ e.handle = ground (arith, p) in
      rw (found, drm_unregister_gbm_buffer, h)
        (surface_at-removed b.gbm_bufs i e j at (v.gbm_unique j))
]

-- Registering a handle that is not 0 for a surface that is not null sets that handle's surface, and
-- no other's, unless the handle is new and the table is full.
pub lookup-register :
    (b : Buffers) (handle surface j : ℕ)
    → handle ≢ 0
    → surface ≢ 0
    → (length b.gbm_bufs < max_gbm_bufs) ⊎ (lookup_gbm_buffer b handle ≢ 0)
    → lookup_gbm_buffer (drm_register_gbm_buffer b handle surface) j
      ≡ (if handle == j then surface else lookup_gbm_buffer b j)
unfolding lookup_gbm_buffer drm_register_gbm_buffer
lookup-register b handle surface j h0 s0 room =
    elim (find_index-cases (λ g. g.handle == handle) b.gbm_bufs) [
      | inl absent ↦
          let c0 = find_index-count_zero (λ g. g.handle == handle) b.gbm_bufs absent in
          let nothing = find?-count_zero (λ g. g.handle == handle) b.gbm_bufs c0 in
          rw absent (
            ground (
              arith,
              nothing,
              find?-added (λ g. g.handle) b.gbm_bufs (record { handle = handle; surface = surface })
                  j c0,
            ))
      | inr (i, e, found, at, p) ↦ rw found (
          ground (
            arith,
            find?-replaced (λ g. g.handle) b.gbm_bufs
                (record { handle = handle; surface = surface }) j i e found at p,
          ))
    ]
