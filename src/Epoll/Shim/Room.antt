-- ===== src/Epoll/Shim/Room.antt =====
-- The growth of the table of open files in epoll_shim_ctx_create_desc.
use wwn_iland.Common.{
  ℕ, zero, suc, ◌-◌, ◌*◌, ◌%◌, ◌^◌, ◌<◌, ◌≤◌, ◌≡◌, ◌≢◌, ◌⊎◌, refl, ap, inl, inr, true, false,
  Option, none, some, List, [], ◌∷◌, ◌++◌, arith, ltb, leb, ◌==◌, Bool-cases, length, get_or,
  replicate, count-append, count-replicate, length-append, ok, fail, sys_error,
}
use wwn_iland.Epoll.Shim.{Contexts, EpollShimCtx}
use wwn_iland.Epoll.Shim.OpenFiles.{space_for, Resources, make_room}
use wwn_iland.Epoll.Shim.Counts.{names, IsBalanced}

abbrev doubled : ℕ → ℕ → ℕ
doubled zero s = s
doubled (suc n) s = doubled n (s * 2)

doubled-le : (n s : ℕ) → s ≤ doubled n s
doubled-le zero s = omega arith
doubled-le (suc n) s = omega (arith, doubled-le n (s * 2))

-- What the loop returns: a size that is large enough, and no more than twice what is needed.
abbrev pub Fits : ℕ → ℕ → Option ℕ → Type 0
Fits start kq none = ⊥
Fits start kq (some r) = (kq < r) × ((r ≡ start) ⊎ (r ≤ kq * 2))

Fits-double : (s kq : ℕ) (o : Option ℕ) → s ≤ kq → Fits (s * 2) kq o → Fits s kq o
Fits-double s kq none h f = f
Fits-double s kq (some r) h f = (f.0, elim f.1 [ inl e ↦ inr (omega arith) | inr l ↦ inr l ])

-- `j` rounds are enough, and no more fuel than that is needed.
space_for-Fits :
    (f j s kq : ℕ)
    → j ≤ f
    → doubled j s < 2 ^ 32
    → kq < doubled j s
    → Fits s kq (space_for (suc f) s kq)
unfolding space_for
space_for-Fits f zero s kq h b l = let z : leb s kq ≡ false = ground arith in rw z (l, inl refl)
space_for-Fits zero (suc j) s kq h b l = absurd (omega arith)
space_for-Fits (suc f) (suc j) s kq h b l = elim (Bool-cases (leb s kq)) [
  | inr z ↦ rw z (ground (arith, z), inl refl)
  | inl z ↦
      let w : s * 2 % 2 ^ 32 ≡ s * 2 = omega (arith, doubled-le j (s * 2)) in
      rw z (
        Fits-double s kq (space_for (suc f) (s * 2 % 2 ^ 32) kq) (ground (arith, z))
          (rw w (space_for-Fits f j (s * 2) kq (omega arith) b l)))
]

-- The loop that looks for a size ends, without a wrap-around, for every descriptor that an `int` can
-- be: the size is large enough for it, and it is 32 or at most twice the descriptor.
pub space_for_total : (kq : ℕ) → kq < 2 ^ 31 → Fits 32 kq (space_for 32 32 kq)
space_for_total kq h = space_for-Fits 31 26 32 kq (omega arith) (omega arith) (omega arith)

Fits-some :
    (start kq : ℕ) (o : Option ℕ)
    → Fits start kq o
    → (r : ℕ) × (o ≡ some r) × (kq < r) × ((r ≡ start) ⊎ (r ≤ kq * 2))
Fits-some start kq none f = absurd f
Fits-some start kq (some r) f = (r, refl, f.0, f.1)

length-replicate {ℓ} : {A : Type ℓ} (n : ℕ) (x : A) → length (replicate n x) ≡ n
length-replicate zero x = refl
length-replicate (suc n) x = ap suc (length-replicate n x)

get_or-append_none {ℓ} :
    {A : Type ℓ} (xs : List (Option A)) (n i : ℕ)
    → get_or (xs ++ replicate n none) i none ≡ get_or xs i none
get_or-append_none [] zero i = refl
get_or-append_none [] (suc n) zero = refl
get_or-append_none [] (suc n) (suc i) = get_or-append_none [] n i
get_or-append_none (x ∷ xs) n zero = refl
get_or-append_none (x ∷ xs) n (suc i) = get_or-append_none xs n i

module _ {C : Type 0} (k : Contexts C) where
  -- A table with a place for `kq`, in which everything is where it was.
  pub record Roomy (out : ℕ → ℕ) (s : EpollShimCtx C) (kq : ℕ) (s' : EpollShimCtx C) : Type 0 where
    pub room : kq < length s'.open_files
    pub entries : (i : ℕ) → get_or s'.open_files i none ≡ get_or s.open_files i none
    pub balanced : IsBalanced k out s'
    pub writing : s'.writing ≡ s.writing
    pub closed : s'.closed ≡ s.closed

  -- The table gets a place for the new descriptor, with every entry where it was and the references as
  -- they were, unless realloc fails.
  pub make_room-Roomy :
      (out : ℕ → ℕ) (r : Resources) (s : EpollShimCtx C) (kq : ℕ)
      → IsBalanced k out s
      → kq < 2 ^ 31
      → ((s' : EpollShimCtx C) × (make_room r s kq ≡ ok s') × Roomy out s kq s')
        ⊎ ((r.realloc_error ≢ 0)
            × (length s.open_files ≤ kq)
            × (make_room r s kq ≡ fail (sys_error r.realloc_error)))
  unfolding make_room
  make_room-Roomy out r s kq v h = elim (Bool-cases (ltb kq (length s.open_files))) [
    | inl in_table ↦ inl (
      s,
      rw in_table refl,
      record {
        room = ground (arith, in_table);
        entries = λ i. refl;
        balanced = v;
        writing = refl;
        closed = refl;
      },
    )
    | inr beyond ↦
        let (space, e, l, b) = Fits-some 32 kq (space_for 32 32 kq) (space_for_total kq h) in
        let w : ltb (space * 8) (2 ^ 64) ≡ true = ground arith in
        elim (Bool-cases (r.realloc_error == 0)) [
          | inr z ↦ inr (
            ground (arith, z),
            ground (arith, beyond),
            rw (beyond, make_room) (rw (e, make_room) (rw (w, z) refl)),
          )
          | inl z ↦ inl (
            record s { open_files = s.open_files ++ replicate (space - length s.open_files) none },
            rw (beyond, make_room) (rw (e, make_room) (rw (w, z) refl)),
            record {
              room = omega (
                arith,
                length-append s.open_files (replicate (space - length s.open_files) none),
                length-replicate {A = Option ℕ} (space - length s.open_files) none,
              );
              entries = get_or-append_none s.open_files (space - length s.open_files);
              balanced = record {
                balance = λ a. omega (
                  arith,
                  v.balance a,
                  count-append (names a) s.open_files
                      (replicate (space - length s.open_files) none),
                  count-replicate (names a) (space - length s.open_files) none refl,
                );
                alive = v.alive;
              };
              writing = refl;
              closed = refl;
            },
          )
        ]
  ]
