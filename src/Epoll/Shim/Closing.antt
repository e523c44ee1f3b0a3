-- ===== src/Epoll/Shim/Closing.antt =====
-- epoll_shim_close of epoll_shim_ctx.c: what it does with the references.
use wwn_iland.Common.{ℕ, ◌<◌, ◌≡◌, Option, none, some, ◌∷◌, ◌==◌, bit, set, Outcome, ok, fail}
use wwn_iland.Epoll.Shim.{Contexts, IsCounting, EpollShimCtx}
use wwn_iland.Epoll.Shim.Counts.{IsBalanced}
use wwn_iland.Epoll.Shim.Forgetting.{IsForgottenByAll}

-- An entry of the table is one of the references that are counted.
abbrev IsNamed : (ℕ → ℕ) → Option ℕ → Type 0
IsNamed out none = Unit {0}
IsNamed out (some a) = 0 < out a

-- The reference of an entry that was in the table.
abbrev entry : Option ℕ → ℕ → ℕ
entry none b = 0
entry (some a) b = bit (a == b)

module _ {C : Type 0} (k : Contexts C) (law : IsCounting k) where
  abbrev pub IsAnswer : Outcome (Unit {0}) → Type 0
  IsAnswer (ok x) = Unit {0}
  IsAnswer (fail e) = Unit {0}
  IsAnswer r = ⊥

  pub record Closes (out : ℕ → ℕ) (s : EpollShimCtx C) (fd : ℕ)
      (r : EpollShimCtx C × Outcome (Unit {0})) : Type 0 where
    pub balanced : IsBalanced k out r.0
    pub open_files : r.0.open_files ≡ set s.open_files fd none
    pub closed : r.0.closed ≡ fd ∷ s.closed
    pub answer : IsAnswer r.1
    pub forgotten : IsForgottenByAll k law fd r.0
