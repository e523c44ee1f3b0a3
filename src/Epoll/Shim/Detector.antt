-- ===== src/Epoll/Shim/Detector.antt =====
-- The threads of epoll_shim_ctx.c that watch for steps of the realtime clock: each ends when the
-- generation it was started for is over.
use mathlib.Core.Path.{subst}
use wwn_iland.Common.{
  ℕ, ◌+◌, ◌-◌, ◌%◌, ◌^◌, ◌<◌, ◌≤◌, ◌≡◌, refl, ap, inl, inr, Bool, true, false, Option, none, some,
  List, [], ◌∷◌, arith, leb, ◌==◌, if◌then◌else◌, Bool-cases, get_elem?, set, count, count-set, All,
  All-set, All-mono, All-count, Outcome, ok, aborted,
}

-- `threads` holds the generation of each thread that was started, `none` once it has returned; `lost`
-- is whether the thread of this generation could not be started or has bailed out.
pub record StepDetector : Type 0 where
  pub nr_fds : ℕ
  pub generation : ℕ
  pub threads : List (Option ℕ)
  pub lost : Bool

-- The argument `change`, by its sign.
pub data Change : Type 0 where
  fewer more : ℕ → Change

-- epoll_shim_ctx_start_realtime_step_detection, for whether it succeeds.
unfoldable pub start_detection : Bool → StepDetector → StepDetector
start_detection true s = record s { threads = some s.generation ∷ s.threads; lost = false }
start_detection false s = record s { lost = true }

-- epoll_shim_ctx_update_realtime_change_monitoring
unfoldable pub update_monitoring : Change → Bool → StepDetector → StepDetector × Outcome (Unit {0})
unfolding start_detection
update_monitoring (fewer n) starts s =
    if n == 0
    then (s, ok tt)
    else if leb n s.nr_fds
    then (
      if s.nr_fds - n == 0
          then record s { nr_fds = 0; generation = (s.generation + 1) % 2 ^ 64; lost = false }
          else record s { nr_fds = s.nr_fds - n },
      ok tt,
    )
    else (s, aborted)
update_monitoring (more n) starts s = if n == 0 then (s, ok tt) else (
  if s.nr_fds == 0
      then start_detection starts (record s { nr_fds = (s.nr_fds + n) % 2 ^ 64 })
      else record s { nr_fds = (s.nr_fds + n) % 2 ^ 64 },
  ok tt,
)

-- A round of realtime_step_detection: a thread of another generation returns, and any may bail out
-- where the clocks cannot be read.
unfoldable pub check_generation : StepDetector → ℕ → ℕ → StepDetector
check_generation s i g =
    if g == s.generation then s else record s { threads = set s.threads i none }

unfoldable pub bail_out : StepDetector → ℕ → ℕ → StepDetector
bail_out s i g = record s {
  threads = set s.threads i none;
  lost = if g == s.generation then true else s.lost;
}

abbrev pub NoWrap : Change → StepDetector → Type 0
NoWrap (fewer n) s = s.generation + 1 < 2 ^ 64
NoWrap (more n) s = s.nr_fds + n < 2 ^ 64

-- The counters do not wrap: there are fewer than 2 ^ 64 descriptors and generations.
pub data Reachable : StepDetector → Type 0 where
  start : Reachable (record { nr_fds = 0; generation = 0; threads = []; lost = false })
  updates :
      (s s' : StepDetector) (change : Change) (starts : Bool)
      → NoWrap change s
      → update_monitoring change starts s ≡ (s', ok tt)
      → Reachable s
      → Reachable s'
  checks :
      (s : StepDetector) (i g : ℕ)
      → get_elem? s.threads i ≡ some (some g)
      → Reachable s
      → Reachable (check_generation s i g)
  bails :
      (s : StepDetector) (i g : ℕ)
      → get_elem? s.threads i ≡ some (some g)
      → Reachable s
      → Reachable (bail_out s i g)

abbrev pub runs_for : ℕ → Option ℕ → Bool
runs_for g none = false
runs_for g (some h) = h == g

abbrev IsUpTo : ℕ → Option ℕ → Type 0
IsUpTo g none = Unit {0}
IsUpTo g (some h) = h ≤ g

abbrev pub expected : StepDetector → ℕ
expected s = if s.nr_fds == 0 then 0 else if s.lost then 0 else 1

record IsWatched (s : StepDetector) : Type 0 where
  one : count (runs_for s.generation) s.threads ≡ expected s
  past : All (IsUpTo s.generation) s.threads

IsUpTo-next : (g : ℕ) (t : Option ℕ) → IsUpTo g t → IsUpTo (g + 1) t
IsUpTo-next g none h = tt
IsUpTo-next g (some x) h = omega arith

not_yet : (g : ℕ) (t : Option ℕ) → IsUpTo g t → runs_for (g + 1) t ≡ false
not_yet g none h = refl
not_yet g (some x) h = ground arith

-- The last descriptor goes, and with it the generation.
next-IsWatched :
    (s : StepDetector)
    → IsWatched s
    → s.generation + 1 < 2 ^ 64
    → IsWatched (record s { nr_fds = 0; generation = (s.generation + 1) % 2 ^ 64; lost = false })
next-IsWatched s v b =
    let e : (s.generation + 1) % 2 ^ 64 ≡ s.generation + 1 = omega arith in
    rw e (record {
      one =
          All-count (runs_for (s.generation + 1)) (IsUpTo s.generation) s.threads
            (not_yet s.generation) v.past;
      past =
          All-mono (IsUpTo s.generation) (IsUpTo (s.generation + 1)) s.threads
            (IsUpTo-next s.generation) v.past;
    })

start-IsWatched :
    (starts : Bool) (s : StepDetector) (n : ℕ)
    → IsWatched s
    → s.nr_fds ≡ 0
    → 0 < n
    → IsWatched (start_detection starts (record s { nr_fds = n }))
unfolding start_detection count
start-IsWatched true s n v z p = record {
  one = ground (arith, v.one);
  past = (omega arith, v.past);
}
start-IsWatched false s n v z p = record { one = ground (arith, v.one); past = v.past }

update-IsWatched :
    (change : Change) (starts : Bool) (s : StepDetector)
    → NoWrap change s
    → IsWatched s
    → IsWatched (update_monitoring change starts s).0
unfolding update_monitoring
update-IsWatched (fewer n) starts s b v = elim (Bool-cases (n == 0)) [
  | inl z ↦ rw z v
  | inr z ↦ elim (Bool-cases (leb n s.nr_fds)) [
    | inr l ↦ rw (z, l) v
    | inl l ↦ elim (Bool-cases (s.nr_fds - n == 0)) [
      | inl last ↦ rw (z, l, last) (next-IsWatched s v b)
      | inr other ↦
          rw (z, l, other) (record { one = ground (arith, v.one, z, l, other); past = v.past })
    ]
  ]
]
update-IsWatched (more n) starts s b v = elim (Bool-cases (n == 0)) [
  | inl z ↦ rw z v
  | inr z ↦
      let e : (s.nr_fds + n) % 2 ^ 64 ≡ s.nr_fds + n = omega arith in
      elim (Bool-cases (s.nr_fds == 0)) [
        | inl first ↦
            rw (z, first)
              (start-IsWatched starts s ((s.nr_fds + n) % 2 ^ 64) v (ground (arith, first))
                (rw e (ground (arith, z))))
        | inr other ↦
            rw (z, other) (record { one = rw e (ground (arith, v.one, other)); past = v.past })
      ]
]

check-IsWatched :
    (s : StepDetector) (i g : ℕ)
    → get_elem? s.threads i ≡ some (some g)
    → IsWatched s
    → IsWatched (check_generation s i g)
unfolding check_generation
check-IsWatched s i g at v = elim (Bool-cases (g == s.generation)) [
  | inl same ↦ rw same v
  | inr other ↦ rw other (record {
    one =
        ground
          (arith, v.one, other, count-set (runs_for s.generation) s.threads i (some g) none at);
    past = All-set (IsUpTo s.generation) s.threads i none v.past tt;
  })
]

bail-IsWatched :
    (s : StepDetector) (i g : ℕ)
    → get_elem? s.threads i ≡ some (some g)
    → IsWatched s
    → IsWatched (bail_out s i g)
unfolding bail_out
bail-IsWatched s i g at v = record {
  one = ground (arith, v.one, count-set (runs_for s.generation) s.threads i (some g) none at);
  past = All-set (IsUpTo s.generation) s.threads i none v.past tt;
}

Reachable-IsWatched : (s : StepDetector) → Reachable s → IsWatched s
unfolding count
Reachable-IsWatched _ start = record { one = refl; past = tt }
Reachable-IsWatched _ (updates s s' change starts b e r) =
    subst IsWatched (ap (λ (q : StepDetector × Outcome (Unit {0})). q.0) e)
      (update-IsWatched change starts s b (Reachable-IsWatched s r))
Reachable-IsWatched _ (checks s i g at r) = check-IsWatched s i g at (Reachable-IsWatched s r)
Reachable-IsWatched _ (bails s i g at r) = bail-IsWatched s i g at (Reachable-IsWatched s r)

-- However the calls and the threads interleave, no thread watches for this generation while there is
-- no descriptor to watch for, and exactly one does while there is, unless it could not be started or
-- has bailed out; then none does. The counters are taken not to wrap.
pub one_detector :
    (s : StepDetector) → Reachable s → count (runs_for s.generation) s.threads ≡ expected s
one_detector s r = (Reachable-IsWatched s r).one
