-- ===== src/Epoll/Shim/Tests.antt =====
-- Runs of the table of epoll_shim_ctx.c, with epoll descriptors as lists of what they watch: a
-- descriptor, and the description behind it.
use wwn_iland.Common.{
  ℕ, ◌≡◌, refl, Bool, ◌||◌, true, false, some, List, [], ◌∷◌, arith, ◌==◌, if◌then◌else◌, count, ok,
}
use wwn_iland.Epoll.Shim.{Contexts, EpollShimCtx, epoll_shim_ctx_init}
use wwn_iland.Epoll.Shim.OpenFiles.{space_for, Resources, open_desc}
use wwn_iland.Epoll.Shim.Counts.{IsBalanced, tally}
use wwn_iland.Epoll.Shim.Room.{Fits, space_for_total}
use wwn_iland.Epoll.Shim.Opening.{Opened, open_desc-Opened}
use wwn_iland.Epoll.Shim.Detector
use wwn_iland.Epoll.Shim.Detector.{
  StepDetector, Change, more, update_monitoring, runs_for, expected, one_detector,
}

abbrev Nodes : Type 0
Nodes = List (ℕ × ℕ)

abbrev watched : Nodes → List ℕ
watched [] = []
watched ((fd, a) ∷ ns) = a ∷ watched ns

abbrev without : ℕ → Nodes → Nodes
without fd [] = []
without fd ((fd', a) ∷ ns) = if fd' == fd then without fd ns else (fd', a) ∷ without fd ns

abbrev behind : ℕ → Nodes → List ℕ
behind fd [] = []
behind fd ((fd', a) ∷ ns) = if fd' == fd then a ∷ behind fd ns else behind fd ns

abbrev nodes : Contexts Nodes
nodes = record {
  targets = watched;
  close_fun = λ c. 0;
  read_fun = λ c n. (c, ok n);
  write_fun = λ c n. (c, ok n);
  remove_fd = λ c fd. (without fd c, behind fd c);
}

abbrev names_node : ℕ → Nodes → Bool
names_node fd [] = false
names_node fd ((fd', a) ∷ ns) = (fd' == fd) || names_node fd ns

abbrev given : Resources
given = record { kqueue1 = ok 40; realloc_error = 0; create_error = 0 }

abbrev empty : EpollShimCtx Nodes
empty = epoll_shim_ctx_init

abbrev opened : EpollShimCtx Nodes
opened = (open_desc nodes given true (ok []) empty).0

empty-IsBalanced : IsBalanced nodes (tally []) empty
unfolding epoll_shim_ctx_init count
empty-IsBalanced = record { balance = λ a. refl; alive = tt }

space_for_total_example : Fits 32 40 (space_for 32 32 40)
space_for_total_example = space_for_total 40 (omega arith)

space_for_forty : space_for 32 32 40 ≡ some 64
unfolding space_for
space_for_forty = refl

open_desc-Opened_example :
    Opened nodes
      (tally [])
      empty.closed
      (ok 40)
      true
      (ok [])
      (open_desc nodes given true (ok []) empty)
open_desc-Opened_example =
    open_desc-Opened nodes (tally []) given true (ok []) empty (omega arith) refl empty-IsBalanced

-- One timer on the realtime clock.
abbrev timed : StepDetector
timed = record { nr_fds = 1; generation = 0; threads = some 0 ∷ []; lost = false }

timed-reached : Detector.Reachable timed
unfolding update_monitoring
timed-reached =
    Detector.updates (record { nr_fds = 0; generation = 0; threads = []; lost = false }) timed
      (more 1) true (omega arith) refl Detector.start

one_detector_example : count (runs_for timed.generation) timed.threads ≡ expected timed
one_detector_example = one_detector timed timed-reached
