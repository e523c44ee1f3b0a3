-- ===== src/Epoll/Shim.antt =====
-- epoll_shim_ctx.c: the file descriptions behind the descriptors of the emulation, and the table that
-- leads to them. The contexts (epollfd, eventfd, timerfd, signalfd) are seen through the functions
-- that the table calls.
pub mod References
pub mod OpenFiles
pub mod Calls
pub mod Room
pub mod Counts
pub mod Balance
pub mod Creating
pub mod Opening
pub mod Forgetting
pub mod Closing
pub mod Reading
pub mod Detector
mod Tests
use wwn_iland.Common.{
  ℕ, ◌+◌, ◌≡◌, Bool, true, false, Option, none, some, List, [], ◌==◌, Outcome, count,
}

-- What the functions of a context do. An epoll descriptor keeps a reference to the description of each
-- descriptor that it watches: `targets` lists them, once for each reference.
pub record Contexts (C : Type 0) : Type 0 where
  pub targets : C → List ℕ
  -- close_fun: the error, 0 for none; it gives back the references to the targets
  pub close_fun : C → ℕ
  -- read_fun and write_fun, for a number of bytes
  pub read_fun : C → ℕ → C × Outcome ℕ
  pub write_fun : C → ℕ → C × Outcome ℕ
  -- epollfd_remove_fd: the references that are given back, too
  pub remove_fd : C → ℕ → C × List ℕ

-- What the table relies on: `has_node` says whether a context has a node for a descriptor, none is left
-- where epollfd_remove_fd has removed it, and references are given back for the nodes that go, and for
-- no others.
pub record IsCounting {C : Type 0} (k : Contexts C) : Type 0 where
  pub has_node : C → ℕ → Bool
  pub remove_fd_gone : (c : C) (fd : ℕ) → has_node (k.remove_fd c fd).0 fd ≡ false
  pub remove_fd_targets :
      (c : C) (fd a : ℕ)
      → count (λ b. b == a) (k.targets (k.remove_fd c fd).0)
          + count (λ b. b == a) (k.remove_fd c fd).1
        ≡ count (λ b. b == a) (k.targets c)
  pub read_fun_targets : (c : C) (n : ℕ) → k.targets (k.read_fun c n).0 ≡ k.targets c
  pub write_fun_targets : (c : C) (n : ℕ) → k.targets (k.write_fun c n).0 ≡ k.targets c

-- `flags` is O_NONBLOCK; `ctx` is none as long as the vtable is NULL.
pub record FileDescription (C : Type 0) : Type 0 where
  pub refcount : ℕ
  pub flags : Bool
  pub ctx : Option C

-- `files` are the descriptions that were ever made, by their number, `none` once they are freed;
-- `open_files` is the table, with NULL as none; `writing` is whether a thread holds the lock for
-- writing beyond the call; `closed` are the descriptors given to real_close, the last first.
pub record EpollShimCtx (C : Type 0) : Type 0 where
  pub files : List (Option (FileDescription C))
  pub open_files : List (Option ℕ)
  pub writing : Bool
  pub closed : List ℕ

-- epoll_shim_ctx_init
unfoldable pub epoll_shim_ctx_init : {C : Type 0} → EpollShimCtx C
epoll_shim_ctx_init = record { files = []; open_files = []; writing = false; closed = [] }
