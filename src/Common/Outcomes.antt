-- ===== src/Common/Outcomes.antt =====
-- What a call of the C interface returns.
use Prim.Native.Nat.{ℕ}
use mathlib.Core.Bool.{Bool, true, false}

-- The values of errno that the sources set or pass on; `unset` where -1 is returned and errno is left
-- to whatever the failing system call put there.
pub data Errno : Type 0 where
  ebadf einval enoent enomem enosys eagain eopnotsupp enotsup eoverflow ecanceled eexist unset :
      Errno
  -- an error that the system reported
  sys_error : ℕ → Errno

-- `fail e` is -1 or NULL with errno set to `e`; `blocks` is a call that waits in the kernel;
-- `fault` is a read through a null pointer, `aborted` an assertion that fails.
pub data Outcome {ℓ} (A : Type ℓ) : Type ℓ where
  ok : A → Outcome A
  fail : Errno → Outcome A
  blocks : Outcome A
  fault : Outcome A
  aborted : Outcome A

-- `if (!test) { errno = e; return -1; }` before the rest of a call on the state `s`.
abbrev pub require {ℓ κ} :
    {S : Type κ} {A : Type ℓ} → Bool → Errno → S → S × Outcome A → S × Outcome A
require true e s rest = rest
require false e s rest = (s, fail e)

-- The rest of a call, once a step of it has returned a value.
abbrev pub and_then {ℓ κ μ} :
    {S : Type κ} {A : Type ℓ} {B : Type μ} → S × Outcome A → (S → A → S × Outcome B) → S × Outcome B
and_then (s, ok a) rest = rest s a
and_then (s, fail e) rest = (s, fail e)
and_then (s, blocks) rest = (s, blocks)
and_then (s, fault) rest = (s, fault)
and_then (s, aborted) rest = (s, aborted)

-- `assert(test)` before the rest of a call on the state `s`.
abbrev pub assert {ℓ κ} : {S : Type κ} {A : Type ℓ} → Bool → S → S × Outcome A → S × Outcome A
assert true s rest = rest
assert false s rest = (s, aborted)
