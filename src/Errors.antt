-- ===== src/Errors.antt =====
-- The error codes that functions return, negated, as their `int`.
pub data Errno : Type 0 where
  enoent einval eexist e2big erange enomem : Errno

-- 0 with what the out parameters receive, or a code.
pub data Result {ℓ} (A : Type ℓ) : Type ℓ where
  ok : A → Result A
  err : Errno → Result A

pub Errno-discrete : Discrete Errno
Errno-discrete = hlevel
