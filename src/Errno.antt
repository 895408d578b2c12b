-- ===== src/Errno.antt =====
-- The int results of the driver and of the hypercalls: 0 or a length, or a negated error number.
use legacy_v4v.Prelude.{ℕ, zero, Bool, true, false}

pub data Errno : Type 0 where
  eagain einval enomem efault emsgsize enotconn epipe eisconn enotty : Errno
  eaddrinuse econnrefused einprogress etimedout enfile enodev erestartsys : Errno
  other : ℕ → Errno

pub data Ret : Type 0 where
  ok : ℕ → Ret
  err : Errno → Ret

-- `ret == -EAGAIN`
abbrev pub is_eagain : Ret → Bool
is_eagain (err eagain) = true
is_eagain _ = false

-- `ret != 0`
abbrev pub is_nonzero : Ret → Bool
is_nonzero (ok zero) = false
is_nonzero _ = true
