-- ===== src/Common/Errno.antt =====
-- The values that the kernel's functions return as an `int` (errno-base.h, errno.h).

-- 0, -1, and the negated error numbers that the modelled functions return.
pub data Status : Type 0 where
  success : Status
  failure : Status
  einval : Status
  enomem : Status
  enoexec : Status
  enodev : Status
  enosched : Status
  eperm : Status
