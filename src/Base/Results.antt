-- ===== src/Base/Results.antt =====
-- Results of the kernel's calls: 0, or a negated error number.
pub data Errno : Type 0 where
  eio enxio eagain enomem eacces efault ebusy enodev einval enospc etime eintr emfile enoent : Errno

pub data Ret : Type 0 where
  ok : Ret
  err : Errno → Ret
