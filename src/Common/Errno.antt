-- ===== src/Common/Errno.antt =====
-- The error numbers of include/errno.h that the modelled code returns (negated), and results.
pub data Errno : Type 0 where
  enoent esrch eio ebadf eagain enomem eexist enodev einval enotempty enomsg eperm eacces emfile
        eafnosupport eisconn enosys erofs :
      Errno

pub data Result {ℓ} (A : Type ℓ) : Type ℓ where
  ok : A → Result A
  err : Errno → Result A
