-- ===== src/Types.antt =====
-- The constants of types.h and lfi.h, and the tests of flag words. A C `int` that is used as a set
-- of flags is its 32-bit pattern; one that is used as a number is an integer.
pub mod Open
pub mod Prot
pub mod Map
pub mod Clone
pub mod Futex
pub mod Auxv
use libtux.Base.{ℕ, ◌-◌, ◌^◌, Bool, not, ◌==◌, bit_and, ℤ, neg}

pub data Errno : Type 0 where
  eperm enoent ebadf eagain enomem eacces efault enotdir einval emfile enosys : Errno

abbrev pub code : Errno → ℕ
code eperm = 1
code enoent = 2
code ebadf = 9
code eagain = 11
code enomem = 12
code eacces = 13
code efault = 14
code enotdir = 20
code einval = 22
code emfile = 24
code enosys = 38

-- `-TUX_E…`
abbrev pub err : Errno → ℤ
err e = neg (code e)

abbrev pub seek_set : ℕ
seek_set = 0

abbrev pub seek_cur : ℕ
seek_cur = 1

abbrev pub seek_end : ℕ
seek_end = 2

abbrev pub at_fdcwd : ℤ
at_fdcwd = neg 100

abbrev pub at_removedir : ℕ
at_removedir = 0x200

abbrev pub at_empty_path : ℕ
at_empty_path = 0x1000

-- (flags & mask) != 0
abbrev pub has : ℕ → ℕ → Bool
has flags mask = not (bit_and flags mask == 0)

-- ~flags, for an int
abbrev pub not32 : ℕ → ℕ
not32 w = 2 ^ 32 - 1 - w
