-- ===== src/Types/Open.antt =====
-- TUX_O_…, of types.h
use libtux.Base.{ℕ}

abbrev pub rdonly : ℕ
rdonly = 0x0

abbrev pub wronly : ℕ
wronly = 0x1

abbrev pub rdwr : ℕ
rdwr = 0x2

abbrev pub creat : ℕ
creat = 0x40

abbrev pub trunc : ℕ
trunc = 0x200

abbrev pub append : ℕ
append = 0x400

abbrev pub nonblock : ℕ
nonblock = 0x800

abbrev pub directory : ℕ
directory = 0x10000

abbrev pub cloexec : ℕ
cloexec = 0x80000

abbrev pub path : ℕ
path = 0x200000
