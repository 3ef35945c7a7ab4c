-- ===== src/Types/Clone.antt =====
-- TUX_CLONE_…, of types.h, and the signal of a child's end
use libtux.Base.{ℕ}

abbrev pub vm : ℕ
vm = 0x100

abbrev pub fs : ℕ
fs = 0x200

abbrev pub files : ℕ
files = 0x400

abbrev pub sighand : ℕ
sighand = 0x800

abbrev pub vfork : ℕ
vfork = 0x4000

abbrev pub thread : ℕ
thread = 0x10000

abbrev pub sysvsem : ℕ
sysvsem = 0x40000

abbrev pub settls : ℕ
settls = 0x80000

abbrev pub parent_settid : ℕ
parent_settid = 0x100000

abbrev pub child_cleartid : ℕ
child_cleartid = 0x200000

abbrev pub detached : ℕ
detached = 0x400000

abbrev pub child_settid : ℕ
child_settid = 0x1000000

abbrev pub io : ℕ
io = 0x80000000

abbrev pub sigchld : ℕ
sigchld = 0x11
