-- ===== src/Types/Auxv.antt =====
-- AT_…, of elfload.h: the keys of the auxiliary vector.
use libtux.Base.{ℕ}

abbrev pub secure : ℕ
secure = 23

abbrev pub base : ℕ
base = 7

abbrev pub phdr : ℕ
phdr = 3

abbrev pub phnum : ℕ
phnum = 5

abbrev pub phent : ℕ
phent = 4

abbrev pub entry : ℕ
entry = 9

abbrev pub execfn : ℕ
execfn = 31

abbrev pub pagesz : ℕ
pagesz = 6

abbrev pub hwcap : ℕ
hwcap = 16

abbrev pub hwcap2 : ℕ
hwcap2 = 17

abbrev pub random : ℕ
random = 25

abbrev pub flags : ℕ
flags = 8

abbrev pub uid : ℕ
uid = 11

abbrev pub euid : ℕ
euid = 12

abbrev pub gid : ℕ
gid = 13

abbrev pub egid : ℕ
egid = 14

abbrev pub sysinfo : ℕ
sysinfo = 32

abbrev pub sysinfo_ehdr : ℕ
sysinfo_ehdr = 33

abbrev pub nothing : ℕ
nothing = 0
