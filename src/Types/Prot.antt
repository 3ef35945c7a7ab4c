-- ===== src/Types/Prot.antt =====
-- LFI_PROT_…, of lfi.h
use libtux.Base.{ℕ}

abbrev pub nothing : ℕ
nothing = 0

abbrev pub read : ℕ
read = 1

abbrev pub write : ℕ
write = 2

abbrev pub exec : ℕ
exec = 4
