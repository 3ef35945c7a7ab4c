-- ===== src/Types/Map.antt =====
-- LFI_MAP_…, of lfi.h
use libtux.Base.{ℕ}

abbrev pub shared : ℕ
shared = 1

abbrev pub private : ℕ
private = 2

abbrev pub fixed : ℕ
fixed = 16

abbrev pub anonymous : ℕ
anonymous = 32

abbrev pub denywrite : ℕ
denywrite = 2048

abbrev pub noreserve : ℕ
noreserve = 16384
