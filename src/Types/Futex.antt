-- ===== src/Types/Futex.antt =====
-- TUX_FUTEX_…, of types.h
use libtux.Base.{ℕ}

abbrev pub wait : ℕ
wait = 0

abbrev pub wake : ℕ
wake = 1

abbrev pub requeue : ℕ
requeue = 3

abbrev pub private_flag : ℕ
private_flag = 128
