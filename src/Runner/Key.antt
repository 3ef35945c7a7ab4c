-- ===== src/Runner/Key.antt =====
-- The keys that parse_opt of tools/lfi_run.c tells apart: those of the options, and ARGP_KEY_ARG.
use libtux.Base.{ℕ}

abbrev pub help : ℕ
help = 104

abbrev pub verbose : ℕ
verbose = 86

abbrev pub perf : ℕ
perf = 112

abbrev pub strace : ℕ
strace = 0x80

abbrev pub pagesize : ℕ
pagesize = 0x81

abbrev pub arg : ℕ
arg = 0
