-- ===== src/Tests/Demo.antt =====
-- A process with the three standard files and one more, in a space of one GiB.
use libtux.Base.{
  ℕ, ◌+◌, ◌-◌, ◌≡◌, ◌≢◌, ◌==◌, refl, false, List, [], ◌∷◌, Option, none, some, ℤ, pos, neg, count,
  replicate, zero, suc, if◌then◌else◌, arith,
}
use libtux.World.{Ptr, null, Call, Answer, KStat, HostFile, FdFile, Proc, AddrSpace, World, put}
use libtux.File.{all_ops}
use libtux.Fd.Ready.{IsReady}
use libtux.Fd.Refs.{IsSound}

abbrev no_stat : KStat
no_stat = record {
  st_dev = 0;
  st_ino = 0;
  st_nlink = 0;
  st_mode = 0;
  st_uid = 0;
  st_gid = 0;
  st_rdev = 0;
  st_size = 0;
  st_blksize = 0;
  st_blocks = 0;
  st_atim = (0, 0);
  st_mtim = (0, 0);
  st_ctim = (0, 0);
}

abbrev pub answer : ℤ → ℕ → List ℕ → Answer
answer r e bs = record {
  ret = r;
  errno = e;
  bytes = bs;
  stat = no_stat;
  fields = [];
  unmapped = [];
}

-- A host where the disk is full, a read gives two bytes, and all else works.
abbrev pub oracle : List Call → Call → Answer
oracle log (Call.write fd bs) = answer (neg 1) 28 []
oracle log (Call.read fd n) = answer (pos 2) 0 (104 ∷ 105 ∷ [])
oracle log (Call.malloc n) = answer (pos 1) 0 []
oracle log (Call.openat dir path flags mode) = answer (pos 9) 0 []
oracle log (Call.mm_mapat addr n prot flags) = answer (pos addr) 0 []
oracle log (Call.mmap addr n prot flags fd off) = answer (pos addr) 0 []
oracle log _ = answer (pos 0) 0 []

abbrev pub std_file : Ptr → ℕ → FdFile
std_file host refs = record { dev = record { file = host; flags = 0 }; refs = refs; ops = all_ops }

abbrev pub demo_fd_files : Ptr → Option FdFile
demo_fd_files =
    put
      (put (put (put (λ p. none) 10 (some (std_file 20 2))) 11 (some (std_file 21 2))) 12
        (some (std_file 22 2)))
      13 (some (std_file 23 1))

abbrev pub demo_host_files : Ptr → Option HostFile
demo_host_files =
    put
      (put
        (put (put (λ p. none) 20 (some (record { fd = pos 0 }))) 21 (some (record { fd = pos 1 })))
        22 (some (record { fd = pos 2 })))
      23 (some (record { fd = pos 7 }))

abbrev pub demo_space : AddrSpace
demo_space = record {
  base = 4294967296;
  size = 4294967296;
  minaddr = 4294967296 + 86016;
  maxaddr = 4294967296 + 4294967296 - 81920;
}

-- The heap of the process is 4096 bytes.
abbrev pub demo_proc : Proc
demo_proc = record {
  p_as = demo_space;
  brkbase = 4294967296 + 1048576;
  brksize = 4096;
  files = 10 ∷ 11 ∷ 12 ∷ 13 ∷ replicate 124 null;
  cwd_file = null;
  cwd_fd = null;
  tux = record {
    opts = record { pagesize = 4096; pause_on_exit = false; perf = false; fs_open = false };
    fstdin = 10;
    fstdout = 11;
    fstderr = 12;
  };
}

-- "hi" stands at the heap's start.
abbrev pub heap : ℕ
heap = 4294967296 + 1048576

abbrev pub demo_mem : ℕ → ℕ
demo_mem a = if a == heap then 104 else if a == heap + 1 then 105 else 0

abbrev pub demo : World
demo = record {
  oracle = oracle;
  log = [];
  errno = 0;
  mem = demo_mem;
  next = 30;
  host_files = demo_host_files;
  fd_files = demo_fd_files;
  stale = [];
  proc = demo_proc;
  thread = record { tid = 10000; ctid = 0; tp = 0; sp = 0; result = 0 };
  threads = [];
  next_tid = 10001;
}

count-nulls : (p n : ℕ) → p ≢ null → count p (replicate n null) ≡ 0
count-nulls p zero h = refl
count-nulls p (suc n) h = ground (arith, count-nulls p n h)

pub demo-IsSound : IsSound demo
demo-IsSound = record {
  size = refl;
  refs = record {
    counted = λ p h. ground (arith, count-nulls p 124 h);
    backed = λ p f e. ground arith;
    owned = λ p q f g e1 e2 ne. ground arith;
    standard = λ p f e. ground arith;
    unused = λ p le. ground arith;
    not_null = ground arith;
  };
  keeps = λ p f e. ground arith;
}

-- The process with one more file, which no descriptor has yet.
abbrev pub opened_one : World
opened_one = record demo {
  next = 40;
  host_files = put demo_host_files 24 (some (record { fd = pos 9 }));
  fd_files = put demo_fd_files 31 (some (std_file 24 0));
}

pub opened_one-IsReady : IsReady opened_one 31 (std_file 24 0)
opened_one-IsReady = record {
  size = refl;
  refs = record {
    counted = λ p h. ground (arith, count-nulls p 124 h);
    backed = λ p f e. ground arith;
    owned = λ p q f g e1 e2 ne. ground arith;
    standard = λ p f e. ground arith;
    unused = λ p le. ground arith;
    not_null = ground arith;
  };
  keeps = λ p f ne e. ground arith;
  not_null = ground arith;
  file = refl;
  unheld = refl;
}
