-- ===== src/World.antt =====
-- The state that the C code reads and writes, and what it asks of code that is not under src/:
-- the host kernel, libmmap, malloc, and the embedder's `fs.open` callback.
pub mod Memory
pub mod Total
pub mod Frame
pub mod Words
pub mod Fields
use libtux.Base.{
  ℕ, zero, suc, ◌+◌, ◌==◌, Bool, true, false, List, [], ◌∷◌, Option, none, some, ℤ, pos, is_neg,
  if◌then◌else◌,
}

-- An address in the host process; 0 is NULL.
abbrev pub Ptr : Type 0
Ptr = ℕ

abbrev pub null : Ptr
null = 0

-- The bytes of a C string, without the NUL.
abbrev pub FilePath : Type 0
FilePath = List ℕ

-- What the code asks from outside. File descriptors are the host's; a -1 stands for AT_FDCWD or
-- for no file, as in the C code.
pub data Call : Type 0 where
  malloc : (size : ℕ) → Call
  fs_open : (path : FilePath) (flags mode : ℕ) → Call
  openat : (dir : ℤ) (path : FilePath) (flags mode : ℕ) → Call
  close : (fd : ℤ) → Call
  read : (fd : ℤ) (size : ℕ) → Call
  write : (fd : ℤ) (bytes : List ℕ) → Call
  lseek : (fd : ℤ) (offset : ℤ) (whence : ℕ) → Call
  fstat : (fd : ℤ) → Call
  fstatat : (dir : ℤ) (path : FilePath) → Call
  truncate : (path : FilePath) (length : ℤ) → Call
  ftruncate : (fd : ℤ) (length : ℤ) → Call
  fchown : (fd : ℤ) (owner group : ℕ) → Call
  fchownat : (dir : ℤ) (path : FilePath) (owner group : ℕ) → Call
  fchmod : (fd : ℤ) (mode : ℕ) → Call
  fchmodat : (dir : ℤ) (path : FilePath) (mode : ℕ) → Call
  fsync : (fd : ℤ) → Call
  getdents : (fd : ℤ) (count : ℕ) → Call
  fdopendir : (fd : ℤ) → Call
  getentropy : (size : ℕ) → Call
  unlinkat : (dir : ℤ) (path : FilePath) (flags : ℕ) → Call
  readlinkat : (dir : ℤ) (path : FilePath) (size : ℕ) → Call
  renameat : (olddir : ℤ) (oldpath : FilePath) (newdir : ℤ) (newpath : FilePath) → Call
  faccessat : (dir : ℤ) (path : FilePath) (mode : ℕ) → Call
  mkdirat : (dir : ℤ) (path : FilePath) (mode : ℕ) → Call
  getcwd : (size : ℕ) → Call
  readlink_fd : (fd : ℤ) (size : ℕ) → Call
  path_is_absolute : (path : FilePath) → Call
  path_join : (cwd path : FilePath) (size : ℕ) → Call
  mmap : (addr length prot flags : ℕ) (fd : ℤ) (offset : ℤ) → Call
  mprotect : (addr length prot : ℕ) → Call
  boxmap_new : (minalign maxalign guardsize : ℕ) → Call
  boxmap_reserve : (size : ℕ) → Call
  boxmap_addspace : (size : ℕ) → Call
  boxmap_rmspace : (base size : ℕ) → Call
  mm_init : (start length pagesize : ℕ) → Call
  mm_mapany : (size prot flags : ℕ) → Call
  mm_mapat : (addr size prot flags : ℕ) → Call
  mm_unmap : (addr size : ℕ) → Call
  clock_gettime : (clockid : ℕ) → Call
  time : Call
  getrandom : (size flags : ℕ) → Call
  prctl_set_name : (name : List ℕ) → Call
  winsize : (fd : ℕ) → Call
  futex : (uaddr op val : ℕ) (timeout : Option (ℕ × ℕ)) → Call
  cpucount : Call
  sched_yield : Call
  pthread_create : (tid : ℕ) → Call
  perf_notes : (prog : Ptr) (size first : ℕ) → Call
  sysinfo : Call

-- `struct stat` of the host.
pub record KStat : Type 0 where
  pub st_dev : ℕ
  pub st_ino : ℕ
  pub st_nlink : ℕ
  pub st_mode : ℕ
  pub st_uid : ℕ
  pub st_gid : ℕ
  pub st_rdev : ℕ
  pub st_size : ℕ
  pub st_blksize : ℕ
  pub st_blocks : ℕ
  pub st_atim : ℕ × ℕ
  pub st_mtim : ℕ × ℕ
  pub st_ctim : ℕ × ℕ

-- A result and, as far as the call has them: the errno of a failure, the bytes for the caller's
-- buffer, the file's status, the fields of any other struct that it fills, and the ranges that
-- libmmap hands to the unmap callback.
pub record Answer : Type 0 where
  pub ret : ℤ
  pub errno : ℕ
  pub bytes : List ℕ
  pub stat : KStat
  pub fields : List ℕ
  pub unmapped : List (ℕ × ℕ)

pub record HostFile : Type 0 where
  pub fd : ℤ

-- `struct File`, the device behind an FDFile. It is never changed after `filefnew`.
pub record File : Type 0 where
  pub file : Ptr
  pub flags : ℕ

-- Which operation pointers of a `struct FDFile` are set.
pub record Ops : Type 0 where
  pub read : Bool
  pub write : Bool
  pub lseek : Bool
  pub close : Bool
  pub stat_ : Bool
  pub getdents : Bool
  pub chown : Bool
  pub chmod : Bool
  pub truncate : Bool
  pub sync : Bool
  pub file : Bool

-- `struct FDFile`, less its mutex; fdrelease says when that is unlocked too late.
pub record FdFile : Type 0 where
  pub dev : File
  pub refs : ℕ
  pub ops : Ops

pub record TuxOptions : Type 0 where
  pub pagesize : ℕ
  pub pause_on_exit : Bool
  pub perf : Bool
  pub fs_open : Bool

-- `struct Tux`
pub record Tux : Type 0 where
  pub opts : TuxOptions
  pub fstdin : Ptr
  pub fstdout : Ptr
  pub fstderr : Ptr

-- `struct LFIAddrSpaceInfo`
pub record AddrSpace : Type 0 where
  pub base : ℕ
  pub size : ℕ
  pub minaddr : ℕ
  pub maxaddr : ℕ

-- `struct TuxProc`, with `cwd` and `fdtable` laid flat.
pub record Proc : Type 0 where
  pub p_as : AddrSpace
  pub brkbase : ℕ
  pub brksize : ℕ
  pub files : List Ptr
  pub cwd_file : Ptr
  pub cwd_fd : Ptr
  pub tux : Tux

-- `struct TuxThread`, and of its context what the code sets: the thread pointer, the stack pointer
-- and the register of a call's result.
pub record Thread : Type 0 where
  pub tid : ℕ
  pub ctid : ℕ
  pub tp : ℕ
  pub sp : ℕ
  pub result : ℕ

-- `thread` is the one that makes the call, `threads` are those that were started since.
-- `stale` has the FDFiles whose mutex was unlocked after they were freed, the last one first.
-- `oracle` is the outside: what it answers may depend on everything that it was asked before.
pub record World : Type 0 where
  pub oracle : List Call → Call → Answer
  pub log : List Call
  pub errno : ℕ
  pub mem : ℕ → ℕ
  pub next : Ptr
  pub host_files : Ptr → Option HostFile
  pub fd_files : Ptr → Option FdFile
  pub stale : List Ptr
  pub proc : Proc
  pub thread : Thread
  pub threads : List Thread
  pub next_tid : ℕ

-- `aborted` is a failed assertion, `fault` a use of a pointer or an index that is not valid.
pub data Run (A : Type 0) : Type 0 where
  ok : A → World → Run A
  aborted : Run A
  fault : Run A

abbrev pub Cmd : Type 0 → Type 0
Cmd A = World → Run A

module _ {A B : Type 0} where
  abbrev pub and_then : Run A → (A → Cmd B) → Run B
  and_then (ok a w) k = k a w
  and_then aborted k = aborted
  and_then fault k = fault

  infixl 5 ◌>>=◌ ◌>>◌
  abbrev pub ◌>>=◌ : Cmd A → (A → Cmd B) → Cmd B
  m >>= k = λ w. and_then (m w) k

  abbrev pub ◌>>◌ : Cmd A → Cmd B → Cmd B
  m >> n = m >>= λ _. n

abbrev pub pure : {A : Type 0} → A → Cmd A
pure a w = ok a w

abbrev pub assert : Bool → Cmd (Unit {0})
assert true w = ok tt w
assert false w = aborted

abbrev pub gets : {A : Type 0} → (World → A) → Cmd A
gets f w = ok (f w) w

abbrev pub modify : (World → World) → Cmd (Unit {0})
modify f w = ok tt (f w)

-- A call out: it is logged, and a failure sets `errno`.
abbrev pub ask : Call → Cmd Answer
ask c w =
    let a = w.oracle w.log c in
    ok a (record w { log = c ∷ w.log; errno = if is_neg a.ret then a.errno else w.errno })

abbrev pub put : {A : Type 0} → (Ptr → Option A) → Ptr → Option A → Ptr → Option A
put f p c q = if q == p then c else f q
