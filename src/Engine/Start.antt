-- ===== src/Engine/Start.antt =====
-- The state that a process starts with is sound.
use libtux.Base.{
  ℕ, ◌+◌, ◌≤◌, ◌<◌, ◌≡◌, ◌≢◌, ◌==◌, inl, refl, false, List, ◌∷◌, Option, none, some, arith, pos,
  replicate, count, zero, suc, ap, ◌∙◌,
}
use libtux.World.{Ptr, null, Call, FdFile, Tux, TuxOptions, Proc, World, ok, put}
use libtux.Types.Open
use libtux.Host.{malloc}
use libtux.File.{filefnew, all_ops}
use libtux.Fd.{nofile, fdinit, get_fd_file}
use libtux.Fd.Refs.{IsSound}
use libtux.Fd.Init.{fdinit-IsSound, std_slots}
use libtux.Guest.Good.{Good}
use libtux.Engine.{tux_new, count_ref}

-- Nothing is made yet but the three HostFiles, which are static.
pub record Blank (w : World) (h0 h1 h2 : Ptr) : Type 0 where
  pub no_files : (p : Ptr) → w.fd_files p ≡ none
  pub live : (w.host_files h0 ≢ none) × (w.host_files h1 ≢ none) × (w.host_files h2 ≢ none)
  pub apart : (h0 ≢ h1) × (h0 ≢ h2) × (h1 ≢ h2)
  pub unused : (p : Ptr) → w.next ≤ p → w.host_files p ≡ none
  pub not_null : null < w.next
  pub memory : (log : List Call) (n : ℕ) → (w.oracle log (Call.malloc n)).ret ≡ pos 1

abbrev std : Ptr → ℕ → ℕ → Option FdFile
std host flags refs =
    some (record { dev = record { file = host; flags = flags }; refs = refs; ops = all_ops })

-- Memory does not run out.
abbrev Memory : World → Type 0
Memory w = (log : List Call) (n : ℕ) → (w.oracle log (Call.malloc n)).ret ≡ pos 1

abbrev allocated : ℕ → World → World
allocated n w = record w { log = Call.malloc n ∷ w.log; next = w.next + 1 }

malloc-eq : (n : ℕ) (w : World) → Memory w → malloc n w ≡ ok w.next (allocated n w)
unfolding malloc
malloc-eq n w memory = ground (arith, memory w.log n)

abbrev after_new : Ptr → ℕ → World → World
after_new host flags w =
    let v = allocated 144 (allocated 16 w) in
    record v { fd_files = put w.fd_files (w.next + 1) (std host flags 0) }

filefnew-eq :
    (host : Ptr) (flags : ℕ) (w : World)
    → Memory w
    → null < w.next
    → filefnew host flags w ≡ ok (w.next + 1) (after_new host flags w)
unfolding filefnew malloc
filefnew-eq host flags w memory n =
    ground (arith, memory w.log 16, memory (Call.malloc 16 ∷ w.log) 144)

abbrev counted_once : Ptr → FdFile → World → World
counted_once ff f w = record w { fd_files = put w.fd_files ff (some (record f { refs = 1 })) }

count_ref-eq :
    (ff : Ptr) (f : FdFile) (w : World)
    → w.fd_files ff ≡ some f
    → f.refs ≡ 0
    → count_ref ff w ≡ ok tt (counted_once ff f w)
unfolding count_ref get_fd_file
count_ref-eq ff f w at z = ground (arith, at, z)

count-nulls : (p n : ℕ) → p ≢ null → count p (replicate n null) ≡ 0
count-nulls p zero h = refl
count-nulls p (suc n) h = ground (arith, count-nulls p n h)

-- What lfi_tux_new makes: the engine, and the state with the three files.
abbrev file_of : Ptr → ℕ → FdFile
file_of host flags = record { dev = record { file = host; flags = flags }; refs = 0; ops = all_ops }

module _ (w : World) (h0 h1 h2 : Ptr) where
  abbrev made : World
  made =
      after_new h2 Open.wronly
        (after_new h1 Open.wronly (after_new h0 Open.rdonly (allocated 56 w)))

  abbrev pub stdin_of : Ptr
  stdin_of = w.next + 1 + 1

  abbrev pub stdout_of : Ptr
  stdout_of = stdin_of + 1 + 1

  abbrev pub stderr_of : Ptr
  stderr_of = stdout_of + 1 + 1

  abbrev pub engine : TuxOptions → Tux
  engine opts = record { opts = opts; fstdin = stdin_of; fstdout = stdout_of; fstderr = stderr_of }

  abbrev pub ready : World
  ready = counted_once stderr_of (file_of h2 Open.wronly) (
      counted_once stdout_of (file_of h1 Open.wronly)
        (counted_once stdin_of (file_of h0 Open.rdonly) made))

  pub tux_new_lem :
      (opts : TuxOptions)
      → Blank w h0 h1 h2
      → tux_new opts h0 h1 h2 w ≡ ok (some (engine opts)) ready
  unfolding tux_new
  tux_new_lem opts b =
      let w1 : World = allocated 56 w in
      let w2 : World = after_new h0 Open.rdonly w1 in
      let w3 : World = after_new h1 Open.wronly w2 in
      let nz0 : (w.next == null) ≡ false = ground (arith, b.not_null) in
      let nz1 : (w1.next + 1 == null) ≡ false = ground arith in
      let nz2 : (w2.next + 1 == null) ≡ false = ground arith in
      let nz3 : (w3.next + 1 == null) ≡ false = ground arith in
      let c0 : World = counted_once stdin_of (file_of h0 Open.rdonly) made in
      let c1 : World = counted_once stdout_of (file_of h1 Open.wronly) c0 in
      rw
        (
          malloc-eq 56 w b.memory,
          nz0,
          filefnew-eq h0 Open.rdonly w1 b.memory (omega arith),
          nz1,
          filefnew-eq h1 Open.wronly w2 b.memory (omega arith),
          nz2,
          filefnew-eq h2 Open.wronly w3 b.memory (omega arith),
          nz3,
          count_ref-eq stdin_of (file_of h0 Open.rdonly) made (ground arith) refl,
          count_ref-eq stdout_of (file_of h1 Open.wronly) c0 (ground arith) refl,
          count_ref-eq stderr_of (file_of h2 Open.wronly) c1 (ground arith) refl,
        )
        refl

  -- A new process of the engine: no descriptor and no working directory.
  abbrev pub process : TuxOptions → Proc → World
  process opts p = record ready {
    proc = record p {
      files = replicate nofile null;
      cwd_file = null;
      cwd_fd = null;
      tux = engine opts;
    };
  }

  pub process-IsSound : (opts : TuxOptions) (p : Proc) → Blank w h0 h1 h2 → IsSound (process opts p)
  process-IsSound opts p b = record {
    size = refl;
    refs = record {
      counted = λ q n. ground (arith, b.no_files q, count-nulls q 128 n);
      backed = λ q f e. ground (arith, b.no_files q, b.live);
      owned = λ q r f g e1 e2 ne. ground (arith, b.no_files q, b.no_files r, b.apart);
      standard = λ q f e. ground (arith, b.no_files q);
      unused = λ q le. ground (arith, b.no_files q, b.unused q);
      not_null = ground (arith, b.no_files null, b.not_null);
    };
    keeps = λ q f e. ground (arith, b.no_files q);
  }

-- A sound process without descriptors and working directory is given the standard files.
pub fdinit-Good :
    (w : World)
    → IsSound w
    → (w.proc.tux.fstdin ≢ null) × (w.proc.tux.fstdout ≢ null) × (w.proc.tux.fstderr ≢ null)
    → w.proc.files ≡ replicate nofile null
    → w.proc.cwd_fd ≡ null
    → w.proc.cwd_file ≡ null
    → w.proc.tux.opts.fs_open ≡ false
    → (v : World) × (fdinit w ≡ ok tt v) × Good v × (v.proc ≡ std_slots w.proc)
fdinit-Good w s (n0, n1, n2) empty no_fd no_file off =
    let (v, e, sound, same) =
      fdinit-IsSound w s n0 n1 n2 (rw empty refl) (rw empty refl) (rw empty refl) in
    (
      v,
      e,
      record {
        sound = sound;
        cwd = record {
          held_by = λ f at.
              absurd (ground (arith, sound.refs.not_null, no_fd, ap (λ (q : Proc). q.cwd_fd) same));
          own = λ z. inl (ap (λ (q : Proc). q.cwd_file) same ∙ no_file);
        };
        no_opener = ap (λ (q : Proc). q.tux.opts.fs_open) same ∙ off;
      },
      same,
    )

-- With memory, lfi_tux_new gives an engine, and a new process of it that has been given the standard
-- files is in a good state.
pub start-Good :
    (w : World) (h0 h1 h2 : Ptr) (opts : TuxOptions) (p : Proc)
    → Blank w h0 h1 h2
    → opts.fs_open ≡ false
    → (tux_new opts h0 h1 h2 w ≡ ok (some (engine w h0 h1 h2 opts)) (ready w h0 h1 h2))
      × (v : World) × (fdinit (process w h0 h1 h2 opts p) ≡ ok tt v)
      × Good v
      × (v.proc ≡ std_slots (process w h0 h1 h2 opts p).proc)
start-Good w h0 h1 h2 opts p b off =
    let (v, e, good, same) =
      fdinit-Good (process w h0 h1 h2 opts p) (process-IsSound w h0 h1 h2 opts p b)
        (ground arith, ground arith, ground arith) refl refl refl off in
    (tux_new_lem w h0 h1 h2 opts b, v, e, good, same)
