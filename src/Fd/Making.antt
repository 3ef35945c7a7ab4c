-- ===== src/Fd/Making.antt =====
-- filenew makes an FDFile that no descriptor has yet, and leaves the others as they are: src/file.c.
use libtux.Base.{
  ℕ, ◌+◌, ◌≡◌, ◌≢◌, ◌==◌, ◌⊎◌, inl, inr, refl, false, none, some, arith, pos, is_neg, int_eq,
  if◌then◌else◌, Bool-cases, Option-cases, ◌∙◌, ◌&&◌, List, ◌∷◌,
}
use libtux.World.{Ptr, null, Call, FdFile, World, put, FilePath, pure}
use libtux.World.Total.{Holds, Holds-bind, Holds-weaken}
use libtux.Host.{malloc}
use libtux.Host.File.{host_openat, host_fdopen}
use libtux.File.{all_ops, filefnew, filenew, callback_open}
use libtux.Fd.Refs.{IsSound}
use libtux.Fd.Ready.{
  IsReady, IsLive, Unowned, IsFresh, Allocated, malloc-Allocated, IsCounted-next, IsCounted-host,
  IsCounted-new, Unowned-fresh, fresh-next,
}
use libtux.Fd.Opening.{Opened, host_openat-Opened}
use libtux.Fd.Growth.{New, Grown, Grown-same, Grown-New}

-- With an opener of the embedder, its memory must not run out: the code does not test for that.
abbrev pub CanOpen : World → Type 0
CanOpen w =
    (w.proc.tux.opts.fs_open ≡ false)
    ⊎ ((log : List Call) → int_eq (w.oracle log (Call.malloc 4)).ret (pos 0) ≡ false)

callback_open-Opened :
    (path : FilePath) (flags mode : ℕ) (w : World)
    → IsSound w
    → ((log : List Call) → int_eq (w.oracle log (Call.malloc 4)).ret (pos 0) ≡ false)
    → Holds (Opened w) (callback_open path flags mode w)
unfolding callback_open host_fdopen malloc
callback_open-Opened path flags mode w s memory =
    let c = Call.fs_open path flags mode in
    elim (Bool-cases (is_neg (w.oracle w.log c).ret)) [
      | inl e ↦ rw e record {
        sound = record { size = s.size; refs = s.refs; keeps = s.keeps };
        same_proc = refl;
        host = inl refl;
        same_files = refl;
        same_hosts = λ p n. refl;
        new = inl refl;
      }
      | inr e ↦
          let nz : (w.next == null) ≡ false = ground (arith, s.refs.not_null) in
          let v : World = record w { next = w.next + 1 } in
          let u = fresh-next w s in
          rw (e, memory (c ∷ w.log), nz)
            record {
              sound = record {
                size = s.size;
                refs = IsCounted-host v (IsCounted-next w s.refs) w.next u _;
                keeps = s.keeps;
              };
              same_proc = refl;
              host = inr (
                u.not_null,
                ground arith,
                Unowned-fresh v (IsCounted-next w s.refs) w.next u.no_host,
              );
              same_files = refl;
              same_hosts = λ p n. ground (arith, n, u.no_host);
              new = inr u.no_host;
            }
    ]

-- A new FDFile is ready for a descriptor.
new-IsReady :
    (w : World) (ff : Ptr)
    → IsSound w
    → IsFresh w ff
    → (f : FdFile) → w.host_files f.dev.file ≢ none
    → Unowned w.fd_files f.dev.file
    → f.refs ≡ 0
    → f.ops ≡ all_ops
    → IsReady (record w { fd_files = put w.fd_files ff (some f) }) ff f
new-IsReady w ff s u f live mine unheld ops = record {
  size = s.size;
  refs = IsCounted-new w s.refs ff u f live mine unheld ops;
  keeps = λ p g ne e. ground (arith, s.keeps p g);
  not_null = u.not_null;
  file = ground arith;
  unheld = unheld;
}

-- What filefnew leaves: NULL, or an FDFile that no descriptor has yet.
abbrev pub Made : World → Ptr → World → Type 0
Made w ff v =
    (v.proc ≡ w.proc) × (((ff ≡ null) × IsSound v) ⊎ ((ff ≢ null) × (f : FdFile) × IsReady v ff f))

filefnew-Made :
    (hf : Ptr) (flags : ℕ) (w : World)
    → IsSound w
    → w.host_files hf ≢ none
    → Unowned w.fd_files hf
    → Holds (λ ff v. Made w ff v × Grown hf w v) (filefnew hf flags w)
unfolding filefnew
filefnew-Made hf flags w s live mine =
    Holds-bind (Allocated w) _ (malloc 16 w) _ (malloc-Allocated 16 w s) λ p v a. elim a.fresh [
      | inl e ↦
          rw e ((a.same_proc, inl (refl, a.sound)), Grown-same hf w v a.same_hosts a.same_files)
      | inr u ↦
          let nz : (p == null) ≡ false = ground (arith, u.not_null) in
          rw nz (
            Holds-bind (Allocated v) _ (malloc 144 v) _ (malloc-Allocated 144 v a.sound) λ ff x b.
              elim b.fresh [
                | inl e ↦ rw e (
                  (b.same_proc ∙ a.same_proc, inl (refl, b.sound)),
                  Grown-same hf w x (b.same_hosts ∙ a.same_hosts) (b.same_files ∙ a.same_files),
                )
                | inr u' ↦
                    let nz' : (ff == null) ≡ false = ground (arith, u'.not_null) in
                    rw nz' (
                      (
                        b.same_proc ∙ a.same_proc,
                        inr (
                          u'.not_null,
                          record {
                            dev = record { file = hf; flags = flags };
                            refs = 0;
                            ops = all_ops;
                          },
                          new-IsReady x ff b.sound u' _ (rw (b.same_hosts, a.same_hosts) live)
                              (rw (b.same_files, a.same_files) mine) refl refl,
                        ),
                      ),
                      record {
                        same_hosts = b.same_hosts ∙ a.same_hosts;
                        made = λ p g e. ground (arith, b.same_files, a.same_files, u'.no_file, e);
                      },
                    )
              ])
    ]

-- The FDFile is made for the HostFile, if there is one.
filefnew_host :
    (flags : ℕ) (w v : World) (hf : Ptr)
    → Opened w hf v
    → Holds
        (λ ff v. Made w ff v × New w v)
        ((if hf == null then pure null else filefnew hf flags) v)
filefnew_host flags w v hf o = elim o.host [
  | inl e ↦ rw e (
    (o.same_proc, inl (refl, o.sound)),
    record { kept = o.same_hosts; from = λ p g at. inl (g, rw (← o.same_files) at, refl) },
  )
  | inr (n, live, mine) ↦
      let nz : (hf == null) ≡ false = ground (arith, n) in
      rw nz (
        Holds-weaken (λ ff x. Made v ff x × Grown hf v x) _ (filefnew hf flags v)
          (filefnew-Made hf flags v o.sound live mine)
          λ ff x (m, g). ((m.0 ∙ o.same_proc, m.1), Grown-New w v x hf o n g))
]

-- Where the callback gave no file the host opens it.
callback_then_host :
    (dir : Ptr) (path : FilePath) (flags mode : ℕ) (w v : World) (hf : Ptr)
    → IsLive v dir
    → Opened w hf v
    → Holds (Opened w) ((if hf == null then host_openat dir path flags mode else pure hf) v)
callback_then_host dir path flags mode w v hf live o = elim (Bool-cases (hf == null)) [
  | inl e ↦ rw e (
      Holds-weaken (Opened v) (Opened w) (host_openat dir path flags mode v)
        (host_openat-Opened dir path flags mode v o.sound live)
        λ h x o'. record {
          sound = o'.sound;
          same_proc = o'.same_proc ∙ o.same_proc;
          host = o'.host;
          same_files = o'.same_files ∙ o.same_files;
          same_hosts = λ p e. o'.same_hosts p (rw (o.same_hosts p e) e) ∙ o.same_hosts p e;
          new = elim (Option-cases (w.host_files h)) [
            | inl z ↦ inr z
            | inr (g, z) ↦ elim o'.new [
              | inl n ↦ inl n
              | inr n ↦ absurd (ground (arith, o.same_hosts h, n, z))
            ]
          ];
        })
  | inr e ↦ rw e o
]

-- The callback is asked only without a directory.
callback-Opened :
    (dir : Ptr) (path : FilePath) (flags mode : ℕ) (w : World)
    → IsSound w
    → IsLive w dir
    → CanOpen w
    → Holds
        (λ hf v. Opened w hf v × IsLive v dir)
        ((if w.proc.tux.opts.fs_open && (dir == null)
            then callback_open path flags mode
            else pure null)
          w)
callback-Opened dir path flags mode w s live can =
    elim (Bool-cases (w.proc.tux.opts.fs_open && (dir == null))) [
      | inl e ↦
          let memory : (log : List Call)
              → int_eq (w.oracle log (Call.malloc 4)).ret (pos 0) ≡ false =
            elim can [ inl off ↦ absurd (ground arith) | inr m ↦ m ] in
          rw e (
            Holds-weaken (Opened w) _ (callback_open path flags mode w)
              (callback_open-Opened path flags mode w s memory) λ hf v o. (o, inl (ground arith)))
      | inr e ↦ rw e (
        record {
          sound = s;
          same_proc = refl;
          host = inl refl;
          same_files = refl;
          same_hosts = λ p e. refl;
          new = inl refl;
        },
        live,
      )
    ]

-- filenew returns NULL or an FDFile that no descriptor has yet, and the counts stay right.
pub filenew-Made :
    (dir : Ptr) (path : FilePath) (flags mode : ℕ) (w : World)
    → IsSound w
    → IsLive w dir
    → CanOpen w
    → Holds (λ ff v. Made w ff v × New w v) (filenew dir path flags mode w)
unfolding filenew
filenew-Made dir path flags mode w s live can =
    Holds-bind (λ hf v. Opened w hf v × IsLive v dir) _ _ _
      (callback-Opened dir path _ mode w s live can)
      λ hf v (o, l).
        Holds-bind (Opened w) _ _ _ (callback_then_host dir path _ mode w v hf l o)
          λ hf' v' o'. filefnew_host flags w v' hf' o'
