-- ===== src/Process/Begun.antt =====
-- The process that procsetup leaves, once the files are loaded.
use libtux.Base.{
  ℕ, ◌+◌, ◌-◌, ◌*◌, ◌^◌, ◌≤◌, ◌<◌, ◌≡◌, sym, ap, ◌∙◌, subst, inl, inr, List, ◌∷◌, Option, none,
  some, arith, ◌==◌, if◌then◌else◌, length, pos, Bool-cases,
}
use libtux.World.{null, AddrSpace, Proc, World, Run, ok, aborted, fault, Cmd, pure, ◌>>=◌, ◌>>◌}
use libtux.World.Frame.{Kept, Keeps}
use libtux.World.Total.{Unless, Unless-bind, Holds-Unless}
use libtux.Align.{word_mod}
use libtux.Types.Prot
use libtux.AddrSpace.{as_mapat, failed, inside}
use libtux.AddrSpace.Asserted.{MappedIn, as_mapat-MappedIn}
use libtux.Elf.{ProgHeader, FileHeader, codemax, word_sub}
use libtux.Elf.Buf.{Buf}
use libtux.Elf.Load.{Loaded, mapanon}
use libtux.Elf.Program.{LoadInfo, LoadOpts, info_of}
use libtux.Elf.Loads.{IsLoaded}
use libtux.Elf.Apart.{LinkerResult, WholeResult}
use libtux.Process.Stack.{arg_block, stacksetup}
use libtux.Process.Frame.{WordsAt, StringsAt}
use libtux.Process.Layout.{HasWords, frame, IsStack, StackResult, stacksetup-StackResult}
use libtux.Process.Create.{Entry, set_break}
use libtux.Syscalls.Mem.{brkmaxsize}
use libtux.Syscalls.Brk.{HasBrk}

pub Keeps-Unless :
    {A : Type 0} (lo hi : ℕ) (P : A → Type 0) (w : World) (r : Run A)
    → Keeps lo hi P w r
    → Unless (λ a v. P a × Kept lo hi w v) r
Keeps-Unless lo hi P w (ok a v) h = h
Keeps-Unless lo hi P w aborted h = tt
Keeps-Unless lo hi P w fault h = h

-- What procsetup does once the stack is there, and once the files are loaded.
module _ (interp : Buf) (args : List (List ℕ)) (info : LoadInfo) (s : AddrSpace) where
  abbrev after_stack : Option ℕ → Cmd (Option Entry)
  after_stack stack = elim stack [
    | none ↦ pure none
    | some sp ↦ do
      set_break info.lastva
      region ← as_mapat s info.lastva brkmaxsize Prot.nothing mapanon null (pos 0)
      if region == failed
          then pure none
          else pure (
              some (record {
                pc = if interp.ptr == null then info.elfentry else info.ldentry;
                sp = sp;
              }))
  ]

  abbrev after_load : ℕ → Cmd (Option Entry)
  after_load n = do stack ← stacksetup s n args info; after_stack stack

abbrev pub continue_load : Buf → List (List ℕ) → Option LoadInfo → Cmd (Option Entry)
continue_load interp args o = elim o [
  | none ↦ pure none
  | some info ↦ λ w. after_load interp args info w.proc.p_as w.proc.tux.opts.pagesize w
]

module _ (space : AddrSpace) (small : space.maxaddr < word_mod) (opts : LoadOpts) (interp : Buf)
    (h h' : FileHeader) (ps ps' : List ProgHeader) (args : List (List ℕ)) where
  -- What procsetup leaves of a state `w`.
  pub record IsBegun (w : World) (e : Entry) (v : World) : Type 0 where
    pub main : Loaded
    pub linker : Option Loaded
    pub info : LoadInfo
    pub reported : info ≡ info_of (space.maxaddr - opts.stacksize) opts h main linker
    pub main_in : IsLoaded space space.minaddr h ps main
    pub linker_in : LinkerResult space opts interp h h' ps ps' main.last linker
    pub pc : e.pc ≡ elim linker [ none ↦ main.entry | some ld ↦ ld.entry ]
    pub sp : e.sp ≡ space.maxaddr - 2 * arg_block
    pub words : HasWords info opts.pagesize
    pub first : ℕ
    pub others : List ℕ
    pub laid : WordsAt v.mem e.sp (frame space small info opts.pagesize words args first others)
    pub strings : StringsAt v.mem (space.maxaddr - arg_block) space.maxaddr (first ∷ others) args
    pub proc : v.proc ≡ record w.proc { brkbase = info.lastva; brksize = 0 }
    pub fd_files : v.fd_files ≡ w.fd_files
    pub host_files : v.host_files ≡ w.host_files
    pub next : w.next ≤ v.next
    pub brk : HasBrk v.proc
    pub brk_below : info.lastva + brkmaxsize ≤ info.stack

  abbrev pub Begun : World → Option Entry → World → Type 0
  Begun w none v = Unit
  Begun w (some e) v = IsBegun w e v

  module _ (room : space.minaddr + 2 * codemax + 2 ^ 29 + opts.stacksize ≤ space.maxaddr)
      (big : 2 * arg_block ≤ opts.stacksize) (page : opts.pagesize < word_mod)
      (some_args : 0 < length args) (few : length args ≤ 471) (phnum : h.phnum < word_mod)
      (phentsize : h.phentsize < word_mod) where
    module _ (main : Loaded) (linker : Option Loaded) (is : IsLoaded space space.minaddr h ps main)
        (link : LinkerResult space opts interp h h' ps ps' main.last linker) where
      abbrev info : LoadInfo
      info = info_of (word_sub space.maxaddr opts.stacksize) opts h main linker

      ldbase_word :
          (o : Option Loaded)
          → LinkerResult space opts interp h h' ps ps' main.last o
          → elim o as (λ _. ℕ) [ none ↦ main.first | some ld ↦ ld.first ] < word_mod
      ldbase_word none l = is.first_word
      ldbase_word (some ld) (there, l) = l.first_word

      last_below :
          (o : Option Loaded)
          → LinkerResult space opts interp h h' ps ps' main.last o
          → elim o as (λ _. ℕ) [ none ↦ main.last | some ld ↦ ld.last ]
            ≤ space.minaddr + 2 * codemax
      last_below none l = omega (arith, is.ends)
      last_below (some ld) (there, l) = omega (arith, is.ends, l.ends)

      entry_of :
          (o : Option Loaded)
          → LinkerResult space opts interp h h' ps ps' main.last o
          → (if interp.ptr == null
              then main.entry
              else elim o as (λ _. ℕ) [ none ↦ 0 | some ld ↦ ld.entry ])
            ≡ elim o as (λ _. ℕ) [ none ↦ main.entry | some ld ↦ ld.entry ]
      entry_of none l = ground (arith, l)
      entry_of (some ld) (there, l) = ground (arith, there)

      words : HasWords info opts.pagesize
      words = record {
        ldbase = ldbase_word linker link;
        elfphnum = phnum;
        elfphentsize = phentsize;
        elfentry = omega (arith, is.entry);
        page = page;
      }

      stack_at : word_sub space.maxaddr opts.stacksize ≡ space.maxaddr - opts.stacksize
      stack_at = omega arith

      at_top : word_sub space.maxaddr opts.stacksize + opts.stacksize ≡ space.maxaddr
      at_top = omega arith

      abbrev broken : World → World
      broken v = record v { proc = record v.proc { brkbase = info.lastva; brksize = 0 } }

      region-IsBegun :
          (w u v x : World) (sp : ℕ)
          → u.proc ≡ w.proc
          → u.fd_files ≡ w.fd_files
          → u.host_files ≡ w.host_files
          → w.next ≤ u.next
          → IsStack space small info opts.pagesize words args u sp v
          → (a : ℕ) → MappedIn space info.lastva brkmaxsize (broken v) a x
          → IsBegun w
              (record { pc = if interp.ptr == null then info.elfentry else info.ldentry; sp = sp })
              x
      region-IsBegun w u v x sp same files hosts up st a
            (inside, (proc, fds, mem, _, hosts', up')) =
          record {
            main = main;
            linker = linker;
            info = info;
            reported = ap (λ s. info_of s opts h main linker) stack_at;
            main_in = is;
            linker_in = link;
            pc = entry_of linker link;
            sp = st.place ∙ ap (λ t. t - 2 * arg_block) at_top;
            words = words;
            first = st.first;
            others = st.others;
            laid =
                subst
                  (λ m.
                    WordsAt m sp
                      (frame space small info opts.pagesize words args st.first st.others))
                  (sym mem) st.laid;
            strings =
                subst (λ t. StringsAt x.mem (t - arg_block) t (st.first ∷ st.others) args) at_top
                  (subst
                    (λ m.
                      StringsAt m (info.stack + info.stacksize - arg_block)
                        (info.stack + info.stacksize) (st.first ∷ st.others) args)
                    (sym mem) st.strings);
            proc =
                proc
                ∙ ap (λ (p : Proc). record p { brkbase = info.lastva; brksize = 0 })
                    (st.kept.proc ∙ same);
            fd_files = fds ∙ st.kept.fd_files ∙ files;
            host_files = hosts' ∙ st.kept.host_files ∙ hosts;
            next = omega (arith, st.kept.next);
            brk = subst HasBrk (sym proc) (record {
              region = omega (arith, last_below linker link, room);
              within = ground arith;
            });
            brk_below = omega (arith, last_below linker link, room);
          }

      stack-Begun :
          (w u : World)
          → u.proc ≡ w.proc
          → u.fd_files ≡ w.fd_files
          → u.host_files ≡ w.host_files
          → w.next ≤ u.next
          → (o : Option ℕ) (v : World) → StackResult space small info opts.pagesize words args u o v
          → Unless (Begun w) (after_stack interp args info space o v)
      stack-Begun w u same files hosts up none v st = tt
      stack-Begun w u same files hosts up (some sp) v st =
          Unless-bind (MappedIn space info.lastva brkmaxsize (broken v)) (Begun w)
            (as_mapat space info.lastva brkmaxsize Prot.nothing mapanon null (pos 0) (broken v)) _
            (as_mapat-MappedIn space info.lastva brkmaxsize (broken v) Prot.nothing mapanon (pos 0))
            λ a x at. elim (Bool-cases (a == failed)) [
              | inl e ↦ rw e tt
              | inr e ↦ rw e (region-IsBegun w u v x sp same files hosts up st a at)
            ]

      loaded-Begun :
          (w u : World)
          → w.proc.p_as ≡ space
          → w.proc.tux.opts.pagesize ≡ opts.pagesize
          → u.proc ≡ w.proc
          → u.fd_files ≡ w.fd_files
          → u.host_files ≡ w.host_files
          → w.next ≤ u.next
          → Unless (Begun w) (after_load interp args info u.proc.p_as u.proc.tux.opts.pagesize u)
      loaded-Begun w u at page' same files hosts up =
          subst (λ s. Unless (Begun w) (after_load interp args info s u.proc.tux.opts.pagesize u))
            (sym (ap (λ (p : Proc). p.p_as) same ∙ at))
            (subst (λ n. Unless (Begun w) (after_load interp args info space n u))
              (sym (ap (λ (p : Proc). p.tux.opts.pagesize) same ∙ page'))
              (Unless-bind (StackResult space small info opts.pagesize words args u) (Begun w)
                (stacksetup space opts.pagesize args info u) (after_stack interp args info space)
                (Holds-Unless (StackResult space small info opts.pagesize words args u) _ (
                  stacksetup-StackResult space small info opts.pagesize words args u some_args few
                    (omega arith) (omega arith) (omega arith)))
                (stack-Begun w u same files hosts up)))

    pub result-Begun :
        (w : World)
        → w.proc.p_as ≡ space
        → w.proc.tux.opts.pagesize ≡ opts.pagesize
        → (o : Option LoadInfo) (u : World) → WholeResult space opts interp h h' ps ps' o
        → u.proc ≡ w.proc
        → u.fd_files ≡ w.fd_files
        → u.host_files ≡ w.host_files
        → w.next ≤ u.next
        → Unless (Begun w) (continue_load interp args o u)
    result-Begun w at page' none u r same files hosts up = tt
    result-Begun w at page' (some i) u (main, linker, e, is, link) same files hosts up =
        subst (λ i. Unless (Begun w) (continue_load interp args (some i) u)) (sym e)
          (loaded-Begun main linker is link w u at page' same files hosts up)
