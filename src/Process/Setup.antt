-- ===== src/Process/Setup.antt =====
-- procsetup of src/proc.c: from the files and the arguments to the process.
use libtux.Base.{ℕ, ◌*◌, ◌^◌, ◌<◌, ◌≡◌, Bool, List}
use libtux.World.{AddrSpace, World}
use libtux.Align.{word_mod}
use libtux.Elf.{ProgHeader, FileHeader}
use libtux.Elf.Buf.{Buf}
use libtux.Elf.Program.{LoadOpts, stacksize}
use libtux.Process.Begun.{Begun}

module _ (safe : Bool) (prog interp : Buf) (h h' : FileHeader) (ps ps' : List ProgHeader)
    (args : List (List ℕ)) (w : World) (k m : ℕ) (split : 2 ^ k * 2 ^ m ≡ word_mod)
    (page : 2 ^ k < word_mod) (page' : w.proc.tux.opts.pagesize ≡ 2 ^ k)
    (small : w.proc.p_as.maxaddr < word_mod) where
  abbrev pub opts : LoadOpts
  opts = record { stacksize = stacksize; pagesize = 2 ^ k; perf = w.proc.tux.opts.perf }
