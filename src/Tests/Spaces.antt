-- ===== src/Tests/Spaces.antt =====
-- The heap, the guest's pointers, and the alignment of addresses.
use libtux.Base.{◌+◌, ◌≡◌, refl, [], ◌∷◌, some, pos, neg, arith}
use libtux.World.{null, Call, World, ok, aborted}
use libtux.Align.{ceilp}
use libtux.Host.Memory.{host_mmap}
use libtux.Host.Flags.{mmapprot, mmapflags}
use libtux.AddrSpace.{as_mapat, map_or_undo, asmap, cbunmap}
use libtux.AddrSpace.Access.{procpath}
use libtux.AddrSpace.Paths.{IsPath, procpath_sound, procpath_complete}
use libtux.Syscalls.Mem.{brk_growth, brk_prot, brk_flags, sys_brk}
use libtux.Syscalls.Brk.{HasBrk, BrkResult, sys_brk_aborts, sys_brk-HasBrk}
use libtux.Tests.Demo.{demo, heap}

demo-HasBrk : HasBrk demo.proc
demo-HasBrk = record { region = ground arith; within = ground arith }

sys_brk-HasBrk_example : BrkResult demo.proc (sys_brk (heap + 8192) demo)
sys_brk-HasBrk_example = sys_brk-HasBrk demo (heap + 8192) demo-HasBrk

sys_brk_aborts_example : sys_brk (heap + 1073741824) demo ≡ aborted
sys_brk_aborts_example = sys_brk_aborts demo (heap + 1073741824) demo-HasBrk (ground arith)

-- The calls for the page that the break grows by.
abbrev grown : World
grown = record demo {
  log =
      Call.mmap (heap + 4096) 904 3 50 (neg 1) (pos 0) ∷ Call.mm_mapat (heap + 4096) 904 3 34 ∷ [];
}

page-mapped :
    as_mapat demo.proc.p_as
      (brk_growth demo.proc 5000).0
      (brk_growth demo.proc 5000).1
      brk_prot
      brk_flags
      null
      (pos 0)
      demo
    ≡ ok (heap + 4096) grown
unfolding as_mapat map_or_undo asmap cbunmap host_mmap mmapprot mmapflags brk_growth ceilp
page-mapped = refl

path_accepted : procpath heap demo ≡ ok (some (104 ∷ 105 ∷ [])) demo
path_accepted =
    procpath_complete demo heap 2 (ground arith) (ground arith) (ground arith) (ground arith)
      (λ i lt. ground arith) refl

procpath_sound_example : (demo ≡ demo) × IsPath demo heap (104 ∷ 105 ∷ [])
procpath_sound_example = procpath_sound demo demo heap (104 ∷ 105 ∷ []) path_accepted
