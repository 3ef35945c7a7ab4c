-- ===== src/Process/Space.antt =====
-- The space and the context of a new process: what procnewfile of src/proc.c makes before it loads.
use libtux.Base.{
  ℕ, ◌+◌, ◌*◌, ◌^◌, ◌≤◌, ◌<◌, ◌≡◌, ◌⊎◌, true, false, List, ◌∷◌, Option, none, some, arith, pos,
  pos_part, int_eq,
}
use libtux.World.{Call, Answer, AddrSpace, World, Run, ok, aborted, fault}
use libtux.World.Total.{Unless}
use libtux.Align.{word_mod}
use libtux.Host.{malloc}
use libtux.Host.Memory.{host_mmap, host_mprotect}
use libtux.AddrSpace.{PlatOptions, as_new}
use libtux.AddrSpace.Frame.{Same, SameProc}
use libtux.Context.{gb, lfi_ctx_new, sysalloc, syssetup}
use libtux.Elf.{codemax}
use libtux.Elf.Program.{stacksize}

pub SameProc-Unless :
    {A : Type 0} (w : World) (r : Run A) → SameProc w r → Unless (λ _ v. Same w v) r
SameProc-Unless w (ok a v) h = h
SameProc-Unless w aborted h = tt
SameProc-Unless w fault h = h

-- boxmap gives addresses that are words, apart from a range of the host's.
abbrev pub GivesSpace : (List Call → Call → Answer) → ℕ → ℕ → ℕ → Type 0
GivesSpace o n lo hi =
    (log : List Call)
    → int_eq (o log (Call.boxmap_addspace n)).ret (pos 0) ≡ false
    → (pos_part (o log (Call.boxmap_addspace n)).ret + n < word_mod)
      × ((hi ≤ pos_part (o log (Call.boxmap_addspace n)).ret)
          ⊎ (pos_part (o log (Call.boxmap_addspace n)).ret + n ≤ lo))

-- A space with room for a process, apart from a range.
pub record IsRoomy (space : AddrSpace) (lo hi : ℕ) : Type 0 where
  pub begins : 0 < space.minaddr
  pub room : space.minaddr + 2 * codemax + 2 ^ 29 + stacksize ≤ space.maxaddr
  pub small : space.maxaddr < word_mod
  pub apart : (hi ≤ space.minaddr) ⊎ (space.minaddr + 2 * codemax ≤ lo)

abbrev pub Roomy : ℕ → ℕ → World → Option AddrSpace → World → Type 0
Roomy lo hi w none v = Same w v
Roomy lo hi w (some space) v = Same w v × IsRoomy space lo hi

module _ (plat : PlatOptions) (size : plat.vmsize ≡ gb 4) (page : plat.pagesize ≤ gb 1) where
  pub as_new-Roomy :
      (w : World) (lo hi : ℕ)
      → GivesSpace w.oracle plat.vmsize lo hi
      → Unless (Roomy lo hi w) (as_new plat w)
  unfolding as_new gb malloc
  as_new-Roomy w lo hi gives = ground (arith, gives (Call.malloc 144 ∷ w.log), size, page)

pub lfi_ctx_new-Same :
    (plat : PlatOptions) (space : AddrSpace) (w : World)
    → Unless (λ _ v. Same w v) (lfi_ctx_new plat space true w)
unfolding lfi_ctx_new malloc sysalloc syssetup host_mmap host_mprotect
lfi_ctx_new-Same plat space w = ground arith
