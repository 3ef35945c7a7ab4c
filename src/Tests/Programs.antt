-- ===== src/Tests/Programs.antt =====
-- An ELF file with one segment, loaded into the space of the process.
use libtux.Base.{
  ℕ, ◌+◌, ◌-◌, ◌^◌, ◌≡◌, refl, false, List, [], ◌∷◌, ◌++◌, Option, none, some, arith, inl,
}
use libtux.World.{World, Run, ok, aborted, fault}
use libtux.World.Memory.{copy_to}
use libtux.World.Fields.{fields, encode}
use libtux.Align.{truncp, ceilp}
use libtux.Host.Memory.{host_mmap, host_mprotect}
use libtux.Host.Flags.{mmapprot, mmapflags}
use libtux.Host.{checked, malloc}
use libtux.AddrSpace.{as_mapat, as_mprotect, asmap, cbunmap, map_or_undo}
use libtux.AddrSpace.Placed.{MapsWhereAsked}
use libtux.Elf.{
  FileHeader, ProgHeader, elf_magic, et_dyn, pt_load, file_header, prog_header, prog_headers,
  segment, elfcheck, pflags,
}
use libtux.Elf.Buf.{Buf, bufget, bufread, read_count}
use libtux.Elf.Load.{
  load, load_with, load_loop, place, advance, bufreadelfseg, sanitize, read_header,
  read_prog_headers,
}
use libtux.Elf.Layout.{HasHeaders, file_layout, encode_all, read_headers-encode}
use libtux.Elf.Bounds.{NoWrap, IsPlaced, segment-IsPlaced, segment_overruns}
use libtux.Elf.Apart.{IsGood}
use libtux.Elf.Program.{LoadOpts}
use libtux.Tests.Demo.{demo, demo_space}

abbrev pub header : FileHeader
header = record {
  magic = elf_magic;
  width = 2;
  elf_ = 0;
  type = et_dyn;
  machine = 62;
  version = 1;
  entry = 16;
  phoff = 64;
  shoff = 0;
  flags = 0;
  ehsize = 64;
  phentsize = 56;
  phnum = 1;
  shentsize = 0;
  shnum = 0;
  shstrndx = 0;
}

-- The code: 120 bytes from the file, 200 in memory.
abbrev pub code : ProgHeader
code = record {
  type = pt_load;
  flags = 5;
  offset = 0;
  vaddr = 0;
  paddr = 0;
  filesz = 120;
  memsz = 200;
  align = 4096;
}

abbrev image : List ℕ
image = encode (file_layout header) ++ encode_all (code ∷ [])

abbrev pub file : Buf
file = record { ptr = 8192; size = 120 }

abbrev pub with_image : World
with_image = record demo { mem = copy_to demo.mem 8192 image }

pub image_there : HasHeaders with_image.mem file header (code ∷ [])
image_there = record {
  size_small = ground arith;
  header_in = ground arith;
  headers_in = ground arith;
  number = refl;
  header_fits = ground arith;
  headers_fit = ground arith;
  header_bytes = refl;
  headers_bytes = refl;
}

read_headers-encode_example :
    (read_header file with_image ≡ ok (some header) with_image)
    × (read_prog_headers file header with_image ≡ ok (some (code ∷ [])) with_image)
read_headers-encode_example = read_headers-encode with_image file header (code ∷ []) image_there

pub code-NoWrap : NoWrap code
code-NoWrap = record { address = ground arith; reach = ground arith }

pub demo-MapsWhereAsked : MapsWhereAsked with_image.oracle
demo-MapsWhereAsked log addr size prot flags e = refl

-- The file as the program, and as its own dynamic linker.
pub image_IsGood : IsGood demo_space with_image file header (code ∷ [])
image_IsGood = (
  record { headers = image_there; apart = inl (ground arith) },
  ((code-NoWrap, ground arith), tt),
)

abbrev load_opts : LoadOpts
load_opts = record { stacksize = 65536; pagesize = 2 ^ 12; perf = false }

-- The value that a run returns.
abbrev pub returned : {A : Type 0} → Run A → Option A
returned (ok a w) = some a
returned aborted = none
returned fault = none

-- The file is loaded.
loads :
    returned (load false demo_space file demo_space.minaddr 4096 with_image)
    ≡ some (
        some (record {
          first = demo_space.minaddr;
          last = demo_space.minaddr + 4096;
          entry = demo_space.minaddr + 16;
        }))
unfolding load load_with load_loop place advance bufreadelfseg sanitize read_header
    read_prog_headers bufget bufread read_count fields file_header prog_header prog_headers segment
    elfcheck pflags as_mapat as_mprotect asmap cbunmap map_or_undo host_mmap host_mprotect mmapprot
    mmapflags checked malloc truncp ceilp
loads = refl

segment-IsPlaced_example : IsPlaced (2 ^ 12) 0 code (record { start = 0; stop = 4096; offset = 0 })
segment-IsPlaced_example =
    segment-IsPlaced 12 52 refl code code-NoWrap false 0
      (record { start = 0; stop = 4096; offset = 0 }) code_segment
  where
    code_segment : segment 4096 false 0 code ≡ some (record { start = 0; stop = 4096; offset = 0 })
    code_segment = unfold segment truncp ceilp in refl

-- Of the 2 ^ 64 - 1 bytes in memory, 8192 are in the file.
abbrev wrapping : ProgHeader
wrapping = record code { vaddr = 4095; memsz = 2 ^ 64 - 1; filesz = 8192 }

segment_overruns_example :
    segment 4096 false 0 wrapping ≡ some (record { start = 0; stop = 4096; offset = 4095 })
segment_overruns_example =
    segment_overruns wrapping 1 0 refl (ground arith) (ground arith) (ground arith) refl
      (ground arith)
