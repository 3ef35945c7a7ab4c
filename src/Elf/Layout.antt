-- ===== src/Elf/Layout.antt =====
-- The loader's structs are the ones of the ELF format: reading what the format lays down gives the
-- header back.
use mathlib.Core.Path.{ap₂}
use libtux.Base.{
  ℕ, ◌+◌, ◌*◌, ◌≤◌, ◌<◌, ◌≡◌, refl, ap, ◌∙◌, List, [], ◌∷◌, ◌++◌, arith, length, All, some,
}
use libtux.World.{World, ok}
use libtux.World.Memory.{bytes_at}
use libtux.World.Fields.{encode, Fits, fields-encode}
use libtux.Align.{word_mod}
use libtux.Elf.{
  FileHeader, ProgHeader, file_header, prog_header, prog_headers, file_header_size,
  prog_header_size,
}
use libtux.Elf.Buf.{Buf, bufget, read_count}
use libtux.Elf.Load.{read_header, read_prog_headers}

-- The fields of a file header, in their order and with their widths.
abbrev pub file_layout : FileHeader → List (ℕ × ℕ)
file_layout h =
    (4, h.magic)
    ∷ (1, h.width)
    ∷ (11, h.elf_)
    ∷ (2, h.type)
    ∷ (2, h.machine)
    ∷ (4, h.version)
    ∷ (8, h.entry)
    ∷ (8, h.phoff)
    ∷ (8, h.shoff)
    ∷ (4, h.flags)
    ∷ (2, h.ehsize)
    ∷ (2, h.phentsize)
    ∷ (2, h.phnum)
    ∷ (2, h.shentsize)
    ∷ (2, h.shnum)
    ∷ (2, h.shstrndx)
    ∷ []

abbrev pub prog_layout : ProgHeader → List (ℕ × ℕ)
prog_layout p =
    (4, p.type)
    ∷ (4, p.flags)
    ∷ (8, p.offset)
    ∷ (8, p.vaddr)
    ∷ (8, p.paddr)
    ∷ (8, p.filesz)
    ∷ (8, p.memsz)
    ∷ (8, p.align)
    ∷ []

pub file_header-encode :
    (h : FileHeader) (more : List ℕ)
    → All Fits (file_layout h)
    → file_header (encode (file_layout h) ++ more) ≡ h
unfolding file_header
file_header-encode h more fits = rw (fields-encode (file_layout h) more fits) refl

prog_header-encode :
    (p : ProgHeader) (more : List ℕ)
    → All Fits (prog_layout p)
    → prog_header (encode (prog_layout p) ++ more) ≡ p
unfolding prog_header
prog_header-encode p more fits = rw (fields-encode (prog_layout p) more fits) refl

-- The bytes of an array of program headers.
abbrev pub encode_all : List ProgHeader → List ℕ
encode_all [] = []
encode_all (p ∷ ps) = encode (prog_layout p) ++ encode_all ps

length-encode_all : (ps : List ProgHeader) → length (encode_all ps) ≡ prog_header_size * length ps
length-encode_all [] = refl
length-encode_all (p ∷ ps) = omega (arith, length-encode_all ps)

pub prog_headers-encode :
    (ps : List ProgHeader)
    → All (λ p. All Fits (prog_layout p)) ps
    → prog_headers (length ps) (encode_all ps) ≡ ps
unfolding prog_headers
prog_headers-encode [] h = refl
prog_headers-encode (p ∷ ps) (fits, all) =
    ap₂ (λ q qs. q ∷ qs) (prog_header-encode p (encode_all ps) fits) (prog_headers-encode ps all)

-- Below `size`, all of `count` bytes are read.
bufget_lem :
    (buf : Buf) (count offset : ℕ) (w : World)
    → offset + count ≤ buf.size
    → buf.size < word_mod
    → bufget buf count offset w ≡ ok (bytes_at w.mem (buf.ptr + offset) count) w
unfolding bufget read_count
bufget_lem buf count offset w h lt = ground arith

-- `h` and `ps` lie in the buffer, in the layout of the format: `ps` where `h` says.
pub record HasHeaders (mem : ℕ → ℕ) (buf : Buf) (h : FileHeader) (ps : List ProgHeader)
    : Type 0 where
  pub size_small : buf.size < word_mod
  pub header_in : file_header_size ≤ buf.size
  pub headers_in : h.phoff + prog_header_size * h.phnum ≤ buf.size
  pub number : h.phnum ≡ length ps
  pub header_fits : All Fits (file_layout h)
  pub headers_fit : All (λ p. All Fits (prog_layout p)) ps
  pub header_bytes : bytes_at mem (buf.ptr + 0) file_header_size ≡ encode (file_layout h)
  pub headers_bytes : bytes_at mem (buf.ptr + h.phoff) (prog_header_size * h.phnum) ≡ encode_all ps

module _ (w : World) (buf : Buf) (h : FileHeader) (ps : List ProgHeader) where
  pub read_header-encode : HasHeaders w.mem buf h ps → read_header buf w ≡ ok (some h) w
  unfolding read_header
  read_header-encode has = rw (bufget_lem buf file_header_size 0 w has.header_in has.size_small) (
      ap (λ g. ok (some g) w)
        (ap file_header has.header_bytes ∙ file_header-encode h [] has.header_fits))

  -- The loader reads the headers that lie in the file, and changes nothing.
  pub read_headers-encode :
      HasHeaders w.mem buf h ps
      → (read_header buf w ≡ ok (some h) w) × (read_prog_headers buf h w ≡ ok (some ps) w)
  unfolding read_prog_headers
  read_headers-encode has = (
    read_header-encode has,
    rw
        (
          bufget_lem buf (prog_header_size * h.phnum) h.phoff w has.headers_in has.size_small,
          has.headers_bytes,
          has.number,
        )
        (ground (arith, length-encode_all ps, prog_headers-encode ps has.headers_fit)),
  )
