-- ===== src/Perf/Whole.antt =====
-- The whole map of a file, section by section.
use mathlib.Core.List.{append_assoc, append-nil}
use libtux.Base.{
  ℕ, zero, suc, ◌+◌, ◌/◌, ◌%◌, ◌^◌, ◌<◌, ◌≡◌, ◌≢◌, ◌==◌, refl, ap, sym, ◌∙◌, subst, true, false,
  Bool, Bool-cases, inl, inr, Option, none, some, List, [], ◌∷◌, ◌++◌, length, length-append,
  if◌then◌else◌, arith, All,
}
use libtux.Align.{word_mod}
use libtux.Perf.{
  SectionHeader, Symbol, LibElf, sht_symtab, line, or_no_name, Written, whole, symbol_line,
  symbol_loop, section, section_loop, with_map_open, perf_output_jit_interface_file,
}
use libtux.Perf.Lines.{Entry, read_map, IsName, read_map-line}

module _ (lib : LibElf) (e : lib.File) (offset : ℕ) where
  -- A symbol where the program was loaded.
  abbrev pub entry_of : SectionHeader → Symbol → Entry
  entry_of shdr s = record {
    address = (s.st_value + offset) % word_mod;
    size = s.st_size;
    name = or_no_name (lib.elf_strptr e shdr.sh_link s.st_name);
  }

  abbrev pub if_there : SectionHeader → Option Symbol → List Entry
  if_there shdr none = []
  if_there shdr (some s) = entry_of shdr s ∷ []

  -- The symbols of a table, less those that libelf cannot read.
  pub table_entries : ℕ → ℕ → lib.Data → SectionHeader → List Entry
  table_entries zero i data_ shdr = []
  table_entries (suc n) i data_ shdr =
      if_there shdr (lib.gelf_getsym data_ i) ++ table_entries n (suc i) data_ shdr

  abbrev pub data_entries : SectionHeader → Option lib.Data → List Entry
  data_entries shdr none = []
  data_entries shdr (some data_) = table_entries (shdr.sh_size / shdr.sh_entsize) 0 data_ shdr

  abbrev pub header_entries : lib.Section → Option SectionHeader → List Entry
  header_entries scn none = []
  header_entries scn (some shdr) =
      if shdr.sh_type == sht_symtab then data_entries shdr (lib.elf_getdata scn) else []

  pub entries : List lib.Section → List Entry
  entries [] = []
  entries (scn ∷ scns) = header_entries scn (lib.gelf_getshdr scn) ++ entries scns

  -- A symbol table that libelf can read, with entries of a size, and names of one line.
  pub record IsTable (shdr : SectionHeader) (data_ : lib.Data) : Type 0 where
    pub sized : shdr.sh_entsize ≢ 0
    pub symbols :
        (i : ℕ) (s : Symbol)
        → lib.gelf_getsym data_ i ≡ some s
        → (s.st_size < 2 ^ 64) × IsName (or_no_name (lib.elf_strptr e shdr.sh_link s.st_name))

  -- A section that is no symbol table, or such a one.
  pub record IsReadable (scn : lib.Section) : Type 0 where
    pub header : SectionHeader
    pub there : lib.gelf_getshdr scn ≡ some header
    pub table :
        header.sh_type ≡ sht_symtab
        → (data_ : lib.Data) × (lib.elf_getdata scn ≡ some data_) × IsTable header data_

  Reads : List ℕ → List Entry → Type 0
  Reads text es =
      (m : ℕ) (rest : List ℕ) → read_map (length es + m) (text ++ rest) ≡ es ++ read_map m rest

  Reads-append :
      (text : List ℕ) (es : List Entry) (text' : List ℕ) (es' : List Entry)
      → Reads text es
      → Reads text' es'
      → Reads (text ++ text') (es ++ es')
  unfolding Reads
  Reads-append text es text' es' r r' m rest =
      let both : length (es ++ es') + m ≡ length es + (length es' + m) =
        omega (arith, length-append es es') in
      subst (λ n. read_map n ((text ++ text') ++ rest) ≡ (es ++ es') ++ read_map m rest) (sym both)
        (ap (read_map (length es + (length es' + m))) (append_assoc text text' rest)
          ∙ r (length es' + m) (text' ++ rest)
          ∙ ap (λ l. es ++ l) (r' m rest)
          ∙ sym (append_assoc es es' (read_map m rest)))

  nothing-Reads : Reads [] []
  unfolding Reads
  nothing-Reads m rest = let same : 0 + m ≡ m = omega arith in ap (λ n. read_map n rest) same

  symbol-Reads :
      (shdr : SectionHeader) (o : Option Symbol)
      → ((s : Symbol)
          → o ≡ some s
          → (s.st_size < 2 ^ 64) × IsName (or_no_name (lib.elf_strptr e shdr.sh_link s.st_name)))
      → Reads (symbol_line lib e offset shdr o) (if_there shdr o)
  unfolding Reads
  symbol-Reads shdr none h m rest = nothing-Reads m rest
  symbol-Reads shdr (some s) h m rest =
      let (small, name) = h s refl in
      let next : suc m ≡ 1 + m = omega arith in
      let en = entry_of shdr s in
      subst (λ n. read_map n (line en.address en.size en.name ++ rest) ≡ en ∷ read_map m rest) next
        (read_map-line m en rest (omega arith) small name)

  table-Reads :
      (shdr : SectionHeader) (data_ : lib.Data)
      → IsTable shdr data_
      → (n i : ℕ) → Reads (symbol_loop lib e offset n i data_ shdr) (table_entries n i data_ shdr)
  unfolding symbol_loop table_entries
  table-Reads shdr data_ t zero i = nothing-Reads
  table-Reads shdr data_ t (suc n) i =
      Reads-append (symbol_line lib e offset shdr (lib.gelf_getsym data_ i))
        (if_there shdr (lib.gelf_getsym data_ i)) (symbol_loop lib e offset n (suc i) data_ shdr)
        (table_entries n (suc i) data_ shdr)
        (symbol-Reads shdr (lib.gelf_getsym data_ i) (t.symbols i))
        (table-Reads shdr data_ t n (suc i))

  -- What the loop over sections writes.
  abbrev Wrote : List lib.Section → Option Written → Type 0
  Wrote scns o = (text : List ℕ) × (o ≡ some (whole text)) × Reads text (entries scns)

  section-Wrote :
      (scn : lib.Section) (scns : List lib.Section)
      → IsReadable scn
      → (o : Option Written) → Wrote scns o
      → Wrote (scn ∷ scns) (section lib e offset scn o)
  unfolding section entries
  section-Wrote scn scns r o (text, wrote, reads) =
      elim (Bool-cases (r.header.sh_type == sht_symtab)) [
        | inl is ↦
            let (data_, d, t) = r.table (ground (arith, is)) in
            let first =
              symbol_loop lib e offset (r.header.sh_size / r.header.sh_entsize) 0 data_ r.header in
            let sized : (r.header.sh_entsize == 0) ≡ false = ground (arith, t.sized) in
            (
              first ++ text,
              rw (r.there, section, is, d, sized, wrote) refl,
              rw (r.there, is, d)
                  (Reads-append first
                    (table_entries (r.header.sh_size / r.header.sh_entsize) 0 data_ r.header) text
                    (entries scns)
                    (table-Reads r.header data_ t (r.header.sh_size / r.header.sh_entsize) 0)
                    reads),
            )
        | inr not_ ↦ (text, rw (r.there, section, not_) wrote, rw (r.there, not_) reads)
      ]

  loop-Wrote :
      (scns : List lib.Section) → All IsReadable scns → Wrote scns (section_loop lib e offset scns)
  unfolding section_loop entries
  loop-Wrote [] h = ([], refl, nothing-Reads)
  loop-Wrote (scn ∷ scns) (r, h) =
      section-Wrote scn scns r (section_loop lib e offset scns) (loop-Wrote scns h)

with_map_open-whole :
    (version strings : Bool) (o : Option Written) (text : List ℕ)
    → version ≡ true
    → strings ≡ true
    → o ≡ some (whole text)
    → with_map_open version strings o ≡ some (0, some text)
with_map_open-whole version strings o text v s w = rw (v, s, w) refl

-- Where libelf opens and reads the file and every symbol table in it, with sizes of 64 bits and names
-- without a newline, the file that is written, read line by line, gives back every symbol that
-- libelf could read: its address with the offset added, its size, and its name or "<no name>".
pub perf_output-reads :
    (lib : LibElf) (e : lib.File) (buffer : List ℕ) (offset : ℕ)
    → lib.elf_memory buffer ≡ some e
    → lib.elf_version ≡ true
    → lib.elf_getshdrstrndx e ≡ true
    → All (IsReadable lib e offset) (lib.sections e)
    → (text : List ℕ) × (perf_output_jit_interface_file lib true buffer offset
        ≡ some (0, some text))
      × (read_map (length (entries lib e offset (lib.sections e))) text
          ≡ entries lib e offset (lib.sections e))
unfolding perf_output_jit_interface_file Reads read_map
perf_output-reads lib e buffer offset opened version strings readable =
    let all = entries lib e offset (lib.sections e) in
    let (text, wrote, reads) = loop-Wrote lib e offset (lib.sections e) readable in
    let size : length all + 0 ≡ length all = omega arith in
    (
      text,
      rw (opened, perf_output_jit_interface_file)
          (with_map_open-whole lib.elf_version (lib.elf_getshdrstrndx e)
            (section_loop lib e offset (lib.sections e)) text version strings wrote),
      ap (λ n. read_map n text) (sym size)
          ∙ ap (read_map (length all + 0)) (sym (append-nil text))
          ∙ reads 0 []
          ∙ append-nil all,
    )
