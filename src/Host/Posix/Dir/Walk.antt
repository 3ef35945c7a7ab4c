-- ===== src/Host/Posix/Dir/Walk.antt =====
-- A guest that walks over the buffer finds the directory's entries; and the bytes that the loop
-- writes behind the buffer.
use mathlib.Core.List.{append_assoc, append-nil}
use libtux.Base.{
  ℕ, zero, suc, ◌+◌, ◌-◌, ◌^◌, ◌≤◌, ◌<◌, ◌≡◌, ◌≢◌, ◌==◌, ◌⊎◌, refl, ap, sym, ◌∙◌, subst, false,
  List, [], ◌∷◌, ◌++◌, map, some, arith, length, take, drop, get_or, replicate, All, length-append,
  drop-append, if◌then◌else◌, pos, is_neg, ℤ,
}
use libtux.World.{Call, HostFile, World, ok}
use libtux.World.Memory.{bytes_at}
use libtux.World.Total.{Holds}
use libtux.World.Fields.{fields, fields-encode}
use libtux.Host.{host_fd}
use libtux.Host.Posix.Dir.{
  DirEntry, name_len, reclen, dirent_head, dirent_bytes, getdents_loop, host_getdents64,
}
use libtux.Host.Posix.Dir.Records.{
  reclen_bounds, dirent_record, records, length-dirent_record, length-name, length-replicate, total,
  IsFilled, getdents_loop-IsFilled,
}

-- The bytes before the first NUL.
until_nul : List ℕ → List ℕ
until_nul [] = []
until_nul (b ∷ bs) = let rest = until_nul bs in if b == 0 then [] else b ∷ rest

-- How a program reads `n` records of a buffer: each has its number, type and name, and says where
-- the next one begins.
pub walk : ℕ → List ℕ → List DirEntry
unfolding until_nul
walk zero bs = []
walk (suc n) bs =
    let f = fields (8 ∷ 8 ∷ 2 ∷ 1 ∷ []) bs in
    record { d_ino = get_or f 0 0; d_type = get_or f 3 0; d_name = until_nul (drop 19 bs) }
    ∷ walk n (drop (get_or f 2 0) bs)

-- The entry with its name cut to 255 bytes.
abbrev pub cut : DirEntry → DirEntry
cut e = record e { d_name = take (name_len e) e.d_name }

-- An entry of a file system: its number has 64 bits, its type 8, and there is no NUL in its name.
pub record IsEntry (e : DirEntry) : Type 0 where
  pub ino : e.d_ino < 2 ^ 64
  pub type : e.d_type < 256
  pub name : All (λ b. b ≢ 0) e.d_name

All-take : (n : ℕ) (xs : List ℕ) → All (λ b. b ≢ 0) xs → All (λ b. b ≢ 0) (take n xs)
All-take zero xs h = tt
All-take (suc n) [] h = tt
All-take (suc n) (x ∷ xs) (h, rest) = (h, All-take n xs rest)

until_nul-append : (xs rest : List ℕ) → All (λ b. b ≢ 0) xs → until_nul (xs ++ 0 ∷ rest) ≡ xs
unfolding until_nul
until_nul-append [] rest h = refl
until_nul-append (x ∷ xs) rest (h, more) = ground (arith, h, until_nul-append xs rest more)

replicate-cons : (n a : ℕ) → 0 < n → replicate n a ≡ a ∷ replicate (n - 1) a
replicate-cons zero a h = absurd (omega arith)
replicate-cons (suc n) a h = ap (λ k. a ∷ replicate k a) (omega arith)

-- A name with its padding, in front of more.
padded-eq :
    (name more : List ℕ) (n : ℕ)
    → 0 < n
    → (name ++ replicate n 0) ++ more ≡ name ++ 0 ∷ (replicate (n - 1) 0 ++ more)
padded-eq name more n h =
    append_assoc name (replicate n 0) more ∙ ap (λ z. name ++ (z ++ more)) (replicate-cons n 0 h)

-- What a program reads of the record in front of others.
read_record :
    (e : DirEntry) (more : List ℕ)
    → IsEntry e
    → (fields (8 ∷ 8 ∷ 2 ∷ 1 ∷ []) (dirent_record e ++ more)
        ≡ e.d_ino ∷ (2 ^ 64 - 1) ∷ reclen e ∷ e.d_type ∷ [])
      × (until_nul (drop 19 (dirent_record e ++ more)) ≡ take (name_len e) e.d_name)
      × (drop (reclen e) (dirent_record e ++ more) ≡ more)
read_record e more is =
    let name : List ℕ = take (name_len e) e.d_name in
    let n : ℕ = reclen e - (19 + name_len e) in
    let bounds = reclen_bounds e in
    (
      fields-encode (dirent_head e) ((name ++ replicate n 0) ++ more)
          (is.ino, (omega arith, (omega (arith, bounds), (is.type, tt)))),
      ap until_nul (padded-eq name more n (omega (arith, bounds)))
          ∙ until_nul-append name (replicate (n - 1) 0 ++ more)
              (All-take (name_len e) e.d_name is.name),
      subst (λ k. drop k (dirent_record e ++ more) ≡ more) (length-dirent_record e)
          (drop-append (dirent_record e) more),
    )

pub walk-records :
    (es : List DirEntry) (more : List ℕ)
    → All IsEntry es
    → walk (length es) (records es ++ more) ≡ map cut es
unfolding walk
walk-records [] more h = refl
walk-records (e ∷ es) more (is, rest) =
    let (f, name, behind) = read_record e (records es ++ more) is in
    rw
      (append_assoc (dirent_record e) (records es) more, f, name, behind, walk-records es more rest)
      refl

All-prefix : (xs ys : List DirEntry) → All IsEntry (xs ++ ys) → All IsEntry xs
All-prefix [] ys h = tt
All-prefix (x ∷ xs) ys (h, rest) = (h, All-prefix xs ys rest)

module _ (file dirp count : ℕ) (es : List DirEntry) (w : World) (h : HostFile)
    (live : w.host_files file ≡ some h)
    (opens : is_neg (w.oracle w.log (Call.fdopendir h.fd)).ret ≡ false) where
  -- What the guest reads in its buffer, after an answer of `r`.
  pub record IsListed (r : ℤ) (v : World) : Type 0 where
    pub taken : List DirEntry
    pub left : List DirEntry
    pub parts : es ≡ taken ++ left
    pub size : r ≡ pos (total taken)
    pub seen : walk (length taken) (bytes_at v.mem dirp (total taken)) ≡ map cut taken
    pub enough : (left ≡ []) ⊎ (count ≤ total taken)
    pub below : (a : ℕ) → a < dirp → v.mem a ≡ w.mem a

  abbrev done : World
  done = record w {
    log = Call.fdopendir h.fd ∷ w.log;
    mem = (getdents_loop count dirp 0 es w.mem).1;
  }

  host_getdents64-eq :
      host_getdents64 file dirp count es w ≡ ok (pos (getdents_loop count dirp 0 es w.mem).0) done
  unfolding host_getdents64 host_fd
  host_getdents64-eq = ground (arith, live, opens)

  -- On a posix host, and for names without NUL, the guest that walks over the buffer by d_reclen finds
  -- the entries that readdir gave, with their names cut to 255 bytes: all of them, or so many that
  -- they fill the buffer.
  pub host_getdents64-IsListed :
      All IsEntry es → Holds IsListed (host_getdents64 file dirp count es w)
  host_getdents64-IsListed entries = rw host_getdents64-eq (record {
    taken = filled.taken;
    left = filled.left;
    parts = filled.parts;
    size = ap pos all;
    seen =
        ap (walk (length filled.taken)) buffer
        ∙ subst (λ bs. walk (length filled.taken) bs ≡ map cut filled.taken)
            (append-nil (records filled.taken))
            (walk-records filled.taken []
              (All-prefix filled.taken filled.left (subst (All IsEntry) filled.parts entries)));
    enough = subst (λ n. (filled.left ≡ []) ⊎ (count ≤ n)) all filled.enough;
    below = λ a lt. filled.before a (omega arith);
  })
    where
      r : ℕ × (ℕ → ℕ)
      r = getdents_loop count dirp 0 es w.mem

      filled : IsFilled count dirp 0 w.mem es r
      filled = getdents_loop-IsFilled count dirp 0 es w.mem

      all : r.0 ≡ total filled.taken
      all = omega (arith, filled.size)

      start : dirp + 0 ≡ dirp
      start = omega arith

      buffer : bytes_at r.1 dirp (total filled.taken) ≡ records filled.taken
      buffer =
          subst (λ p. bytes_at r.1 p (total filled.taken) ≡ records filled.taken) start filled.holds

get_or-behind : (xs ys : List ℕ) (i : ℕ) → get_or (xs ++ ys) (length xs + i) 0 ≡ get_or ys i 0
get_or-behind [] ys i = let e : 0 + i ≡ i = omega arith in rw e refl
get_or-behind (x ∷ xs) ys i =
    let e : suc (length xs) + i ≡ suc (length xs + i) = omega arith in rw e (get_or-behind xs ys i)

get_or-zeros : (n i z : ℕ) → get_or (replicate n z) i z ≡ z
get_or-zeros zero i z = refl
get_or-zeros (suc n) zero z = refl
get_or-zeros (suc n) (suc i) z = get_or-zeros n i z

-- The struct has 280 bytes, the last of them 0.
dirent_bytes_last :
    (e : DirEntry) → (length (dirent_bytes e) ≡ 280) × (get_or (dirent_bytes e) 279 0 ≡ 0)
unfolding dirent_bytes
dirent_bytes_last e =
    let name : List ℕ = take (name_len e) e.d_name in
    let zeros : List ℕ = replicate (261 - name_len e) 0 in
    let at : 260 ≡ length name + (260 - name_len e) =
      omega (arith, length-name e, reclen_bounds e) in
    (
      omega (
        arith,
        length-append name zeros,
        length-name e,
        length-replicate (261 - name_len e) 0,
        reclen_bounds e,
      ),
      subst (λ i. get_or (name ++ zeros) i 0 ≡ 0) (sym at)
          (get_or-behind name zeros (260 - name_len e)
            ∙ get_or-zeros (261 - name_len e) (260 - name_len e) 0),
    )

-- A buffer of 1 to 279 bytes is written beyond its end for the first entry, whatever its name: the
-- byte 279 behind its beginning becomes 0.
pub getdents_overruns :
    (count dirp : ℕ) (e : DirEntry) (mem : ℕ → ℕ)
    → 0 < count
    → count < 280
    → (getdents_loop count dirp 0 (e ∷ []) mem).1 (dirp + 279) ≡ 0
unfolding getdents_loop
getdents_overruns count dirp e mem pos_ small =
    let (len, last) = dirent_bytes_last e in
    let at : dirp + 279 - (dirp + 0) ≡ 279 = omega arith in
    ground (arith, len, last, ap (λ i. get_or (dirent_bytes e) i 0) at)
