-- ===== src/Perf/Lines.antt =====
-- The map that is written, read again line by line as a profiler does.
use mathlib.Core.List.{append_assoc}
use libtux.Base.{
  ℕ, zero, suc, ◌+◌, ◌*◌, ◌^◌, ◌<◌, ◌≡◌, ◌≢◌, ◌==◌, refl, ap, ◌∙◌, List, [], ◌∷◌, ◌++◌,
  if◌then◌else◌, arith, All,
}
use libtux.Perf.{hex, line}
use libtux.Perf.Hex.{from_hex, digit_value, IsDigit, hex-IsDigit, from_hex-hex}

-- A symbol as a profiler has it.
pub record Entry : Type 0 where
  pub address : ℕ
  pub size : ℕ
  pub name : List ℕ

-- A number in hexadecimal up to a space, and what stands behind.
pub hex_field : ℕ → List ℕ → ℕ × List ℕ
hex_field acc [] = (acc, [])
hex_field acc (b ∷ bs) =
    let later = hex_field (acc * 16 + digit_value b) bs in if b == 32 then (acc, bs) else later

-- The bytes up to a newline, and what stands behind.
pub name_field : List ℕ → List ℕ × List ℕ
name_field [] = ([], [])
name_field (b ∷ bs) =
    let (name, rest) = name_field bs in if b == 10 then ([], bs) else (b ∷ name, rest)

-- So many lines of "START SIZE symbolname".
unfoldable pub read_map : ℕ → List ℕ → List Entry
read_map zero text = []
read_map (suc n) text =
    let (address, behind) = hex_field 0 text in
    let (size, behind') = hex_field 0 behind in
    let (name, rest) = name_field behind' in
    record { address = address; size = size; name = name } ∷ read_map n rest

hex_field-append :
    (acc : ℕ) (ds rest : List ℕ)
    → All IsDigit ds
    → hex_field acc (ds ++ (32 ∷ rest)) ≡ (from_hex acc ds, rest)
unfolding hex_field from_hex
hex_field-append acc [] rest h = refl
hex_field-append acc (d ∷ ds) rest (p, h) =
    ground (arith, p, hex_field-append (acc * 16 + digit_value d) ds rest h)

-- No newline in it.
abbrev pub IsName : List ℕ → Type 0
IsName name = All (λ b. b ≢ 10) name

name_field-append :
    (name rest : List ℕ) → IsName name → name_field (name ++ (10 ∷ rest)) ≡ (name, rest)
unfolding name_field
name_field-append [] rest h = refl
name_field-append (b ∷ name) rest (p, h) = ground (arith, p, name_field-append name rest h)

number_read :
    (width n : ℕ) (rest : List ℕ)
    → n < 2 ^ 64
    → hex_field 0 (hex width n ++ (32 ∷ rest)) ≡ (n, rest)
number_read width n rest lt =
    hex_field-append 0 (hex width n) rest (hex-IsDigit width n)
    ∙ ap (λ v. (v, rest)) (from_hex-hex width n lt)

line_parts :
    (address size : ℕ) (name rest : List ℕ)
    → line address size name ++ rest
      ≡ hex 16 address ++ (32 ∷ (hex 8 size ++ (32 ∷ (name ++ (10 ∷ rest)))))
unfolding line
line_parts address size name rest = simp append_assoc

pub read_map-line :
    (n : ℕ) (e : Entry) (rest : List ℕ)
    → e.address < 2 ^ 64
    → e.size < 2 ^ 64
    → IsName e.name
    → read_map (suc n) (line e.address e.size e.name ++ rest) ≡ e ∷ read_map n rest
unfolding read_map
read_map-line n e rest la ls ok_name =
    rw
      (
        line_parts e.address e.size e.name rest,
        number_read 16 e.address (hex 8 e.size ++ (32 ∷ (e.name ++ (10 ∷ rest)))) la,
        number_read 8 e.size (e.name ++ (10 ∷ rest)) ls,
        name_field-append e.name rest ok_name,
      )
      refl
