-- ===== src/Elf/Static.antt =====
-- elfinterp of a program that names no dynamic linker.
use libtux.Base.{◌≡◌, refl, ◌==◌, false, List, [], ◌∷◌, All, none, leb, Bool-cases, inl, inr}
use libtux.World.{World, ok}
use libtux.Elf.{ProgHeader, FileHeader, pt_interp}
use libtux.Elf.Buf.{Buf}
use libtux.Elf.Program.{phnum_max, interp_loop, elfinterp}
use libtux.Elf.Layout.{HasHeaders, read_headers-encode}

abbrev pub IsStatic : List ProgHeader → Type 0
IsStatic ps = All (λ p. (p.type == pt_interp) ≡ false) ps

interp_loop-IsStatic :
    (prog : Buf) (ps : List ProgHeader) (w : World)
    → IsStatic ps
    → interp_loop prog ps w ≡ ok none w
unfolding interp_loop
interp_loop-IsStatic prog [] w all = refl
interp_loop-IsStatic prog (p ∷ ps) w (here, rest) = rw here (interp_loop-IsStatic prog ps w rest)

pub elfinterp-IsStatic :
    (prog : Buf) (h : FileHeader) (ps : List ProgHeader) (w : World)
    → HasHeaders w.mem prog h ps
    → IsStatic ps
    → elfinterp prog w ≡ ok none w
unfolding elfinterp
elfinterp-IsStatic prog h ps w has all =
    rw (read_headers-encode w prog h ps has).0 (elim (Bool-cases (leb phnum_max h.phnum)) [
      | inl e ↦ rw e refl
      | inr e ↦ rw (e, (read_headers-encode w prog h ps has).1) (interp_loop-IsStatic prog ps w all)
    ])
