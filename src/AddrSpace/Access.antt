-- ===== src/AddrSpace/Access.antt =====
-- Guest pointers: procaddr, procbuf, procbufalign and procpath of src/syscalls/syscalls.h.
use libtux.Base.{ℕ, zero, suc, ◌+◌, ◌%◌, ◌==◌, not, Option, none, some, leb, if◌then◌else◌}
use libtux.World.{Ptr, null, FilePath, World, Cmd, gets}
use libtux.World.Memory.{bytes_at}
use libtux.AddrSpace.{as_fmptr, as_validptr}

-- TUX_PATH_MAX
abbrev pub path_max : ℕ
path_max = 4096

unfoldable pub procaddr : World → ℕ → ℕ
procaddr w addr = as_validptr w.proc.p_as addr

-- The size is not looked at.
unfoldable pub procbuf : ℕ → ℕ → Cmd Ptr
procbuf bufp size = gets (λ w. as_fmptr w.proc.p_as bufp)

unfoldable pub procbufalign : ℕ → ℕ → ℕ → Cmd Ptr
procbufalign bufp size align = gets (λ w.
    let buf = as_fmptr w.proc.p_as bufp in
    if buf == null then null else if not (buf % align == 0) then null else buf)

-- strnlen
unfoldable pub strnlen : (ℕ → ℕ) → Ptr → ℕ → ℕ
strnlen mem p zero = 0
strnlen mem p (suc n) = let rest = strnlen mem (suc p) n in if mem p == 0 then 0 else suc rest

-- The path is passed on as the bytes of the C string.
unfoldable pub procpath : ℕ → Cmd (Option FilePath)
procpath pathp = gets (λ w.
    let str = as_fmptr w.proc.p_as pathp in
    if str == null
    then none
    else let len = strnlen w.mem str path_max in
      if leb w.proc.p_as.maxaddr (str + len)
      then none
      else if not (w.mem (str + len) == 0)
      then none
      else some (bytes_at w.mem str len))
