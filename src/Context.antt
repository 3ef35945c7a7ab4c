-- ===== src/Context.antt =====
-- src/pal/platform.c and src/pal/ctx.c: the platform, and the context of a thread.
use libtux.Base.{
  ℕ, ◌*◌, ◌==◌, Bool, false, not, ◌||◌, Option, none, some, if◌then◌else◌, bit_or, pos, is_neg,
  int_eq,
}
use libtux.World.{Ptr, null, Call, AddrSpace, Cmd, ◌>>=◌, ◌>>◌, pure, ask, assert}
use libtux.Types.Prot
use libtux.Types.Map
use libtux.Host.{malloc}
use libtux.Host.Memory.{host_mmap, host_mprotect}
use libtux.AddrSpace.{PlatOptions}

unfoldable pub gb : ℕ → ℕ
gb x = x * 1024 * 1024 * 1024

-- Every space has four GiB, in a reservation of 256.
unfoldable pub lfi_new_plat : ℕ → Cmd (Option PlatOptions)
unfolding gb
lfi_new_plat pagesize = do
  plat ← malloc 48
  if plat == null then pure none else do
    bm ← ask (Call.boxmap_new (gb 4) (gb 4) 0)
    if int_eq bm.ret (pos 0) then pure none else do
      reserved ← ask (Call.boxmap_reserve (gb 256))
      if int_eq reserved.ret (pos 0)
          then pure none
          else pure (some (record { pagesize = pagesize; vmsize = gb 4; sysexternal = false }))

-- The page of entry points: in memory of its own, or in the first page of the space.
unfoldable pub sysalloc : PlatOptions → ℕ → Cmd Ptr
sysalloc plat base = if plat.sysexternal then malloc 2064 else do
  a ←
      host_mmap base plat.pagesize (bit_or Prot.read Prot.write)
        (bit_or (bit_or Map.private Map.anonymous) Map.fixed) null (pos 0)
  pure (if is_neg a.ret then null else base)

-- What is written to the page are addresses of assembly; then it is read-only.
unfoldable pub syssetup : PlatOptions → ℕ → Cmd (Unit {0})
syssetup plat base = do
  err ← host_mprotect base plat.pagesize Prot.read
  assert (int_eq err (pos 0))

unfoldable pub lfi_ctx_new : PlatOptions → AddrSpace → Bool → Cmd Ptr
lfi_ctx_new plat space main = do
  ctx ← malloc 512
  if ctx == null || not (main || plat.sysexternal) then pure ctx else do
    sys ← sysalloc plat space.base
    if sys == null then pure null else do syssetup plat space.base; pure ctx
