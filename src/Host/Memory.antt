-- ===== src/Host/Memory.antt =====
-- Mappings of the host: host_mmap and host_mprotect of src/host/posix/file.c.
use libtux.Base.{ℕ, ◌==◌, if◌then◌else◌, ℤ, neg}
use libtux.World.{Ptr, null, Call, Answer, Cmd, ◌>>=◌, pure, ask}
use libtux.Host.{checked, host_fd}
use libtux.Host.Flags.{mmapprot, mmapflags}

-- The kernel's answer, which is negative for the pointer -1.
unfoldable pub host_mmap : ℕ → ℕ → ℕ → ℕ → Ptr → ℤ → Cmd Answer
unfolding host_fd mmapprot mmapflags
host_mmap addr length prot flags file offset = do
  fd ← if file == null then pure (neg 1) else host_fd file
  ask (Call.mmap addr length (mmapprot prot) (mmapflags flags) fd offset)

unfoldable pub host_mprotect : ℕ → ℕ → ℕ → Cmd ℤ
unfolding checked mmapprot
host_mprotect addr length prot = do
  a ← ask (Call.mprotect addr length (mmapprot prot))
  pure (checked a a.ret)
