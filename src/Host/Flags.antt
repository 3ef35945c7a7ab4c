-- ===== src/Host/Flags.antt =====
-- The translations of flag words, src/host/posix/file.c. On Linux the host's bits are the guest's.
use libtux.Base.{ℕ, ◌≡◌, if◌then◌else◌, bit_and, bit_or, arith}
use libtux.Types.{has, at_removedir}
use libtux.Types.Open
use libtux.Types.Prot
use libtux.Types.Map

unfoldable pub openflags : ℕ → ℕ
openflags flags =
    bit_or
      (bit_or
        (bit_or
          (bit_or
            (bit_or
              (bit_or (if has flags Open.rdonly then Open.rdonly else 0)
                (if has flags Open.wronly then Open.wronly else 0))
              (if has flags Open.rdwr then Open.rdwr else 0))
            (if has flags Open.creat then Open.creat else 0))
          (if has flags Open.append then Open.append else 0))
        (if has flags Open.nonblock then Open.nonblock else 0))
      (if has flags Open.directory then Open.directory else 0)

unfoldable pub mmapprot : ℕ → ℕ
mmapprot prot =
    bit_or
      (bit_or (if has prot Prot.read then Prot.read else 0)
        (if has prot Prot.write then Prot.write else 0))
      (if has prot Prot.exec then Prot.exec else 0)

unfoldable pub mmapflags : ℕ → ℕ
mmapflags flags =
    bit_or
      (bit_or
        (bit_or (if has flags Map.private then Map.private else 0)
          (if has flags Map.anonymous then Map.anonymous else 0))
        (if has flags Map.fixed then Map.fixed else 0))
      (if has flags Map.shared then Map.shared else 0)

unfoldable pub unlinkflags : ℕ → ℕ
unlinkflags flags = if has flags at_removedir then at_removedir else 0

-- Whatever the guest asks for, the host is not asked to truncate the file (O_TRUNC) nor to open it
-- as a bare path (O_PATH).
openflags-drops :
    (flags : ℕ)
    → (bit_and (openflags flags) Open.trunc ≡ 0) × (bit_and (openflags flags) Open.path ≡ 0)
unfolding openflags
openflags-drops flags = ground arith
