-- ===== src/Elf/Buf.antt =====
-- src/buf.h and src/buf.c: a file in memory, and reading from it.
use libtux.Base.{
  ℕ, ◌+◌, ◌-◌, ◌%◌, List, ltb, leb, if◌then◌else◌, length, ◌==◌, pos, is_neg, pos_part,
}
use libtux.World.{Ptr, null, FilePath, ok, fault, Cmd, ◌>>=◌, ◌>>◌, pure, modify}
use libtux.World.Memory.{bytes_at, copy_to}
use libtux.Align.{word_mod}
use libtux.Types.{seek_set, seek_end}
use libtux.Types.Open
use libtux.Types.Prot
use libtux.Types.Map
use libtux.Host.File.{host_openat, host_seek, host_close}
use libtux.Host.Memory.{host_mmap}
use libtux.File.{callback_open}

-- `buf_t`
pub record Buf : Type 0 where
  pub ptr : Ptr
  pub size : ℕ

-- How much is copied. All of it is `size_t` arithmetic, which wraps.
unfoldable pub read_count : Buf → ℕ → ℕ → ℕ
read_count buf count offset =
    if ltb buf.size ((offset + count) % word_mod)
    then (buf.size + word_mod - offset) % word_mod
    else count

-- The bytes that bufread copies; copying from outside of the buffer is a fault.
unfoldable pub bufget : Buf → ℕ → ℕ → Cmd (List ℕ)
unfolding read_count
bufget buf count offset w =
    let n = read_count buf count offset in
    if leb (offset + n) buf.size then ok (bytes_at w.mem (buf.ptr + offset) n) w else fault

unfoldable pub bufread : Buf → Ptr → ℕ → ℕ → Cmd ℕ
bufread buf to count offset = do
  bs ← bufget buf count offset
  modify (λ w. record w { mem = copy_to w.mem to bs })
  pure (length bs)

-- The file is mapped, and its HostFile closed whatever happened; the bytes come with the mapping. A
-- buffer at NULL stands for a failure.
unfoldable pub bufreadfile : FilePath → Cmd Buf
unfolding callback_open host_openat host_seek host_mmap host_close
bufreadfile path w =
    (do
      let nothing : Buf = record { ptr = null; size = 0 }
      f ← if w.proc.tux.opts.fs_open then callback_open path Open.rdonly 0 else pure null
      f ← if f == null then host_openat null path Open.rdonly 0 else pure f
      if f == null then pure nothing else do
        size ← host_seek f (pos 0) seek_end
        if is_neg size then (do host_close f; pure nothing) else do
          host_seek f (pos 0) seek_set
          a ← host_mmap 0 (pos_part size) Prot.read Map.private f (pos 0)
          host_close f
          if is_neg a.ret then pure nothing else do
            modify (λ w. record w { mem = copy_to w.mem (pos_part a.ret) a.bytes })
            pure (record { ptr = pos_part a.ret; size = pos_part size }))
      w
