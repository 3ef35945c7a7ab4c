-- ===== src/Dispatch/Lives.antt =====
-- A process over its calls: any of its threads calls next, by any number, with anything in its
-- registers. Each call is one step, so that two never overlap; Fd/Race has two opens that do.
use libtux.Base.{ℕ, ◌≡◌, ◌≢◌}
use libtux.World.{Thread, World, ok}
use libtux.Threads.{Outcome, returns}
use libtux.Guest.Good.{Good}
use libtux.Dispatch.Handlers.{Args, Setup}
use libtux.Dispatch.Arch.{Arch, arch_syshandle}
use libtux.Dispatch.Every.{full}

module _ (arch : Arch) (s : Setup) where
  -- A call that returned or ended its thread, and was no open that found every descriptor in use; the
  -- guest writes to memory; another thread goes on.
  pub data Lives (w : World) : World → Type 0 where
    born : Lives w w
    calls :
        {v u : World}
        → Lives w v
        → (n : ℕ) (r : Args) (o : Outcome) → arch_syshandle arch s n r v ≡ ok o u
        → o ≢ returns full
        → Lives w u
    computes : {v : World} → Lives w v → (mem : ℕ → ℕ) → Lives w (record v { mem = mem })
    switches : {v : World} → Lives w v → (t : Thread) → Lives w (record v { thread = t })
