-- ===== src/Fd/Race.antt =====
-- Two threads that open a file each: fdalloc and fdassign in sys_openat of src/syscalls/sys_file.c hold
-- the lock of the table each for itself, so the steps of the two may come in any order.
use libtux.Base.{
  ℕ, ◌+◌, ◌%◌, ◌<◌, ◌≡◌, ◌≢◌, refl, some, arith, length, get_or, set, count, pos, length-set,
  get_or-set_self, count-set,
}
use libtux.World.{Ptr, null, FdFile, World, ok, put}
use libtux.Fd.{size_mod, fdalloc, fdassign, set_slot, get_fd_file}

-- How far an open has come that holds its new file.
pub data Phase : Type 0 where
  choosing : Phase
  chosen : (fd : ℕ) → Phase
  opened : (fd : ℕ) → Phase

pub record Opens : Type 0 where
  pub state : World
  pub left : Phase
  pub right : Phase

module _ (f g : Ptr) where
  -- One step of either thread.
  pub data Turn (o : Opens) : Opens → Type 0 where
    choose_left :
        {fd : ℕ}
        → o.left ≡ choosing
        → fdalloc o.state ≡ ok (pos fd) o.state
        → Turn o (record o { left = chosen fd })
    choose_right :
        {fd : ℕ}
        → o.right ≡ choosing
        → fdalloc o.state ≡ ok (pos fd) o.state
        → Turn o (record o { right = chosen fd })
    assign_left :
        {fd : ℕ} {v : World}
        → o.left ≡ chosen fd
        → fdassign fd f o.state ≡ ok tt v
        → Turn o (record o { state = v; left = opened fd })
    assign_right :
        {fd : ℕ} {v : World}
        → o.right ≡ chosen fd
        → fdassign fd g o.state ≡ ok tt v
        → Turn o (record o { state = v; right = opened fd })

  -- Any number of steps.
  pub data Turns (o : Opens) : Opens → Type 0 where
    stay : Turns o o
    turn : {p q : Opens} → Turns o p → Turn p q → Turns o q

-- A slot that is set, with a reference more.
abbrev pub taken : ℕ → Ptr → FdFile → World → World
taken fd p x w = record w {
  fd_files = put w.fd_files p (some (record x { refs = (x.refs + 1) % size_mod }));
  proc = record w.proc { files = set w.proc.files fd p };
}

fdassign-taken :
    (fd : ℕ) (p : Ptr) (x : FdFile) (w : World)
    → fd < length w.proc.files
    → w.fd_files p ≡ some x
    → fdassign fd p w ≡ ok tt (taken fd p x w)
unfolding fdassign get_fd_file set_slot
fdassign-taken fd p x w lt e = ground arith

-- What the race leaves: both answers are `fd`, whose slot has the second file; the first has a
-- reference more, and no slot.
pub record Lost (f g : Ptr) (a : FdFile) (w : World) (fd : ℕ) : Type 0 where
  pub after : World
  pub reached :
      Turns f g
        (record { state = w; left = choosing; right = choosing })
        (record { state = after; left = opened fd; right = opened fd })
  pub slot_second : get_or after.proc.files fd null ≡ g
  pub first_counted : after.fd_files f ≡ some (record a { refs = (a.refs + 1) % size_mod })
  pub first_nowhere : count f after.proc.files ≡ 0

-- If a descriptor is free, two opens at once may both answer it: one of the two files has no descriptor
-- then, and a reference that nothing gives back.
pub opens-Lost :
    (f g : Ptr) (a b : FdFile) (w : World) (fd : ℕ)
    → fdalloc w ≡ ok (pos fd) w
    → fd < length w.proc.files
    → get_or w.proc.files fd null ≡ null
    → f ≢ g
    → f ≢ null
    → w.fd_files f ≡ some a
    → w.fd_files g ≡ some b
    → count f w.proc.files ≡ 0
    → Lost f g a w fd
opens-Lost f g a b w fd free lt empty ne nn ea eb nowhere = record {
  after = v;
  reached =
      turn
        (turn (turn (turn stay (choose_left refl free)) (choose_right refl free))
          (assign_left refl (fdassign-taken fd f a w lt ea)))
        (assign_right refl (fdassign-taken fd g b u room (ground arith)));
  slot_second = get_or-set_self u.proc.files fd g null room;
  first_counted = ground arith;
  first_nowhere = ground (
    arith,
    count-set f w.proc.files fd f lt,
    count-set f u.proc.files fd g room,
    get_or-set_self w.proc.files fd f null lt,
  );
}
  where
    u : World
    u = taken fd f a w

    v : World
    v = taken fd g b u

    room : fd < length u.proc.files
    room = omega (arith, length-set w.proc.files fd f)
