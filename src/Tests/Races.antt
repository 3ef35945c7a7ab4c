-- ===== src/Tests/Races.antt =====
-- Two opens at once in the process with four open files.
use libtux.Base.{◌≡◌, refl, some, pos, arith}
use libtux.World.{World, put, ok}
use libtux.Fd.{fdalloc, alloc_loop}
use libtux.Fd.Race.{Lost, opens-Lost}
use libtux.Tests.Demo.{opened_one, std_file}

-- A second new file, which no descriptor has either.
abbrev opened_two : World
opened_two = record opened_one { fd_files = put opened_one.fd_files 32 (some (std_file 25 0)) }

four_is_free : fdalloc opened_two ≡ ok (pos 4) opened_two
unfolding fdalloc alloc_loop
four_is_free = refl

opens-Lost_example : Lost 31 32 (std_file 24 0) opened_two 4
opens-Lost_example =
    opens-Lost 31 32 (std_file 24 0) (std_file 25 0) opened_two 4 four_is_free (ground arith) refl
      (ground arith) (ground arith) refl refl refl
