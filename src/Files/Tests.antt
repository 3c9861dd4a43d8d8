-- ===== src/Files/Tests.antt =====
-- Examples for the table of open files, with a host that opens every file.
use Prim.Native.Nat.{bit_and}
use ece695os_lab.Prelude.{ℕ, ◌+◌, ◌<◌, ◌≡◌, ◌≢◌, ◌⊎◌, true, if◌then◌else◌, refl, ◌==◌}
use ece695os_lab.Kernel.{is_negative, minus_one}
use ece695os_lab.Misc.{dstrncmp}
use ece695os_lab.Files.{
  Files, Host, max_open_files, mode_rw, open_file, read_file, write_file, seek_file, delete_file,
  module_init,
}
use ece695os_lab.Files.Table.{IsKept, open_file-Opens}

-- The world counts the calls.
abbrev host : Host ℕ
host = record {
  memory = λ w a. 0;
  dlx_prefix = 100;
  open_file = λ name mode w. (7, w + 1);
  read_file = λ fd buf n w. (n, w + 1);
  write_file = λ fd buf n w. (n, w + 1);
  seek_file = λ fd offset whence w. (offset, w + 1);
  close_file = λ fd w. (0, w + 1);
}

-- The first two slots hold a file of the host and one of the DLX file system.
abbrev files : Files ℕ
files = record {
  flags = λ i. if i == 1 then 1 else if i == 2 then 3 else 0;
  fs = λ i. if i == 2 then 1 else 0;
  info = λ i. 5;
  world = 0;
}

read_file_host : read_file host 1 50 8 files ≡ (8, record files { world = 1 })
unfolding read_file
read_file_host = refl

-- A slot that is free cannot be written.
write_file_free : write_file host 3 50 8 files ≡ (minus_one, files)
unfolding write_file
write_file_free = refl

seek_file_dlx : seek_file host 2 50 0 files ≡ (5, files)
unfolding seek_file
seek_file_dlx = refl

module_init_flags : (module_init files).flags 2 ≡ 0
unfolding module_init
module_init_flags = refl

-- A text of zeros starts with the text of zeros.
delete_file_dlx : delete_file host 40 files ≡ (1, files)
unfolding delete_file dstrncmp
delete_file_dlx = refl

open_file-Opens_example :
    let (r, t) = open_file host 40 1 files in
    ((is_negative r ≡ true)
      × ((j : ℕ) → t.flags j ≡ files.flags j)
      × ((j : ℕ) → files.flags j ≢ 0 → IsKept files t j))
    ⊎ ((r < max_open_files)
        × (files.flags r ≡ 0)
        × (t.flags r ≡ bit_and 1 mode_rw)
        × (t.flags r ≢ 0)
        × ((j : ℕ) → j ≢ r → IsKept files t j))
open_file-Opens_example = open_file-Opens host 40 1 files
