-- ===== src/Files.antt =====
-- The table of open files of os/filesys.c. An `int` is its bit pattern.
pub mod Table
mod Tests
use Prim.Native.Nat.{bit_and}
use ece695os_lab.Prelude.{
  ℕ, zero, suc, ◌+◌, Bool, true, false, not, ◌&&◌, ◌==◌, ltb, leb, if◌then◌else◌, update,
}
use ece695os_lab.Kernel.{is_negative, minus_one}
use ece695os_lab.Misc.{Bytes, dstrncmp}
use ece695os_lab.Synch.{find_free}

abbrev pub max_open_files : ℕ
max_open_files = 32

abbrev pub mode_rw : ℕ
mode_rw = 3

-- `openfiles[i]`: `info` is the word of the union `u`. The world is what the host keeps.
pub record Files (W : Type 0) : Type 0 where
  pub flags : ℕ → ℕ
  pub fs : ℕ → ℕ
  pub info : ℕ → ℕ
  pub world : W

-- The traps of the simulator, which are not part of the repository: a descriptor or a name, the
-- other arguments, and the result. `memory` is the memory that they and the kernel see, and
-- `dlx_prefix` the address of the text "dlx:" in it.
pub record Host (W : Type 0) : Type 0 where
  pub memory : W → Bytes
  pub dlx_prefix : ℕ
  pub open_file : ℕ → ℕ → W → ℕ × W
  pub read_file : ℕ → ℕ → ℕ → W → ℕ × W
  pub write_file : ℕ → ℕ → ℕ → W → ℕ × W
  pub seek_file : ℕ → ℕ → ℕ → W → ℕ × W
  pub close_file : ℕ → W → ℕ × W

module _ {W : Type 0} where
  pub fd_valid : ℕ → Files W → Bool
  fd_valid fd s =
      not (fd == 0) && (not (is_negative fd) && (ltb fd max_open_files && not (s.flags fd == 0)))

  abbrev pub free_entry : ℕ → Files W → Files W
  free_entry x s = record s { flags = update s.flags x 0 }

  abbrev pub is_free_file : Files W → ℕ → Bool
  is_free_file s i = s.flags i == 0

  -- The DLX file system is a stub.
  abbrev dlx_io : ℕ → Files W → ℕ × Files W
  dlx_io fd s = (1, s)

  abbrev dlx_open : ℕ → Files W → ℕ × Files W
  dlx_open f s = (1, record s { info = update s.info f 0 })

  abbrev dlx_seek : ℕ → Files W → ℕ × Files W
  dlx_seek f s = (s.info f, s)

  abbrev dlx_close : ℕ → Files W → ℕ × Files W
  dlx_close f s = (1, s)

  clear_flags : ℕ → ℕ → Files W → Files W
  clear_flags zero i s = s
  clear_flags (suc k) i s = clear_flags k (suc i) (record s { flags = update s.flags i 0 })

  -- `FsModuleInit`; the tables of functions are the tests on `fs` below.
  unfoldable pub module_init : Files W → Files W
  unfolding clear_flags
  module_init s = clear_flags max_open_files 0 s

  -- A call of the host for the file `x`.
  abbrev pub on_host : (W → ℕ × W) → Files W → ℕ × Files W
  on_host f s = let (r, w) = f s.world in (r, record s { world = w })

module _ {W : Type 0} (host : Host W) where
  unix_open : ℕ → ℕ → ℕ → Files W → ℕ × Files W
  unix_open x name mode s =
      let (r, t) = on_host (host.open_file name mode) s in
      (if is_negative r then r else 1, record t { info = update t.info x r })

  -- Whether the name starts with "dlx:".
  abbrev pub is_dlx : ℕ → Files W → Bool
  is_dlx name s = dstrncmp name host.dlx_prefix 4 (host.memory s.world) == 0

  -- `FsOpen` at the slot that the search has found.
  open_at : ℕ → ℕ → ℕ → Files W → ℕ × Files W
  unfolding unix_open
  open_at i name mode s =
      let s1 = record s { flags = update s.flags i mode } in
      let dlx = is_dlx name s1 in
      let s2 = record s1 { fs = update s1.fs i (if dlx then 1 else 0) } in
      let (r, t) = if dlx then dlx_open i s2 else unix_open i name mode s2 in
      if is_negative r then (r, free_entry i t) else (i, t)

  unfoldable pub open_file : ℕ → ℕ → Files W → ℕ × Files W
  unfolding open_at
  open_file name mode s =
      let masked = bit_and mode mode_rw in
      let i = find_free (is_free_file s) max_open_files 0 in
      if masked == 0
      then (minus_one, s)
      else if leb max_open_files i
      then (minus_one, s)
      else open_at i name masked s

  unfoldable pub close_file : ℕ → Files W → ℕ × Files W
  unfolding fd_valid
  close_file fd s =
      if not (fd_valid fd s)
      then (minus_one, s)
      else let (r, t) =
          if s.fs fd == 1 then dlx_close fd s else on_host (host.close_file (s.info fd)) s in
        (r, free_entry fd t)

  unfoldable pub read_file : ℕ → ℕ → ℕ → Files W → ℕ × Files W
  unfolding fd_valid
  read_file fd buf n s =
      if not (fd_valid fd s)
      then (minus_one, s)
      else if s.fs fd == 1
      then dlx_io fd s
      else on_host (host.read_file (s.info fd) buf n) s

  pub write_file : ℕ → ℕ → ℕ → Files W → ℕ × Files W
  unfolding fd_valid
  write_file fd buf n s =
      if not (fd_valid fd s)
      then (minus_one, s)
      else if s.fs fd == 1
      then dlx_io fd s
      else on_host (host.write_file (s.info fd) buf n) s

  unfoldable pub seek_file : ℕ → ℕ → ℕ → Files W → ℕ × Files W
  unfolding fd_valid
  seek_file fd offset whence s =
      if not (fd_valid fd s)
      then (minus_one, s)
      else if s.fs fd == 1
      then dlx_seek fd s
      else on_host (host.seek_file (s.info fd) offset whence) s

  -- Only the stub of the DLX file system deletes.
  pub delete_file : ℕ → Files W → ℕ × Files W
  delete_file name s = (if is_dlx name s then 1 else minus_one, s)
