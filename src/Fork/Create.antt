-- ===== src/Fork/Create.antt =====
-- The creation of a process by name: `process_create` of os/process.c, and the handler of its trap
-- in os/traps.c.
mod Tests
use ece695os_lab.Prelude.{
  ℕ, zero, suc, ◌+◌, ◌-◌, ◌*◌, Bool, true, false, not, ◌&&◌, ◌||◌, Option, none, some, List, [],
  ◌∷◌, ◌==◌, ltb, leb, if◌then◌else◌, update,
}
use ece695os_lab.Misc.{Bytes, bcopy, dstrcpy, dstrncpy, dstrlen}
use ece695os_lab.Memory.Copy.{copy_user_to_system}
use ece695os_lab.Arguments.{pack_arguments}
use ece695os_lab.Fork.{Computer, Platform, fork, bytes_of, put_bytes, exit_if, size_arg_buff}
use ece695os_lab.State.{Step, ◌>>=◌, ◌>>◌, gets, modify, need}

module _ {W : Type 0} (pf : Platform W) where
  -- The names of the arguments before the NULL, the first of them the program; `allargs` is the
  -- place of the local variable.
  pub process_create : ℕ → List ℕ → ℕ → Step (Computer W) ℕ
  process_create allargs args name = do
    m ← need (λ c. pack_arguments pf.layout.fuel args allargs (bytes_of pf c))
    modify (put_bytes pf m)
    fork pf 0 allargs name true

  -- `sizeof (args)` is that of MAX_ARGS words.
  abbrev args_bytes : ℕ
  args_bytes = 4 * 128

  abbrev pub word : ℕ → Computer W → ℕ
  word a c = pf.word_at (bytes_of pf c) a

  abbrev pub set_byte : ℕ → ℕ → Step (Computer W) (Unit {0})
  set_byte a v = modify (λ c. put_bytes pf (update (bytes_of pf c) a v) c)

  -- `MemoryCopyUserToSystem (currentPCB, from, to, n)`
  abbrev pub from_user : ℕ → ℕ → ℕ → Step (Computer W) (Unit {0})
  from_user from to n c =
      let v = c.os.pcbs c.os.current in
      elim (copy_user_to_system v.npages v.pagetable from to n (bytes_of pf c)) [
        | none ↦ none
        | some (k, m) ↦ some (tt, put_bytes pf m c)
      ]

  -- A string from the process, byte by byte, to `to + i` and on while `i` is below the size, with
  -- the rounds that are left; the result is the new `i`.
  unfoldable pub copy_string : ℕ → ℕ → ℕ → ℕ → ℕ → Step (Computer W) ℕ
  copy_string zero size from to i c = none
  copy_string (suc rounds) size from to i c = elim (from_user from (to + i) 1 c) [
    | none ↦ none
    | some (u, d) ↦
        let rest = copy_string rounds size (from + 1) to (i + 1) d in
        if not (ltb (i + 1) size) || (bytes_of pf d (to + i) == 0) then some (i + 1, d) else rest
  ]

  -- `for (j = 0; j < 11 && args[j] != 0; j++)`, with the rounds that are left: one argument behind
  -- the other.
  copy_arguments : ℕ → ℕ → ℕ → ℕ → Step (Computer W) (Unit {0})
  unfolding copy_string
  copy_arguments zero args allargs i c = some (tt, c)
  copy_arguments (suc k) args allargs i c =
      if word args c == 0
      then some (tt, c)
      else elim (copy_string (size_arg_buff + 1) size_arg_buff (word args c) allargs i c) [
        | none ↦ none
        | some (i', d) ↦ copy_arguments k (args + 4) allargs i' d
      ]

  -- The same in system mode: every argument is copied to the start.
  copy_system_argument : ℕ → ℕ → Step (Computer W) (Unit {0})
  copy_system_argument arg allargs = do
    n ← need (λ d. dstrlen pf.layout.fuel arg (bytes_of pf d))
    exit_if pf (ltb 100 n)
    m ← need (λ d. dstrcpy pf.layout.fuel allargs arg (bytes_of pf d))
    modify (put_bytes pf (update m (allargs + n) 0))

  copy_system_arguments : ℕ → ℕ → ℕ → Step (Computer W) (Unit {0})
  unfolding copy_system_argument
  copy_system_arguments zero args allargs c = some (tt, c)
  copy_system_arguments (suc k) args allargs c =
      if word args c == 0
      then some (tt, c)
      else elim (copy_system_argument (word args c) allargs c) [
        | none ↦ none
        | some (u, d) ↦ copy_system_arguments k (args + 4) allargs d
      ]

  -- The first loop clears 100 bytes.
  clear : ℕ → ℕ → Step (Computer W) (Unit {0})
  clear zero a c = some (tt, c)
  clear (suc k) a c = clear k (a + 1) (put_bytes pf (update (bytes_of pf c) a 0) c)

  -- The arguments and the name, from a process or from the system itself. In the second case
  -- `dstrncpy` is given the name as its source.
  fetch : ℕ → Bool → ℕ → ℕ → ℕ → Step (Computer W) (Unit {0})
  unfolding copy_string
  fetch trap_args false name allargs args = do
    from_user trap_args args args_bytes
    program ← gets (word args)
    copy_string 100 100 program name 0
    set_byte (name + 99) 0
  fetch trap_args true name allargs args = do
    modify (λ c. put_bytes pf (bcopy trap_args args args_bytes (bytes_of pf c)) c)
    modify (λ c. put_bytes pf (dstrncpy (word args c) name 100 (bytes_of pf c)) c)
    set_byte (name + 99) 0

  -- `TrapProcessCreateHandler`, with the places of its local variables.
  pub trap_process_create : ℕ → Bool → ℕ → ℕ → ℕ → Step (Computer W) ℕ
  unfolding clear fetch copy_arguments copy_system_arguments
  trap_process_create trap_args sysmode name allargs args = do
    clear 100 allargs
    fetch trap_args sysmode name allargs args
    if sysmode then copy_system_arguments 11 args allargs else copy_arguments 11 args allargs 0
    set_byte (allargs + size_arg_buff - 1) 0
    fork pf 0 allargs name true
