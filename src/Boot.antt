-- ===== src/Boot.antt =====
-- `main` of os/process.c: the options, the start of the modules and the first process, up to
-- `intrreturn` of the assembly; `SysprocCreateProcesses` of os/sysproc.c; `TimerSet` and
-- `KbdModuleInit` of os/traps.c.
pub mod Modules
pub mod Ready
mod Tests
use ece695os_lab.Prelude.{
  ℕ, zero, suc, ◌+◌, ◌-◌, ◌^◌, Bool, true, false, not, ◌||◌, Option, none, some, List, [], ◌∷◌,
  ◌==◌, ltb, if◌then◌else◌, update,
}
use ece695os_lab.Queue
use ece695os_lab.Queue.{Ptr, null, Status, fail, success}
use ece695os_lab.Memory
use ece695os_lab.Kernel.{Os, Act, is_negative, minus_one}
use ece695os_lab.Process
use ece695os_lab.Process.{process_quantum}
use ece695os_lab.Synch
use ece695os_lab.Misc.{dstrcpy}
use ece695os_lab.Misc.Numbers.{dstrtol, ditoa}
use ece695os_lab.Files
use ece695os_lab.Program.{CodeInfo, get_code_info, get_from_file}
use ece695os_lab.Fork.{Computer, Platform, bytes_of, put_bytes, act_os, modify_os, with_files}
use ece695os_lab.Fork.Create.{process_create}
use ece695os_lab.State.{Step, pure, ◌>>=◌, ◌>>◌, gets, modify, call, need}

-- The system as it starts: the interrupt register of the keyboard, and the counts of `mysems`.
pub record Machine (W : Type 0) : Type 0 where
  pub computer : Computer W
  pub keyboard : ℕ
  pub mysems : ℕ → ℕ

-- The places of `debugstr`, of the two variables `buf` of main, of `allargs` and of the text "vm";
-- what MemoryModuleInit reads; and `ShareModuleInit` of lib/share_memory.o.
pub record Start (W : Type 0) : Type 0 where
  pub debugstr : ℕ
  pub buf : ℕ
  pub file_buf : ℕ
  pub allargs : ℕ
  pub vm : ℕ
  pub memory_size : ℕ
  pub lastosaddress : ℕ
  pub share_module_init : Os → Os

-- The queue head of `mysems[i]`.
abbrev pub mysem_waiting : ℕ → Ptr
mysem_waiting i = 134 + i

module _ {W : Type 0} (pf : Platform W) (st : Start W) where
  abbrev pub on_computer : {A : Type 0} → Step (Computer W) A → Step (Machine W) A
  on_computer f m = elim (f m.computer) [
    | none ↦ none
    | some (a, c) ↦ some (a, record m { computer = c })
  ]

  -- A routine over the memory that may not end.
  abbrev write_memory : ((ℕ → ℕ) → Option (ℕ → ℕ)) → Step (Computer W) (Unit {0})
  write_memory f = do b ← need (λ c. f (bytes_of pf c)); modify (put_bytes pf b)

  -- The loop over the contents of a program file, which are printed, with rounds of fuel.
  unfoldable pub print_file : ℕ → ℕ → ℕ → Step (Computer W) (Unit {0})
  print_file zero fd addr c = none
  print_file (suc rounds) fd addr c =
      elim (with_files pf (get_from_file pf.layout fd st.file_buf addr 200) c) [
        | none ↦ none
        | some ((n, addr'), d) ↦
            let rest = print_file rounds fd addr' d in
            if is_negative n || (n == 0) then some (tt, d) else rest
      ]

  fd_of : Option CodeInfo → ℕ
  fd_of none = minus_one
  fd_of (some info) = info.fd

  -- The cases of the switch for the option, with the place of the argument behind it: whether `i`
  -- has moved on, and the place of the name of a user program.
  unfoldable pub option : ℕ → ℕ → Step (Computer W) (Bool × ℕ)
  unfolding print_file fd_of
  option char next =
      if char == 68
      then (do write_memory (dstrcpy pf.layout.fuel st.debugstr next); pure (true, null))
      else if char == 105
      then (do
        n ← need (λ c. dstrtol pf.layout.fuel next 0 (bytes_of pf c))
        write_memory (ditoa pf.layout.fuel n.0 st.buf)
        pure (true, null))
      else if char == 102
      then (do
        info ← with_files pf (get_code_info pf.layout next)
        print_file pf.layout.fuel (fd_of info) 0
        with_files pf (call (Files.on_host (pf.layout.host.close_file (fd_of info))))
        pure (true, null))
      else if char == 117
      then pure (true, next)
      else pure (false, null)

  -- The loop over the arguments from `i` on, with the rounds that are left: the index of the name of
  -- a user program.
  unfoldable pub options : ℕ → ℕ → (ℕ → ℕ) → ℕ → Step (Computer W) (Option ℕ)
  unfolding option
  options zero argc argv i c = some (none, c)
  options (suc k) argc argv i c =
      if not (ltb i argc)
      then some (none, c)
      else if not (bytes_of pf c (argv i) == 45)
      then options k argc argv (i + 1) c
      else elim (option (bytes_of pf c (argv i + 1)) (argv (i + 1)) c) [
        | none ↦ none
        | some ((moved, user), d) ↦
            let rest = options k argc argv (if moved then i + 2 else i + 1) d in
            if user == null then rest else some (some (i + 1), d)
      ]

  -- `AQueueModuleInit`
  abbrev queue_module_init : Act
  queue_module_init s = elim (Queue.module_init s.store) [
    | none ↦ none
    | some t ↦ some (record s { store = t })
  ]

  -- The modules, in the order in which main starts them.
  unfoldable pub init_modules : Step (Machine W) (Unit {0})
  init_modules = do
    on_computer (act_os pf queue_module_init)
    on_computer (
        modify_os pf
          (λ s. record s { memory = Memory.module_init st.memory_size st.lastosaddress s.memory }))
    on_computer (act_os pf Process.module_init)
    on_computer (modify_os pf st.share_module_init)
    on_computer (modify_os pf (λ s. (Synch.module_init s).1))
    modify (λ m. record m { keyboard = 1 })

  -- `buf[i] = 'a'` for 100 bytes.
  unfoldable pub fill : ℕ → ℕ → Step (Computer W) (Unit {0})
  fill zero i c = some (tt, c)
  fill (suc k) i c = fill k (suc i) (put_bytes pf (update (bytes_of pf c) (st.buf + i) 97) c)

  -- The file "vm", with its descriptor.
  unfoldable pub write_vm : Step (Computer W) (Unit {0})
  write_vm = do
    fill 100 0
    i ← with_files pf (call (Files.open_file pf.layout.host st.vm 2))
    with_files pf (call (Files.seek_file pf.layout.host i 0 0))
    with_files pf (call (Files.write_file pf.layout.host i st.buf 80))
    with_files pf (call (Files.close_file pf.layout.host i))
    pure tt

  -- The arguments from `base` on.
  abbrev pub params : ℕ → (ℕ → ℕ) → ℕ → List ℕ
  params zero argv base = []
  params (suc k) argv base = argv base ∷ params k argv (base + 1)

  -- The user program with its arguments, at most ten with the name.
  unfoldable pub create_user : ℕ → (ℕ → ℕ) → Option ℕ → Step (Computer W) (Unit {0})
  create_user argc argv none = pure tt
  create_user argc argv (some base) =
      if ltb 10 (argc - base) || (argc - base == 0)
      then pure tt
      else do process_create pf st.allargs (params (argc - base) argv base) (argv base); pure tt

  -- `SysprocCreateProcesses`, from `mysems[i]` on: the queue and the count of each.
  unfoldable pub create_sysprocs : ℕ → ℕ → Step (Machine W) (Unit {0})
  create_sysprocs zero i m = some (tt, m)
  create_sysprocs (suc k) i m =
      let os = m.computer.os in
      let (r, t) = Queue.init (mysem_waiting i) os.store in
      elim r [
        | fail ↦ none
        | success ↦ create_sysprocs k (suc i) (record m {
          computer = record m.computer { os = record os { store = t } };
          mysems = update m.mysems i 1;
        })
      ]

  -- `main`, up to `intrreturn`.
  unfoldable pub main : ℕ → (ℕ → ℕ) → Step (Machine W) (Unit {0})
  main argc argv = do
    on_computer (modify (λ c. put_bytes pf (update (bytes_of pf c) st.debugstr 0) c))
    on_computer (with_files pf (call (λ s. (tt, Files.module_init s))))
    base ← on_computer (options argc argc argv 0)
    init_modules
    on_computer write_vm
    on_computer (create_user argc argv base)
    create_sysprocs 10 0
    on_computer (modify_os pf (λ s. record s { timer = process_quantum }))
