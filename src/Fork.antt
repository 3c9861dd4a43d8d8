-- ===== src/Fork.antt =====
-- `ProcessFork` of os/process.c: a new process, its memory, its first stack frame, and its place on
-- the run queue.
pub mod System
pub mod Start
pub mod Arguments
pub mod Create
pub mod Printf
pub mod Setting
mod Tests
use Prim.Native.Nat.{bit_or}
use ece695os_lab.Prelude.{
  ℕ, zero, suc, ◌+◌, ◌-◌, ◌*◌, ◌%◌, ◌^◌, Bool, true, false, not, ◌||◌, Option, none, some, ◌==◌,
  if◌then◌else◌, update,
}
use ece695os_lab.Queue
use ece695os_lab.Queue.{Ptr, null}
use ece695os_lab.Memory
use ece695os_lab.Memory.{page_size}
use ece695os_lab.Memory.Copy.{copy_system_to_user}
use ece695os_lab.Kernel.{
  Pcb, Os, Act, set_pcb, free_pcbs, run_queue, pid_of, is_negative, minus_one,
}
use ece695os_lab.Process
use ece695os_lab.Process.{status_runnable}
use ece695os_lab.Misc.{Bytes, dstrcpy}
use ece695os_lab.Files
use ece695os_lab.Files.{Files}
use ece695os_lab.Arguments.{Reader, get_argument}
use ece695os_lab.Program.{Layout, CodeInfo, get_code_info, get_from_file}
use ece695os_lab.State.{Step, pure, ◌>>=◌, ◌>>◌, gets, modify, call, need}

-- The kernel, its files with the memory, and the static variables of `get_argument`.
pub record Computer (W : Type 0) : Type 0 where
  pub os : Os
  pub files : Files W
  pub reader : Reader

-- The byte order of the machine, the routine of lib/share_memory.o, the places of the names and of
-- the page tables of the processes, of the local variables `buf` and `dum`, and of `ProcessExit`.
-- The name of a process is part of the memory.
pub record Platform (W : Type 0) : Type 0 where
  pub layout : Layout W
  pub word_at : Bytes → ℕ → ℕ
  pub set_word : ℕ → ℕ → Bytes → Bytes
  pub free_shared_pte : Ptr → ℕ → Os → Os
  pub name_at : Ptr → ℕ
  pub pagetable_at : Ptr → ℕ
  pub buf : ℕ
  pub dum : ℕ
  pub process_exit : ℕ

-- `SIZE_ARG_BUFF`
abbrev pub size_arg_buff : ℕ
size_arg_buff = 1024

-- The frame has 85 words, and eight more lie above it.
abbrev pub frame_bytes : ℕ
frame_bytes = 4 * (85 + 8)

-- The places in the frame: PROCESS_STACK_IREG + r, and the others.
abbrev pub frame_ireg : ℕ → ℕ
frame_ireg r = 10 + r

abbrev pub frame_iar : ℕ
frame_iar = 74

abbrev pub frame_isr : ℕ
frame_isr = 75

abbrev pub frame_ptbase : ℕ
frame_ptbase = 78

abbrev pub frame_ptsize : ℕ
frame_ptsize = 79

abbrev pub frame_ptbits : ℕ
frame_ptbits = 80

module _ {W : Type 0} (pf : Platform W) where
  abbrev pub bytes_of : Computer W → Bytes
  bytes_of c = pf.layout.host.memory c.files.world

  abbrev pub put_bytes : Bytes → Computer W → Computer W
  put_bytes m c = record c {
    files = record c.files { world = pf.layout.set_memory m c.files.world };
  }

  -- Steps of the parts.
  abbrev pub act_os : Act → Step (Computer W) (Unit {0})
  act_os f c = elim (f c.os) [ none ↦ none | some t ↦ some (tt, record c { os = t }) ]

  abbrev pub modify_os : (Os → Os) → Step (Computer W) (Unit {0})
  modify_os f c = some (tt, record c { os = f c.os })

  abbrev pub with_files : {A : Type 0} → Step (Files W) A → Step (Computer W) A
  with_files f c = elim (f c.files) [ none ↦ none | some (a, t) ↦ some (a, record c { files = t }) ]

  abbrev change_pcb : Ptr → (Pcb → Pcb) → Step (Computer W) (Unit {0})
  change_pcb p f = modify_os (λ s. set_pcb p (f (s.pcbs p)) s)

  abbrev set_frame : Ptr → ℕ → ℕ → Step (Computer W) (Unit {0})
  set_frame p i v = change_pcb p (λ b. record b { saved_frame = update b.saved_frame i v })

  abbrev exit_if : Bool → Step (Computer W) (Unit {0})
  exit_if b c = if b then none else some (tt, c)

  -- `DisableIntrs` and `RestoreIntrs`; the interrupt level has four bits.
  abbrev disable_intrs : Step (Computer W) ℕ
  disable_intrs c = some (c.os.intrs, record c { os = record c.os { intrs = 15 } })

  abbrev restore_intrs : ℕ → Step (Computer W) (Unit {0})
  restore_intrs level = modify_os (λ s. record s { intrs = level % 16 })

  -- The first free process.
  pub claim_pcb : Step (Computer W) Ptr
  claim_pcb = do
    intrs ← disable_intrs
    exit_if_none ← gets (λ c. Queue.is_empty c.os.store free_pcbs)
    exit_if exit_if_none
    p ← gets (λ c. Queue.object c.os.store (Queue.first c.os.store free_pcbs))
    act_os (Process.remove_link p)
    modify_os (Process.set_status p status_runnable)
    restore_intrs intrs
    pure p

  pub set_name : Ptr → ℕ → Step (Computer W) (Unit {0})
  set_name p name = do
    m ← need (λ c. dstrcpy pf.layout.fuel (pf.name_at p) name (bytes_of c))
    modify (put_bytes m)

  -- A page from the page map; the simulation ends when none is free.
  take_page : Step (Computer W) ℕ
  take_page c = elim (Memory.alloc_page c.os.memory) [
    | none ↦ none
    | some (page, m) ↦
        if page == 0 then none else some (page, record c { os = record c.os { memory = m } })
  ]

  pub set_up_memory : Ptr → Step (Computer W) (Unit {0})
  set_up_memory p = do
    change_pcb p (λ b. record b { npages = 1 })
    user ← take_page
    change_pcb p (λ b. record b { pagetable = update b.pagetable 0 (Memory.setup_pte user) })
    stack ← take_page
    change_pcb p (λ b. record b { sys_stack_area = stack * page_size % 2 ^ 32 })

  -- The first frame lies in the new stack, whose words are what they were.
  abbrev first_frame : Bytes → Ptr → Pcb → Pcb
  first_frame m p b =
      let at = (b.sys_stack_area + page_size + 2 ^ 32 - frame_bytes) % 2 ^ 32 in
      let words : ℕ → ℕ = λ i. pf.word_at m (at + 4 * i) in
      let w1 = update words (frame_ireg 0) 0 in
      let w2 = update w1 frame_ptbase (pf.pagetable_at p) in
      let w3 = update w2 frame_ptsize b.npages in
      let w4 = update w3 frame_ptbits (16 + 16 * 2 ^ 16) in
      record b { sys_stack_ptr = at; frame = at; saved_frame = w4 }

  set_up_frame : Ptr → Step (Computer W) (Unit {0})
  set_up_frame p = do m ← gets bytes_of; change_pcb p (first_frame m p)

  -- `else`: the process of the system starts at `func`, and `param` lies on its stack.
  abbrev system_frame : ℕ → Pcb → Pcb
  system_frame func b =
      let w1 = update b.saved_frame (frame_ireg 31) pf.process_exit in
      let w2 = update w1 (frame_ireg 29) ((b.sys_stack_area + page_size - 32) % 2 ^ 32) in
      let w3 = update w2 frame_iar func in
      let w4 = update w3 frame_isr 0x140 in
      record b { saved_frame = w4; flags = bit_or b.flags 0x100 }

  start_system : Ptr → ℕ → ℕ → Step (Computer W) (Unit {0})
  start_system p func param = do
    change_pcb p (system_frame func)
    modify (λ c.
        put_bytes (pf.set_word ((c.os.pcbs p).saved_frame (frame_ireg 29)) param (bytes_of c)) c)

  -- Bytes go to the memory of the process; the number of those that were copied is not used.
  copy_to_user : Ptr → ℕ → ℕ → ℕ → Step (Computer W) (Unit {0})
  copy_to_user p from to n = do
    v ← gets (λ c. c.os.pcbs p)
    (count, m) ← need (λ c. copy_system_to_user v.npages v.pagetable from to n (bytes_of c))
    modify (put_bytes m)

  -- The loop over the lines of the program file, on fuel.
  load_lines : ℕ → Ptr → ℕ → ℕ → Step (Computer W) (Unit {0})
  unfolding copy_to_user
  load_lines zero p fd addr c = none
  load_lines (suc fuel) p fd addr c =
      elim (with_files (get_from_file pf.layout fd pf.buf addr 100) c) [
        | none ↦ none
        | some ((n, addr'), d) ↦
            let rest =
              (copy_to_user p pf.buf ((addr' + 2 ^ 32 - n) % 2 ^ 32) n
                  >> load_lines fuel p fd addr')
                d in
            if is_negative n || (n == 0) then some (tt, d) else rest
      ]

  -- `dum[i] = v`, and a call of `get_argument`.
  abbrev set_dum : ℕ → ℕ → Step (Computer W) (Unit {0})
  set_dum i v = modify (λ c. put_bytes (pf.set_word (pf.dum + 4 * i) v (bytes_of c)) c)

  abbrev next_argument : ℕ → Step (Computer W) ℕ
  next_argument string c =
      let (offset, r) = get_argument string (bytes_of c) c.reader in
      some (offset, record c { reader = r })

  -- The place of an argument in the memory of the process.
  abbrev argument_at : ℕ → ℕ
  argument_at offset = page_size - size_arg_buff + offset

  -- The loop over the arguments, on fuel: the last `count`.
  pub list_arguments : ℕ → ℕ → Step (Computer W) ℕ
  list_arguments zero count c = none
  list_arguments (suc fuel) count c =
      let (offset, r) = get_argument null (bytes_of c) c.reader in
      let d =
        put_bytes (pf.set_word (pf.dum + 4 * count) (argument_at offset) (bytes_of c))
          (record c { reader = r }) in
      let rest = list_arguments fuel (count + 1) d in if offset == 0 then some (count, d) else rest

  -- The arguments on the stack of the process, and its first instruction. A call of `get_argument`
  -- reads on in 100 bytes, so 101 rounds are enough.
  start_user : Ptr → ℕ → ℕ → Step (Computer W) (Unit {0})
  unfolding copy_to_user list_arguments
  start_user p param start = do
    set_frame p frame_isr 0x100
    set_frame p (frame_ireg 29) (page_size - size_arg_buff)
    copy_to_user p param (page_size - size_arg_buff) (size_arg_buff - 32)
    offset ← next_argument param
    set_dum 2 (argument_at offset)
    count ← list_arguments 101 3
    set_dum 0 (count - 2)
    set_dum 1 (page_size - size_arg_buff - (count - 2) * 4)
    sp ← gets (λ c. (c.os.pcbs p).saved_frame (frame_ireg 29))
    copy_to_user p pf.dum ((sp + 2 ^ 32 - count * 4) % 2 ^ 32) (count * 4)
    set_frame p (frame_ireg 29) ((sp + 2 ^ 32 - 4 * count) % 2 ^ 32)
    set_frame p frame_iar start
    change_pcb p (λ b. record b { flags = bit_or b.flags 0x200 })

  -- Whether the program was loaded; if it was not, the process is free again.
  load_user : Ptr → ℕ → ℕ → Step (Computer W) Bool
  load_user p param name = do
    found ← with_files (get_code_info pf.layout name)
    elim found [
      | none ↦ do act_os (Process.free_resources pf.free_shared_pte p); pure false
      | some info ↦ do
        load_lines pf.layout.fuel p info.fd 0
        with_files (call (Files.close_file pf.layout.host info.fd))
        start_user p param info.start
        pure true
    ]

  -- The place on the run queue; the first process of all becomes the current one.
  pub make_ready : Ptr → Step (Computer W) (Unit {0})
  make_ready p = do
    intrs ← disable_intrs
    act_os (Process.alloc_link p)
    act_os (Process.insert_last run_queue p)
    restore_intrs intrs
    modify_os (λ s. record s { current = if s.current == null then p else s.current })

  -- The result is the number of the process, or -1.
  pub fork : ℕ → ℕ → ℕ → Bool → Step (Computer W) ℕ
  fork func param name is_user = do
    p ← claim_pcb
    set_name p name
    set_up_memory p
    set_up_frame p
    loaded ← if is_user then load_user p param name else (do start_system p func param; pure true)
    if loaded then (do make_ready p; pure (pid_of p)) else pure minus_one
