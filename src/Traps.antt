-- ===== src/Traps.antt =====
-- The dispatch of interrupts and traps in os/traps.c: the arguments of a trap, and the routine that
-- each cause calls. What only prints is left out, the printf handler and the keyboard too; the
-- words that the printf handler takes are in Fork/Printf.
mod Tests
use Prim.Native.Nat.{bit_and, bit_xor}
use ece695os_lab.Prelude.{
  ℕ, ◌+◌, ◌%◌, ◌^◌, ◌≡◌, ◌≢◌, Bool, true, false, Option, none, some, List, [], ◌∷◌, ◌++◌, ◌==◌,
  if◌then◌else◌, head_or, refl, arith, ap, ◌∙◌,
}
use ece695os_lab.Queue.{Ptr, free_links}
use ece695os_lab.Queue.IsQueue.{IsQueue}
use ece695os_lab.Misc.{Bytes, bcopy}
use ece695os_lab.Memory.Copy.{copy_user_to_system}
use ece695os_lab.Kernel.{Os, minus_one, run_queue, wait_queue, zombie_queue}
use ece695os_lab.Process
use ece695os_lab.Process.{process_quantum}
use ece695os_lab.Process.Holds.{Holds, Holds-same}
use ece695os_lab.Process.Moves.{Transferred, suspend-Transferred}
use ece695os_lab.Process.Schedule.{schedule-rotate, schedule-suspended}
use ece695os_lab.Task.{
  Outcome, done, exited, Task, modify, skip, act, gets, restore_intrs, ◌>>=◌, ◌>>◌,
}
use ece695os_lab.Synch.Sem
use ece695os_lab.Synch.Lock
use ece695os_lab.Synch.Cond

-- What is not part of the repository: the byte order of the machine, and the routines of
-- lib/share_memory.o. `process_create` is the handler that calls ProcessFork: Fork/Create has it over
-- a state that includes the files.
pub record Machine : Type 0 where
  pub word_at : Bytes → ℕ → ℕ
  pub free_shared_pte : Ptr → ℕ → Os → Os
  pub create_shared_page : Task ℕ
  pub map_page : ℕ → Task ℕ
  pub process_create : Task (Unit {0})

abbrev pub trap_instr : ℕ
trap_instr = 0x08000000

-- The first case for the cause.
abbrev switch : List (ℕ × Task (Unit {0})) → ℕ → Task (Unit {0})
switch [] cause s = exited
switch ((c, f) ∷ cases) cause s = if cause == c then f s else switch cases cause s

-- `m` is the memory, `args` the address of the trap's arguments, `local` that of the local variable
-- that they are copied to, and `sysmode` says whether the trap is from system mode.
module _ (machine : Machine) (m : Bytes) (args local : ℕ) (sysmode : Bool) where
  -- The `n` bytes of the arguments, copied.
  copy_args : ℕ → Os → Option Bytes
  copy_args n s =
      if sysmode
      then some (bcopy args local n m)
      else elim (copy_user_to_system (s.pcbs s.current).npages (s.pcbs s.current).pagetable args
          local n m) [ none ↦ none | some (c, t) ↦ some t ]

  -- `GetIntFromTrapArg` and `GetUintFromTrapArg`
  get_int_from_trap_arg : Task ℕ
  unfolding copy_args
  get_int_from_trap_arg s = elim (copy_args 4 s) [
    | none ↦ exited
    | some t ↦ done (machine.word_at t local) s
  ]

  -- `args[1]` of TRAP_OPEN
  second_arg : Task ℕ
  unfolding copy_args
  second_arg s =
      if sysmode
      then done (machine.word_at m (args + 4)) s
      else elim (copy_args 8 s) [ none ↦ exited | some t ↦ done (machine.word_at t (local + 4)) s ]

  -- `ProcessSetResult (currentPCB, result)`
  give : ℕ → Task (Unit {0})
  give result = modify (λ s. Process.set_result s.current result s)

  -- A routine with one argument, and its result.
  with_arg : (ℕ → Task ℕ) → Task (Unit {0})
  unfolding get_int_from_trap_arg give
  with_arg f = do handle ← get_int_from_trap_arg; result ← f handle; give result

  abbrev enable_intrs : Task ℕ
  enable_intrs s = done s.intrs (record s { intrs = 0 })

  -- The file traps are not implemented: they only give a result.
  interruptible : ℕ → Task (Unit {0})
  unfolding give
  interruptible result = do intrs ← enable_intrs; give result; restore_intrs intrs

  abbrev reschedule : Bool → Task (Unit {0})
  reschedule suspended = act (Process.schedule machine.free_shared_pte suspended)

  trap : ℕ → Task (Unit {0})
  unfolding with_arg interruptible second_arg
  trap = switch (
      (0x400, reschedule false)
      ∷ (0x500, do act (λ s. Process.destroy s.current s); reschedule false)
      ∷ (0x300, do act (λ s. Process.destroy s.current s); reschedule false)
      ∷ (0x430, skip)
      ∷ (0x410, do act (λ s. Process.suspend s.current s); reschedule true)
      ∷ (0x201, skip)
      ∷ (0x213, do mode ← second_arg; interruptible ((mode + 0x10000) % 2 ^ 32))
      ∷ (0x214, interruptible minus_one)
      ∷ (0x210, interruptible minus_one)
      ∷ (0x211, interruptible minus_one)
      ∷ (0x580, interruptible minus_one)
      ∷ (0x212, interruptible minus_one)
      ∷ (0x431, do pid ← gets Process.get_current_pid; give pid)
      ∷ (0x432, machine.process_create)
      ∷ (0x440, do handle ← machine.create_shared_page; give handle)
      ∷ (0x441, with_arg machine.map_page)
      ∷ (0x450, with_arg Sem.create)
      ∷ (0x451, with_arg (Sem.handle_wait machine.free_shared_pte))
      ∷ (0x452, with_arg Sem.handle_signal)
      ∷ (0x453, do handle ← Lock.create; give handle)
      ∷ (0x454, with_arg (Lock.handle_acquire machine.free_shared_pte))
      ∷ (0x455, with_arg Lock.handle_release)
      ∷ (0x456, with_arg Cond.create)
      ∷ (0x457, with_arg (Cond.handle_wait machine.free_shared_pte))
      ∷ (0x458, with_arg Cond.handle_signal)
      ∷ (0x459, with_arg Cond.handle_broadcast)
      ∷ [])

  -- Every other system interrupt ends the simulation.
  system_interrupt : ℕ → Task (Unit {0})
  system_interrupt = switch ((0x40, reschedule false) ∷ (0x48, skip) ∷ [])

  pub dointerrupt : ℕ → Task (Unit {0})
  unfolding trap system_interrupt
  dointerrupt cause =
      if bit_and cause trap_instr == 0
      then system_interrupt cause
      else trap (bit_and cause (bit_xor trap_instr 0xffffffff))

  -- A timer interrupt, and a trap for a context switch, both rotate the run queue when there is no
  -- zombie: the first process goes to the end, and the one that is the first then runs.
  pub dointerrupt-rotate :
      (s : Os) (p : Ptr) (ps : List Ptr)
      → Holds s run_queue (p ∷ ps)
      → IsQueue s.store zombie_queue []
      → (t : Os) × (dointerrupt 0x40 s ≡ done tt t)
        × (dointerrupt 0x08000400 s ≡ done tt t)
        × (t ≡ record s { store = t.store; current = head_or ps p; timer = process_quantum })
        × Holds t run_queue (ps ++ p ∷ [])
  unfolding dointerrupt trap system_interrupt
  dointerrupt-rotate s p ps h z =
      let (t, run, rest, w, others, queues, objects) =
        schedule-rotate machine.free_shared_pte s p ps h z in
      (t, rw (act, run) refl, rw (act, run) refl, rest, w)

  -- The trap of ProcessSleep, by the first process of a run queue with another process on it and
  -- with no zombie, never exits: the process stands at the end of the waiting queue, and the next
  -- process of the run queue runs.
  pub dointerrupt-sleep :
      (s : Os) (p r : Ptr) (rs ws fs : List Ptr)
      → s.current ≡ p
      → Holds s run_queue (p ∷ r ∷ rs)
      → Holds s wait_queue ws
      → IsQueue s.store zombie_queue []
      → IsQueue s.store free_links fs
      → (t : Os) × (dointerrupt 0x08000410 s ≡ done tt t)
        × (t.current ≡ r)
        × Holds t run_queue (r ∷ rs)
        × Holds t wait_queue (ws ++ p ∷ [])
  unfolding dointerrupt trap
  dointerrupt-sleep s p r rs ws fs c h w z f =
      let (u, e, k) = suspend-Transferred s p [] (r ∷ rs) ws fs f h w in
      let zombies =
        k.waiting zombie_queue [] (λ e. absurd (omega arith)) (λ e. absurd (omega arith))
          (λ e. absurd (omega arith)) (λ e. absurd (omega arith)) z in
      let run = schedule-suspended machine.free_shared_pte u r rs k.source zombies.0 in
      let t = record u { current = r; timer = process_quantum } in
      (
        t,
        sleep_steps s u t (ap (λ (a : Ptr). Process.suspend a s) c ∙ e) run,
        refl,
        Holds-same run_queue (r ∷ rs) refl (λ a. refl) k.source,
        Holds-same wait_queue (ws ++ p ∷ []) refl (λ a. refl) k.target,
      )
    where
      sleep_steps :
          (s u t : Os)
          → Process.suspend s.current s ≡ some u
          → Process.schedule machine.free_shared_pte true u ≡ some t
          → dointerrupt 0x08000410 s ≡ done tt t
      sleep_steps s u t e run = rw (act, e) (rw (act, run) refl)
