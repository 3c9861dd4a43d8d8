-- ===== src/Task.antt =====
-- Kernel routines that may sleep: what a process does up to its sleep, and what it does when it is
-- scheduled again. Interrupt levels and `ProcessSleep` (include/os/dlxos.h, os/dlxos.s).
pub mod Waiters
pub mod Sleep
mod Tests
use ece695os_lab.Prelude.{ℕ, ◌%◌, Bool, true, false, Option, none, some, ◌==◌, if◌then◌else◌}
use ece695os_lab.Queue
use ece695os_lab.Queue.{Ptr, null, Status, fail, success}
use ece695os_lab.Kernel.{Os, Act, ◌⨾◌}
use ece695os_lab.Process

-- `blocked` holds the state when the next process takes over, and the rest of the routine as a
-- function of the state when the process is scheduled again. `exited` is `exitsim`.
pub data Outcome (A : Type 0) : Type 0 where
  done : A → Os → Outcome A
  blocked : Os → (Os → Outcome A) → Outcome A
  exited : Outcome A

abbrev pub Task : Type 0 → Type 0
Task A = Os → Outcome A

abbrev pub pure : {A : Type 0} → A → Task A
pure = done

module _ {A B : Type 0} where
  abbrev pub and_then : Outcome A → (A → Task B) → Outcome B
  and_then (done a s) k = k a s
  and_then (blocked s resume) k = blocked s (λ t. and_then (resume t) k)
  and_then exited k = exited

  infixl 5 ◌>>=◌ ◌>>◌
  abbrev pub ◌>>=◌ : Task A → (A → Task B) → Task B
  m >>= k = λ s. and_then (m s) k

  abbrev pub ◌>>◌ : Task A → Task B → Task B
  m >> n = m >>= λ _. n

abbrev pub gets : {A : Type 0} → (Os → A) → Task A
gets f s = done (f s) s

abbrev pub modify : (Os → Os) → Task (Unit {0})
modify f s = done tt (f s)

abbrev pub skip : Task (Unit {0})
skip s = done tt s

abbrev pub finished : {A : Type 0} → Option (A × Os) → Outcome A
finished none = exited
finished (some (a, s)) = done a s

abbrev pub act : Act → Task (Unit {0})
act f s = elim (f s) [ none ↦ exited | some t ↦ done tt t ]

-- `SetIntrs` keeps the low four bits.
abbrev pub disable_intrs : Task ℕ
disable_intrs s = done s.intrs (record s { intrs = 15 })

abbrev pub restore_intrs : ℕ → Task (Unit {0})
restore_intrs level = modify (λ s. record s { intrs = level % 16 })

-- The current process joins a waiting queue with a link of its own.
pub enqueue_current : Ptr → Act
enqueue_current q s =
    let (l, t) = Queue.alloc_link s.current s.store in
    if l == null
    then none
    else let (st, u) = Queue.insert_last q l t in
      elim st [ fail ↦ none | success ↦ some (record s { store = u }) ]

-- The first process of a waiting queue leaves it.
pub take_waiter : Ptr → Os → Option (Ptr × Os)
take_waiter q s =
    let l = Queue.first s.store q in
    let pcb = Queue.object s.store l in
    let (st, slot, t) = Queue.remove (some l) s.store in
    elim st [ fail ↦ none | success ↦ some (pcb, record s { store = t }) ]

-- `ProcessSleep`: the trap suspends the process and schedules another. The interrupt level is part
-- of the status that the trap saves and that the process gets back.
module _ (free_shared_pte : Ptr → ℕ → Os → Os) where
  pub process_sleep : Task (Unit {0})
  process_sleep s = elim ((Process.suspend s.current ⨾ Process.schedule free_shared_pte true) s) [
    | none ↦ exited
    | some t ↦ blocked t (λ r. done tt (record r { intrs = s.intrs }))
  ]

  -- Join the queue and sleep.
  unfoldable pub sleep_on : Ptr → Task (Unit {0})
  unfolding process_sleep
  sleep_on q = do act (enqueue_current q); process_sleep
