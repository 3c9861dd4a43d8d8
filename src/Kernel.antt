-- ===== src/Kernel.antt =====
-- The state of the kernel: the static variables of os/process.c, os/synch.c and the parts that
-- they use.
use ece695os_lab.Prelude.{
  ℕ, ◌+◌, ◌-◌, ◌%◌, ◌^◌, Bool, leb, update, Option, none, some, ◌≡◌, inl, inr, Option-cases,
}
use ece695os_lab.Queue.{Ptr, Store}
use ece695os_lab.Memory.{Memory}

-- `pcbs[i]` has the address i + 1. `frame` is the field `currentSavedFrame`, `saved_frame` the words
-- there, and `link` the field `l`.
pub record Pcb : Type 0 where
  pub flags : ℕ
  pub link : Ptr
  pub npages : ℕ
  pub pagetable : ℕ → ℕ
  pub sys_stack_area : ℕ
  pub sys_stack_ptr : ℕ
  pub frame : ℕ
  pub saved_frame : ℕ → ℕ

-- The waiting queues are queue heads of the store, at addresses of their own.
pub record Sem : Type 0 where
  pub count : ℕ
  pub inuse : ℕ

pub record Lock : Type 0 where
  pub pid : ℕ
  pub inuse : ℕ

pub record Cond : Type 0 where
  pub lock : ℕ
  pub inuse : ℕ

-- `intrs` is the interrupt level and `timer` the timer register.
pub record Os : Type 0 where
  pub store : Store
  pub pcbs : Ptr → Pcb
  pub current : Ptr
  pub sems : Ptr → Sem
  pub locks : Ptr → Lock
  pub conds : Ptr → Cond
  pub intrs : ℕ
  pub timer : ℕ
  pub memory : Memory

-- The queue heads. `sems[i]`, `locks[i]` and `conds[i]` have the address i + 1.
abbrev pub free_pcbs : Ptr
free_pcbs = 2

abbrev pub run_queue : Ptr
run_queue = 3

abbrev pub wait_queue : Ptr
wait_queue = 4

abbrev pub zombie_queue : Ptr
zombie_queue = 5

abbrev pub sem_waiting : Ptr → Ptr
sem_waiting s = 5 + s

abbrev pub lock_waiting : Ptr → Ptr
lock_waiting l = 37 + l

abbrev pub cond_waiting : Ptr → Ptr
cond_waiting c = 101 + c

-- An `int` is its bit pattern.
abbrev pub int_mod : ℕ
int_mod = 2 ^ 32

abbrev pub minus_one : ℕ
minus_one = 2 ^ 32 - 1

abbrev pub is_negative : ℕ → Bool
is_negative n = leb (2 ^ 31) n

-- `pcb - pcbs`
abbrev pub pid_of : Ptr → ℕ
pid_of p = (p + 2 ^ 32 - 1) % 2 ^ 32

abbrev pub set_pcb : Ptr → Pcb → Os → Os
set_pcb p v s = record s { pcbs = update s.pcbs p v }

-- A kernel routine that does not sleep; `none` is `exitsim`, which does not return.
abbrev pub Act : Type 0
Act = Os → Option Os

infixr 20 ◌⨾◌
abbrev pub ◌⨾◌ : Act → Act → Act
◌⨾◌ f g s = elim (f s) [ none ↦ none | some t ↦ g t ]

-- Two steps that run through, one behind the other, and a third.
pub ⨾-some : (f g h : Act) (s : Os) {t : Os} → (f ⨾ g) s ≡ some t → (f ⨾ g ⨾ h) s ≡ h t
⨾-some f g h s e = elim (Option-cases (f s)) [
  | inl n ↦ cc (rw (n, ◌⨾◌) at e)
  | inr (t, n) ↦ rw (n, ◌⨾◌) (rw (rw (n, ◌⨾◌) at e, ◌⨾◌))
]
