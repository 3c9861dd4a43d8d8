-- ===== src/Synch/Cond.antt =====
-- The condition variables of os/synch.c.
pub mod Wake
pub mod Wait
mod Tests
use ece695os_lab.Prelude.{
  ℕ, zero, suc, Bool, true, false, not, none, some, ◌==◌, if◌then◌else◌, update,
}
use ece695os_lab.Queue
use ece695os_lab.Queue.{Ptr, null, fail, success}
use ece695os_lab.Kernel.{Os, Cond, Act, ◌⨾◌, cond_waiting, minus_one}
use ece695os_lab.Process
use ece695os_lab.Task.{
  Outcome, exited, Task, pure, gets, modify, skip, finished, act, disable_intrs, restore_intrs,
  enqueue_current, take_waiter, process_sleep, ◌>>=◌, ◌>>◌,
}
use ece695os_lab.Synch.{sync_fail, sync_success, max_locks, max_conds, in_range, find_free}
use ece695os_lab.Synch.Lock

abbrev pub set_cond : Ptr → Cond → Os → Os
set_cond a v s = record s { conds = update s.conds a v }

pub init : Ptr → Task ℕ
init c s =
    if c == null
    then pure minus_one s
    else let (st, t) = Queue.init (cond_waiting c) s.store in
      elim st [ fail ↦ exited | success ↦ pure sync_success (record s { store = t }) ]

abbrev pub is_free_cond : Os → ℕ → Bool
is_free_cond s i = (s.conds (suc i)).inuse == 0

-- The lock handle is stored as it is given; that the lock is in use is not tested.
pub create : ℕ → Task ℕ
create lock = if not (in_range lock max_locks) then pure minus_one else do
  intrval ← disable_intrs
  c ← gets (λ s. find_free (is_free_cond s) max_conds 0)
  modify (λ s. if c == max_conds then s else set_cond (suc c) (record { lock = lock; inuse = 1 }) s)
  restore_intrs intrval
  if c == max_conds
      then pure minus_one
      else do st ← init (suc c); if not (st == sync_success) then pure minus_one else pure c

-- Whether the current process owns the lock of the condition variable.
abbrev pub owns_lock : Ptr → Os → Bool
owns_lock c s = (s.locks (suc (s.conds c).lock)).pid == Process.get_current_pid s

-- One process that waits is woken up.
wake_first : Ptr → Act
wake_first c s = elim (take_waiter (cond_waiting c) s) [
  | none ↦ none
  | some (pcb, t) ↦ Process.wakeup pcb t
]

-- The early return leaves the interrupts disabled.
pub signal : Ptr → Task ℕ
signal c = if c == null then pure sync_fail else do
  intrs ← disable_intrs
  owner ← gets (owns_lock c)
  if not owner then pure sync_fail else do
    empty ← gets (λ s. Queue.is_empty s.store (cond_waiting c))
    if empty then skip else act (wake_first c)
    restore_intrs intrs
    pure sync_success

-- The loop of `CondBroadcast`; `none` is also the end of the fuel.
wake_all : ℕ → Ptr → Act
wake_all zero c s = none
wake_all (suc fuel) c s =
    let rest = (wake_first c ⨾ wake_all fuel c) s in
    if Queue.is_empty s.store (cond_waiting c) then some s else rest

-- A queue holds at most the links of the pool, so one round more is enough.
pub broadcast : Ptr → Task ℕ
broadcast c = if c == null then pure sync_fail else do
  intrs ← disable_intrs
  owner ← gets (owns_lock c)
  if not owner
      then pure sync_fail
      else do act (wake_all (suc Queue.queue_max_links) c); restore_intrs intrs; pure sync_success

abbrev with_handle : (Ptr → Task ℕ) → ℕ → Task ℕ
with_handle f c = if not (in_range c max_conds) then pure sync_fail else do
  inuse ← gets (λ s. (s.conds (suc c)).inuse)
  if inuse == 0 then pure sync_fail else f (suc c)

pub handle_signal : ℕ → Task ℕ
handle_signal = with_handle signal

pub handle_broadcast : ℕ → Task ℕ
handle_broadcast = with_handle broadcast

-- A process that does not own the lock ends the simulation. The results of the lock operations are
-- not looked at.
module _ (free_shared_pte : Ptr → ℕ → Os → Os) where
  pub wait : Ptr → Task ℕ
  wait c = if c == null then pure sync_fail else do
    intrval ← disable_intrs
    owner ← gets (owns_lock c)
    if not owner then (λ s. exited) else skip
    act (enqueue_current (cond_waiting c))
    lock ← gets (λ s. (s.conds c).lock)
    Lock.handle_release lock
    process_sleep free_shared_pte
    restore_intrs intrval
    lock ← gets (λ s. (s.conds c).lock)
    Lock.handle_acquire free_shared_pte lock
    pure sync_success

  pub handle_wait : ℕ → Task ℕ
  handle_wait = with_handle wait
