-- ===== src/Synch/Sem.antt =====
-- The semaphores of os/synch.c.
pub mod Signal
pub mod Wait
pub mod Create
mod Tests
use ece695os_lab.Prelude.{
  ℕ, suc, ◌+◌, ◌-◌, ◌%◌, ◌^◌, Bool, true, false, not, ◌||◌, none, some, ◌==◌, if◌then◌else◌, update,
}
use ece695os_lab.Queue
use ece695os_lab.Queue.{Ptr, null, fail, success}
use ece695os_lab.Kernel.{Os, Sem, sem_waiting, is_negative}
use ece695os_lab.Process
use ece695os_lab.Task.{
  Outcome, exited, Task, pure, gets, modify, skip, finished, act, disable_intrs, restore_intrs,
  take_waiter, sleep_on, ◌>>=◌, ◌>>◌,
}
use ece695os_lab.Synch.{sync_fail, sync_success, max_sems, in_range, find_free}

abbrev pub set_sem : Ptr → Sem → Os → Os
set_sem a v s = record s { sems = update s.sems a v }

abbrev pub set_count : Ptr → ℕ → Os → Os
set_count a n s = set_sem a (record (s.sems a) { count = n }) s

pub init : Ptr → ℕ → Task ℕ
init sem count s =
    if sem == null
    then pure sync_fail s
    else let (st, t) = Queue.init (sem_waiting sem) s.store in
      elim st [
        | fail ↦ exited
        | success ↦ pure sync_success (set_count sem count (record s { store = t }))
      ]

abbrev pub is_free_sem : Os → ℕ → Bool
is_free_sem s i = (s.sems (suc i)).inuse == 0

abbrev use_sem : ℕ → Os → Os
use_sem i s = set_sem (suc i) (record (s.sems (suc i)) { inuse = 1 }) s

pub create : ℕ → Task ℕ
create count = do
  intrval ← disable_intrs
  sem ← gets (λ s. find_free (is_free_sem s) max_sems 0)
  modify (λ s. if sem == max_sems then s else use_sem sem s)
  restore_intrs intrval
  if sem == max_sems then pure sync_fail else do
    st ← init (suc sem) count
    if not (st == sync_success) then pure sync_fail else pure sem

-- `count++` and `count--`
abbrev pub incr_int : ℕ → ℕ
incr_int n = (n + 1) % 2 ^ 32

abbrev pub decr_int : ℕ → ℕ
decr_int n = (n + 2 ^ 32 - 1) % 2 ^ 32

-- `count <= 0`
abbrev pub is_le_zero : ℕ → Bool
is_le_zero n = is_negative n || (n == 0)

-- The part of `SemSignal` that wakes a process up, if one waits.
wake : Ptr → Task (Unit {0})
wake sem = do
  empty ← gets (λ s. Queue.is_empty s.store (sem_waiting sem))
  if empty then skip else do
    pcb ← λ s. finished (take_waiter (sem_waiting sem) s)
    act (Process.wakeup pcb)
    modify (λ s. set_count sem (decr_int (s.sems sem).count) s)

pub signal : Ptr → Task ℕ
signal sem = if sem == null then pure sync_fail else do
  intrs ← disable_intrs
  modify (λ s. set_count sem (incr_int (s.sems sem).count) s)
  count ← gets (λ s. (s.sems sem).count)
  if is_le_zero count then skip else wake sem
  restore_intrs intrs
  pure sync_success

pub handle_signal : ℕ → Task ℕ
handle_signal sem = if not (in_range sem max_sems) then pure sync_fail else do
  inuse ← gets (λ s. (s.sems (suc sem)).inuse)
  if inuse == 0 then pure sync_fail else signal (suc sem)

module _ (free_shared_pte : Ptr → ℕ → Os → Os) where
  pub wait : Ptr → Task ℕ
  wait sem = if sem == null then pure sync_fail else do
    intrval ← disable_intrs
    count ← gets (λ s. (s.sems sem).count)
    if is_le_zero count
        then sleep_on free_shared_pte (sem_waiting sem)
        else modify (λ s. set_count sem (decr_int (s.sems sem).count) s)
    restore_intrs intrval
    pure sync_success

  pub handle_wait : ℕ → Task ℕ
  handle_wait sem = if not (in_range sem max_sems) then pure sync_fail else do
    inuse ← gets (λ s. (s.sems (suc sem)).inuse)
    if inuse == 0 then pure sync_fail else wait (suc sem)
