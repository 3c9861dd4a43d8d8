-- ===== src/Synch/Lock.antt =====
-- The locks of os/synch.c.
pub mod Release
pub mod Acquire
mod Tests
use ece695os_lab.Prelude.{ℕ, suc, Bool, not, none, some, ◌==◌, if◌then◌else◌, update}
use ece695os_lab.Queue
use ece695os_lab.Queue.{Ptr, null, fail, success}
use ece695os_lab.Kernel.{Os, Lock, lock_waiting, is_negative, minus_one, pid_of}
use ece695os_lab.Process
use ece695os_lab.Task.{
  Outcome, exited, Task, pure, gets, modify, skip, finished, act, disable_intrs, restore_intrs,
  take_waiter, sleep_on, ◌>>=◌, ◌>>◌,
}
use ece695os_lab.Synch.{sync_fail, sync_success, max_locks, in_range, find_free}

abbrev pub set_lock : Ptr → Lock → Os → Os
set_lock a v s = record s { locks = update s.locks a v }

abbrev pub set_pid : Ptr → ℕ → Os → Os
set_pid a pid s = set_lock a (record (s.locks a) { pid = pid }) s

pub init : Ptr → Task ℕ
init l s =
    if l == null
    then pure sync_fail s
    else let (st, t) = Queue.init (lock_waiting l) s.store in
      elim st [
        | fail ↦ exited
        | success ↦ pure sync_success (set_pid l minus_one (record s { store = t }))
      ]

abbrev pub is_free_lock : Os → ℕ → Bool
is_free_lock s i = (s.locks (suc i)).inuse == 0

abbrev use_lock : ℕ → Os → Os
use_lock i s = set_lock (suc i) (record (s.locks (suc i)) { inuse = 1 }) s

pub create : Task ℕ
create = do
  intrval ← disable_intrs
  l ← gets (λ s. find_free (is_free_lock s) max_locks 0)
  modify (λ s. if l == max_locks then s else use_lock l s)
  restore_intrs intrval
  if l == max_locks
      then pure sync_fail
      else do st ← init (suc l); if not (st == sync_success) then pure sync_fail else pure l

-- The new owner of a lock that is released: the first process that waits, if any.
pass_on : Ptr → Task (Unit {0})
pass_on k = do
  empty ← gets (λ s. Queue.is_empty s.store (lock_waiting k))
  if empty then skip else do
    pcb ← λ s. finished (take_waiter (lock_waiting k) s)
    modify (λ s. set_pid k (pid_of pcb) s)
    act (Process.wakeup pcb)

-- The early return leaves the interrupts disabled.
pub release : Ptr → Task ℕ
release k = if k == null then pure sync_fail else do
  intrs ← disable_intrs
  owner ← gets (λ s. (s.locks k).pid)
  me ← gets Process.get_current_pid
  if not (owner == me)
      then pure sync_fail
      else do modify (λ s. set_pid k minus_one s); pass_on k; restore_intrs intrs; pure sync_success

unfoldable pub handle_release : ℕ → Task ℕ
handle_release lock = if not (in_range lock max_locks) then pure sync_fail else do
  inuse ← gets (λ s. (s.locks (suc lock)).inuse)
  if inuse == 0 then pure sync_fail else release (suc lock)

module _ (free_shared_pte : Ptr → ℕ → Os → Os) where
  pub acquire : Ptr → Task ℕ
  acquire k = if k == null then pure sync_fail else do
    intrval ← disable_intrs
    owner ← gets (λ s. (s.locks k).pid)
    me ← gets Process.get_current_pid
    if owner == me then (do restore_intrs intrval; pure sync_success) else do
      if not (is_negative owner)
          then sleep_on free_shared_pte (lock_waiting k)
          else modify (λ s. set_pid k me s)
      restore_intrs intrval
      pure sync_success

  pub handle_acquire : ℕ → Task ℕ
  handle_acquire lock = if not (in_range lock max_locks) then pure sync_fail else do
    inuse ← gets (λ s. (s.locks (suc lock)).inuse)
    if inuse == 0 then pure sync_fail else acquire (suc lock)
