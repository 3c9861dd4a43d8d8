-- ===== src/Synch/Cond/Wait.antt =====
-- `CondWait` of os/synch.c.
use ece695os_lab.Prelude.{
  ℕ, suc, ◌%◌, ◌<◌, ◌≡◌, ◌≢◌, true, false, List, [], ◌==◌, refl, arith, length, some, ap, ◌∙◌,
}
use ece695os_lab.Queue.{Ptr, null, Store, free_links}
use ece695os_lab.Queue.IsQueue.{IsQueue}
use ece695os_lab.Kernel.{Os, lock_waiting, cond_waiting, minus_one, run_queue, wait_queue}
use ece695os_lab.Process
use ece695os_lab.Process.Holds.{Holds-same}
use ece695os_lab.Task.{
  Task, Outcome, done, blocked, act, and_then, enqueue_current, process_sleep, sleep_on,
}
use ece695os_lab.Task.Sleep.{
  MaySleep, Slept, sleep_on-Slept, enqueued, enqueue_current-some, enqueued-Enqueued,
}
use ece695os_lab.Synch.{sync_success, in_range, max_locks, max_conds}
use ece695os_lab.Synch.Lock
use ece695os_lab.Synch.Lock.{set_pid, release}
use ece695os_lab.Synch.Lock.Release.{release-free}
use ece695os_lab.Synch.Cond.{wait, handle_wait, owns_lock}

-- The address of the lock of a condition variable.
abbrev pub lock_of : Ptr → Os → Ptr
lock_of c s = suc (s.conds c).lock

-- The owner releases a lock for which nobody waits.
release-owned :
    (k : Ptr) (s : Os)
    → k ≢ null
    → IsQueue s.store (lock_waiting k) []
    → (s.locks k).pid ≡ Process.get_current_pid s
    → release k s ≡ done sync_success (record (set_pid k minus_one s) { intrs = s.intrs % 16 })
release-owned k s n w mine =
    let e : ((s.locks k).pid == Process.get_current_pid s) ≡ true = ground arith in
    release-free k s n w ∙ rw e refl

-- Writes to other parts do not matter.
MaySleep-same :
    {s t : Os} {q l p r : Ptr} {xs rs ws fs : List Ptr}
    → t.store ≡ s.store
    → t.pcbs ≡ s.pcbs
    → t.current ≡ s.current
    → MaySleep s q l p r xs rs ws fs
    → MaySleep t q l p r xs rs ws fs
MaySleep-same {s} {t} {q} {l} {p} {r} {xs} {rs} {ws} e f g m = record {
  synch = m.synch;
  current = g ∙ m.current;
  queue = rw e (m.queue);
  ready = Holds-same run_queue _ e (λ a. ap (λ h. (h a).link) f) m.ready;
  asleep = Holds-same wait_queue ws e (λ a. ap (λ h. (h a).link) f) m.asleep;
  zombies = rw e (m.zombies);
  free = rw e (m.free);
}

module _ (free_shared_pte : Ptr → ℕ → Os → Os) where
  -- What a process does in `CondWait` when it is scheduled again: it asks for the lock.
  abbrev pub woken_up : Ptr → ℕ → Task ℕ
  woken_up c intrval u =
      and_then
        (Lock.handle_acquire free_shared_pte (u.conds c).lock (record u { intrs = intrval % 16 }))
        (λ r. done sync_success)

  -- The run up to the sleep, step by step.
  wait-steps :
      (c : Ptr) (s : Os) (joined : Store) (u v : Os) (resume : Os → Outcome (Unit {0}))
      → c ≢ null
      → owns_lock c s ≡ true
      → in_range (s.conds c).lock max_locks ≡ true
      → (s.locks (lock_of c s)).inuse ≢ 0
      → enqueue_current (cond_waiting c) (record s { intrs = 15 })
        ≡ some (record s { store = joined; intrs = 15 })
      → release (lock_of c s) (record s { store = joined; intrs = 15 }) ≡ done sync_success u
      → process_sleep free_shared_pte u ≡ blocked v resume
      → wait free_shared_pte c s ≡ blocked v (λ x. and_then (resume x) (λ z. woken_up c s.intrs))
  unfolding wait Lock.handle_release Process.get_current_pid
  wait-steps c s joined u v resume n owner range used enters released asleep =
      let e : (c == null) ≡ false = ground arith in
      let z : ((s.locks (lock_of c s)).inuse == 0) ≡ false = ground arith in
      rw (e, owner, act, enters) (rw (range, z) (rw (released, asleep) refl))

  -- The wait, for a condition variable that is there.
  wait-woken_up :
      (c l p r : Ptr) (xs rs ws fs : List Ptr) (s : Os)
      → c ≢ null
      → (s.conds c).lock < max_locks
      → (s.locks (lock_of c s)).inuse ≢ 0
      → (s.locks (lock_of c s)).pid ≡ Process.get_current_pid s
      → IsQueue s.store (lock_waiting (lock_of c s)) []
      → MaySleep s (cond_waiting c) l p r xs rs ws fs
      → (t : Os) × (wait free_shared_pte c s ≡ blocked t (woken_up c s.intrs))
        × Slept
            (record (set_pid (lock_of c s) minus_one s) { intrs = 15 })
            t
            (cond_waiting c)
            l
            p
            r
            xs
            rs
            ws
            (length fs)
  unfolding sleep_on Process.get_current_pid
  wait-woken_up c l p r xs rs ws fs s n small used mine empty m =
      let k = lock_of c s in
      let q = cond_waiting c in
      let nq : q ≢ null = λ e. absurd (omega arith) in
      let nf : q ≢ free_links = λ e. absurd (omega arith) in
      let s0 : Os = record s { intrs = 15 } in
      let s1 : Os = record (set_pid k minus_one s) { intrs = 15 } in
      let joined = enqueued-Enqueued s0 q l xs fs nq nf m.queue m.free in
      let e0 = enqueue_current-some s0 q l xs fs nq nf m.queue m.free in
      let e1 = enqueue_current-some s1 q l xs fs nq nf m.queue m.free in
      let t0 = enqueued s0 q l xs fs nq nf m.queue m.free in
      let vacant =
        joined.others (lock_waiting k) [] (λ e. absurd (omega arith))
          (λ e. absurd (omega (arith, small, e))) (λ e. absurd (omega arith)) empty in
      let released = release-owned k t0 (λ e. absurd (omega arith)) vacant mine in
      let (t, run, slept) =
        sleep_on-Slept free_shared_pte q l p r xs rs ws fs s1 (MaySleep-same refl refl refl m) in
      let asleep = rw (e1, act) at run in
      let range : in_range (s.conds c).lock max_locks ≡ true = ground arith in
      (
        t,
        wait-steps c s t0.store _ t _ n (ground (arith, mine)) range used e0 released asleep,
        slept,
      )

  -- CondHandleWait of a condition variable in use, by the owner of its lock, for which nobody waits,
  -- when the process may sleep: it leaves the lock free, stands at the end of the queue of the
  -- condition variable and sleeps, and the next process of the run queue runs. When it is scheduled
  -- again it has its interrupt level and asks for the lock with LockHandleAcquire; then the call ends
  -- with success.
  pub handle_wait-Slept :
      (c l p r : Ptr) (xs rs ws fs : List Ptr) (s : Os)
      → c < max_conds
      → (s.conds (suc c)).inuse ≢ 0
      → (s.conds (suc c)).lock < max_locks
      → (s.locks (lock_of (suc c) s)).inuse ≢ 0
      → (s.locks (lock_of (suc c) s)).pid ≡ Process.get_current_pid s
      → IsQueue s.store (lock_waiting (lock_of (suc c) s)) []
      → MaySleep s (cond_waiting (suc c)) l p r xs rs ws fs
      → (t : Os) × (handle_wait free_shared_pte c s ≡ blocked t (woken_up (suc c) s.intrs))
        × Slept
            (record (set_pid (lock_of (suc c) s) minus_one s) { intrs = 15 })
            t
            (cond_waiting (suc c))
            l
            p
            r
            xs
            rs
            ws
            (length fs)
  unfolding handle_wait
  handle_wait-Slept c l p r xs rs ws fs s room there small used mine empty m =
      let range : in_range c max_conds ≡ true = ground arith in
      let z : ((s.conds (suc c)).inuse == 0) ≡ false = ground arith in
      let (t, run, slept) =
        wait-woken_up (suc c) l p r xs rs ws fs s (λ e. absurd (omega arith)) small used mine empty
          m in
      (t, rw (range, z) run, slept)
