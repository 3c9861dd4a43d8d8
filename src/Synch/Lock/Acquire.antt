-- ===== src/Synch/Lock/Acquire.antt =====
-- `LockAcquire` of os/synch.c.
use ece695os_lab.Prelude.{
  ℕ, ◌%◌, ◌≡◌, ◌≢◌, true, false, List, ◌==◌, refl, arith, ==_self, length, ◌||◌, Bool-cases, inl,
  inr,
}
use ece695os_lab.Queue.{Ptr, null}
use ece695os_lab.Kernel.{Os, lock_waiting, is_negative}
use ece695os_lab.Process
use ece695os_lab.Task.{done, blocked}
use ece695os_lab.Task.Sleep.{MaySleep, MaySleep-intrs, Slept, sleep_on-Slept}
use ece695os_lab.Synch.{sync_success}
use ece695os_lab.Synch.Lock.{acquire, set_pid}

module _ (free_shared_pte : Ptr → ℕ → Os → Os) where
  -- `LockAcquire` on a lock that is free, or that the current process owns, returns success at
  -- once, with the current process as the owner.
  acquire-done :
      (k : Ptr) (s : Os)
      → k ≢ null
      → ((s.locks k).pid == Process.get_current_pid s || is_negative (s.locks k).pid) ≡ true
      → (t : Os) × (acquire free_shared_pte k s ≡ done sync_success t)
        × ((t.locks k).pid ≡ Process.get_current_pid s)
        × ((a : Ptr) → (a == k) ≡ false → t.locks a ≡ s.locks a)
        × (t ≡ record s { locks = t.locks; intrs = s.intrs % 16 })
  unfolding acquire Process.get_current_pid
  acquire-done k s n available =
      let e : (k == null) ≡ false = ground arith in
      elim (Bool-cases ((s.locks k).pid == Process.get_current_pid s)) [
        | inl m ↦
            (record s { intrs = s.intrs % 16 }, rw (e, m) refl, ground arith, λ a d. refl, refl)
        | inr m ↦
            let free : is_negative (s.locks k).pid ≡ true = ground arith in
            (
              record (set_pid k (Process.get_current_pid s) s) { intrs = s.intrs % 16 },
              rw (e, m, free) refl,
              rw (==_self k) refl,
              λ a d. rw d refl,
              refl,
            )
      ]

  -- `LockAcquire` on a lock that another process owns blocks: the current process stands at the end
  -- of its queue and sleeps, the next process of the run queue runs, and the lock keeps its owner.
  -- When the process is scheduled again it returns with success and its interrupt level.
  pub acquire-Slept :
      (k l p r : Ptr) (xs rs ws fs : List Ptr) (s : Os)
      → k ≢ null
      → ((s.locks k).pid == Process.get_current_pid s) ≡ false
      → is_negative (s.locks k).pid ≡ false
      → MaySleep s (lock_waiting k) l p r xs rs ws fs
      → (t : Os) × (acquire free_shared_pte k s
          ≡ blocked t (λ u. done sync_success (record u { intrs = s.intrs % 16 })))
        × Slept (record s { intrs = 15 }) t (lock_waiting k) l p r xs rs ws (length fs)
  unfolding acquire Process.get_current_pid
  acquire-Slept k l p r xs rs ws fs s n other owned m =
      let e : (k == null) ≡ false = ground arith in
      let (t, run, z) =
        sleep_on-Slept free_shared_pte (lock_waiting k) l p r xs rs ws fs (record s { intrs = 15 })
          (MaySleep-intrs 15 m) in
      (t, rw (e, other, owned) (rw run refl), z)
