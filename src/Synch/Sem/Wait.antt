-- ===== src/Synch/Sem/Wait.antt =====
-- `SemWait` of os/synch.c.
use ece695os_lab.Prelude.{
  ℕ, ◌+◌, ◌-◌, ◌%◌, ◌^◌, ◌<◌, ◌≡◌, ◌≢◌, true, false, List, ◌==◌, refl, arith, length,
}
use ece695os_lab.Queue.{Ptr, null}
use ece695os_lab.Kernel.{Os, sem_waiting}
use ece695os_lab.Task.{done, blocked}
use ece695os_lab.Task.Sleep.{MaySleep, MaySleep-intrs, Slept, sleep_on-Slept}
use ece695os_lab.Synch.{sync_success}
use ece695os_lab.Synch.Sem.{wait, set_count, is_le_zero}

module _ (free_shared_pte : Ptr → ℕ → Os → Os) where
  -- `SemWait` on a semaphore with a positive count takes one unit off and does not sleep.
  pub wait-taken :
      (sem : Ptr) (s : Os)
      → sem ≢ null
      → 0 < (s.sems sem).count
      → (s.sems sem).count < 2 ^ 31
      → wait free_shared_pte sem s
        ≡ done sync_success
            (record (set_count sem ((s.sems sem).count - 1) s) { intrs = s.intrs % 16 })
  unfolding wait
  wait-taken sem s n pos small =
      let e : (sem == null) ≡ false = ground arith in
      let high : is_le_zero (s.sems sem).count ≡ false = ground arith in
      let c : ((s.sems sem).count + 2 ^ 32 - 1) % 2 ^ 32 ≡ (s.sems sem).count - 1 = omega arith in
      rw (e, high) (rw c refl)

  -- `SemWait` on a semaphore whose count is 0 or less blocks: the current process stands at the end
  -- of its queue and sleeps, the next process of the run queue runs, and the semaphore keeps its
  -- count. When the process is scheduled again it returns with success and its interrupt level.
  pub wait-Slept :
      (sem l p r : Ptr) (xs rs ws fs : List Ptr) (s : Os)
      → sem ≢ null
      → is_le_zero (s.sems sem).count ≡ true
      → MaySleep s (sem_waiting sem) l p r xs rs ws fs
      → (t : Os) × (wait free_shared_pte sem s
          ≡ blocked t (λ u. done sync_success (record u { intrs = s.intrs % 16 })))
        × Slept (record s { intrs = 15 }) t (sem_waiting sem) l p r xs rs ws (length fs)
  unfolding wait
  wait-Slept sem l p r xs rs ws fs s n low m =
      let e : (sem == null) ≡ false = ground arith in
      let (t, run, k) =
        sleep_on-Slept free_shared_pte (sem_waiting sem) l p r xs rs ws fs (record s { intrs = 15 })
          (MaySleep-intrs 15 m) in
      (t, rw (e, low) (rw run refl), k)
