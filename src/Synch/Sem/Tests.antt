-- ===== src/Synch/Sem/Tests.antt =====
-- Examples for the semaphores of os/synch.c.
use ece695os_lab.Prelude.{ℕ, suc, ◌<◌, ◌≤◌, ◌≡◌, ◌≢◌, [], ◌∷◌, refl, arith}
use ece695os_lab.Queue.{Ptr}
use ece695os_lab.Kernel.{Os, sem_waiting}
use ece695os_lab.Task.{done, blocked}
use ece695os_lab.Task.Sleep.{Slept}
use ece695os_lab.Synch.{sync_fail, sync_success}
use ece695os_lab.Synch.Sem.{handle_signal, handle_wait, signal, wait, create, set_count}
use ece695os_lab.Synch.Sem.Signal.{Passed, signal-Passed}
use ece695os_lab.Synch.Sem.Wait.{wait-taken, wait-Slept}
use ece695os_lab.Synch.Sem.Create.{Created, create-Created}
use ece695os_lab.Sample.{os, free-IsQueue, ready, asleep, no_zombies, sem-IsQueue}

abbrev keep : Ptr → ℕ → Os → Os
keep p i s = s

-- The first semaphore is in use, the second one is not, and there are 32 of them.
handle_signal_used : handle_signal 0 os ≡ signal 1 os
unfolding handle_signal
handle_signal_used = refl

handle_signal_unused : handle_signal 1 os ≡ done sync_fail os
unfolding handle_signal
handle_signal_unused = refl

handle_wait_used : handle_wait keep 0 os ≡ wait keep 1 os
unfolding handle_wait
handle_wait_used = refl

handle_wait_out : handle_wait keep 32 os ≡ done sync_fail os
unfolding handle_wait
handle_wait_out = refl

signal-Passed_example :
    (t : Os) × (signal 1 os ≡ done sync_success t)
    × Passed os t 1 3 [] [] (4 ∷ 5 ∷ []) (1 ∷ 2 ∷ []) 2
signal-Passed_example =
    signal-Passed 1 6 3 [] [] (4 ∷ 5 ∷ []) (1 ∷ 2 ∷ []) (9 ∷ 10 ∷ []) os (λ e. absurd (omega arith))
      (omega arith)
      (record {
        synch = omega arith;
        queue = sem-IsQueue;
        object = refl;
        asleep = asleep;
        ready = ready;
        free = free-IsQueue;
      })

wait-taken_example : wait keep 2 os ≡ done sync_success (record (set_count 2 1 os) { intrs = 1 })
wait-taken_example = wait-taken keep 2 os (λ e. absurd (omega arith)) (omega arith) (omega arith)

wait-Slept_example :
    (t : Os) × (wait keep 1 os ≡ blocked t (λ u. done sync_success (record u { intrs = 1 })))
    × Slept (record os { intrs = 15 }) t (sem_waiting 1) 9 1 2 (6 ∷ []) [] (3 ∷ 4 ∷ 5 ∷ []) 1
wait-Slept_example =
    wait-Slept keep 1 9 1 2 (6 ∷ []) [] (3 ∷ 4 ∷ 5 ∷ []) (10 ∷ []) os (λ e. absurd (omega arith))
      refl
      (record {
        synch = omega arith;
        current = refl;
        queue = sem-IsQueue;
        ready = ready;
        asleep = asleep;
        zombies = no_zombies;
        free = free-IsQueue;
      })

create-Created_example :
    (i : ℕ) × (t : Os) × (create 5 os ≡ done i t)
    × (i ≤ 2)
    × ((os.sems (suc i)).inuse ≡ 0)
    × ((a : ℕ) → a < i → (os.sems (suc a)).inuse ≢ 0)
    × Created os t i 5
create-Created_example = create-Created 5 2 os (omega arith) refl
