-- ===== src/Synch/Lock/Tests.antt =====
-- Examples for the locks of os/synch.c.
use ece695os_lab.Prelude.{ℕ, ◌≡◌, [], ◌∷◌, refl, arith}
use ece695os_lab.Queue.{Ptr, null}
use ece695os_lab.Queue.Check.{IsQueue-of}
use ece695os_lab.Kernel.{Os, lock_waiting}
use ece695os_lab.Process
use ece695os_lab.Task.{done, blocked}
use ece695os_lab.Task.Sleep.{Slept}
use ece695os_lab.Synch.{sync_fail, sync_success, find_free}
use ece695os_lab.Synch.Lock.{handle_release, handle_acquire, release, acquire, create, init}
use ece695os_lab.Synch.Lock.Release.{release-free, Handed, release-Handed}
use ece695os_lab.Synch.Lock.Acquire.{acquire-Slept}
use ece695os_lab.Sample.{os, store, free-IsQueue, ready, asleep, no_zombies, lock-IsQueue}

abbrev keep : Ptr → ℕ → Os → Os
keep p i s = s

handle_release_used : handle_release 0 os ≡ release 1 os
unfolding handle_release
handle_release_used = refl

handle_acquire_out : handle_acquire keep 64 os ≡ done sync_fail os
unfolding handle_acquire
handle_acquire_out = refl

-- No lock of the sample is free.
create_full : create os ≡ done sync_fail os
unfolding create find_free
create_full = refl

init-null : init null os ≡ done sync_fail os
unfolding init
init-null = refl

-- The second lock belongs to the second process.
release-free_example : release 2 os ≡ done sync_fail (record os { intrs = 15 })
unfolding Process.get_current_pid
release-free_example =
    release-free 2 os (λ e. absurd (omega arith)) (IsQueue-of store (lock_waiting 2) [] refl)

release-Handed_example :
    (t : Os) × (release 1 os ≡ done sync_success t)
    × Handed os t 1 4 [] (3 ∷ []) (5 ∷ []) (1 ∷ 2 ∷ []) 2
unfolding Process.get_current_pid
release-Handed_example =
    release-Handed 1 7 4 [] (3 ∷ []) (5 ∷ []) (1 ∷ 2 ∷ []) (9 ∷ 10 ∷ []) os
      (λ e. absurd (omega arith)) refl
      (record {
        synch = omega arith;
        queue = lock-IsQueue;
        object = refl;
        asleep = asleep;
        ready = ready;
        free = free-IsQueue;
      })

acquire-Slept_example :
    (t : Os) × (acquire keep 2 os ≡ blocked t (λ u. done sync_success (record u { intrs = 1 })))
    × Slept (record os { intrs = 15 }) t (lock_waiting 2) 9 1 2 [] [] (3 ∷ 4 ∷ 5 ∷ []) 1
unfolding Process.get_current_pid
acquire-Slept_example =
    acquire-Slept keep 2 9 1 2 [] [] (3 ∷ 4 ∷ 5 ∷ []) (10 ∷ []) os (λ e. absurd (omega arith)) refl
      refl
      (record {
        synch = omega arith;
        current = refl;
        queue = IsQueue-of store (lock_waiting 2) [] refl;
        ready = ready;
        asleep = asleep;
        zombies = no_zombies;
        free = free-IsQueue;
      })
