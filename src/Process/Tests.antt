-- ===== src/Process/Tests.antt =====
-- Examples for the process queues of os/process.c.
use ece695os_lab.Prelude.{ℕ, ◌≡◌, ◌≢◌, false, List, [], ◌∷◌, refl, some}
use ece695os_lab.Queue.{Ptr}
use ece695os_lab.Queue.IsQueue.{IsQueue}
use ece695os_lab.Kernel.{Os, run_queue, wait_queue, zombie_queue}
use ece695os_lab.Process.{
  suspend, wakeup, destroy, schedule, with_status, status_waiting, status_runnable, status_zombie,
  process_quantum, set_result,
}
use ece695os_lab.Process.Holds.{Holds}
use ece695os_lab.Process.Moves.{
  Transferred, suspend-Transferred, wakeup-Transferred, destroy-Transferred,
}
use ece695os_lab.Process.Schedule.{schedule-rotate}
use ece695os_lab.Sample.{os, free-IsQueue, ready, asleep, zombies, no_zombies}

-- The result goes to the word for r1.
set_result_lem : ((set_result 2 7 os).pcbs 2).saved_frame 11 ≡ 7
unfolding set_result
set_result_lem = refl

abbrev keep : Ptr → ℕ → Os → Os
keep p i s = s

suspend-Transferred_example :
    (t : Os) × (suspend 1 os ≡ some t)
    × Transferred os t run_queue wait_queue 1
        (2 ∷ [])
        (3 ∷ 4 ∷ 5 ∷ 1 ∷ [])
        (with_status 0x202 status_waiting)
        2
suspend-Transferred_example =
    suspend-Transferred os 1 [] (2 ∷ []) (3 ∷ 4 ∷ 5 ∷ []) (9 ∷ 10 ∷ []) free-IsQueue ready asleep

wakeup-Transferred_example :
    (t : Os) × (wakeup 4 os ≡ some t)
    × Transferred os t wait_queue run_queue 4
        (3 ∷ 5 ∷ [])
        (1 ∷ 2 ∷ 4 ∷ [])
        (with_status 0x202 status_runnable)
        2
wakeup-Transferred_example =
    wakeup-Transferred os 4 (3 ∷ []) (5 ∷ []) (1 ∷ 2 ∷ []) (9 ∷ 10 ∷ []) free-IsQueue asleep ready

destroy-Transferred_example :
    (t : Os) × (destroy 1 os ≡ some t)
    × Transferred os t run_queue zombie_queue 1
        (2 ∷ [])
        (1 ∷ [])
        (with_status 0x202 status_zombie)
        2
destroy-Transferred_example =
    destroy-Transferred os 1 [] (2 ∷ []) [] (9 ∷ 10 ∷ []) free-IsQueue ready zombies

schedule-rotate_example :
    (t : Os) × (schedule keep false os ≡ some t)
    × (t ≡ record os { store = t.store; current = 2; timer = process_quantum })
    × Holds t run_queue (2 ∷ 1 ∷ [])
    × ((u : Ptr) (ws : List Ptr) → u ≢ run_queue → Holds os u ws → Holds t u ws)
    × ((u : Ptr) (ws : List Ptr) → u ≢ run_queue → IsQueue os.store u ws → IsQueue t.store u ws)
    × ((a : Ptr) → (t.store.links a).object ≡ (os.store.links a).object)
schedule-rotate_example = schedule-rotate keep os 1 (2 ∷ []) ready no_zombies
