-- ===== src/Synch/Cond/Tests.antt =====
-- Examples for the condition variables of os/synch.c.
use ece695os_lab.Prelude.{ℕ, ◌≡◌, [], ◌∷◌, refl, arith}
use ece695os_lab.Queue.{Ptr, null}
use ece695os_lab.Queue.Check.{IsQueue-of}
use ece695os_lab.Kernel.{Os, cond_waiting, lock_waiting, minus_one}
use ece695os_lab.Process
use ece695os_lab.Task.{done, blocked, exited}
use ece695os_lab.Task.Waiters.{Woken}
use ece695os_lab.Task.Sleep.{Slept}
use ece695os_lab.Synch.Lock.{set_pid}
use ece695os_lab.Synch.Cond.Wait.{woken_up, handle_wait-Slept}
use ece695os_lab.Synch.{sync_fail, sync_success}
use ece695os_lab.Synch.Cond.{
  signal, broadcast, wait, handle_signal, handle_broadcast, handle_wait, init, create,
}
use ece695os_lab.Synch.Cond.Wake.{signal-Woken, AllWoken, broadcast-AllWoken, signal-broadcast}
use ece695os_lab.Sample.{os, store, free-IsQueue, ready, asleep, cond-IsQueue, no_zombies}

abbrev keep : Ptr → ℕ → Os → Os
keep p i s = s

handle_signal_used : handle_signal 0 os ≡ signal 1 os
unfolding handle_signal
handle_signal_used = refl

handle_broadcast_out : handle_broadcast 32 os ≡ done sync_fail os
unfolding handle_broadcast
handle_broadcast_out = refl

handle_wait_used : handle_wait keep 0 os ≡ wait keep 1 os
unfolding handle_wait
handle_wait_used = refl

wait-null : wait keep null os ≡ done sync_fail os
unfolding wait
wait-null = refl

-- A wait without the lock ends the simulation.
wait_unowned : wait keep 1 (record os { current = 2 }) ≡ exited
unfolding wait Process.get_current_pid
wait_unowned = refl

init-null : init null os ≡ done minus_one os
unfolding init
init-null = refl

create_out : create 64 os ≡ done minus_one os
unfolding create
create_out = refl

signal-Woken_example :
    (t : Os) × (signal 1 os ≡ done sync_success t)
    × (t ≡ record os { store = t.store; pcbs = t.pcbs; intrs = 1 })
    × Woken os t (cond_waiting 1) 5 [] (3 ∷ 4 ∷ []) [] (1 ∷ 2 ∷ []) 2
unfolding Process.get_current_pid
signal-Woken_example =
    signal-Woken 1 8 5 [] (3 ∷ 4 ∷ []) [] (1 ∷ 2 ∷ []) (9 ∷ 10 ∷ []) os (λ e. absurd (omega arith))
      refl
      (record {
        synch = omega arith;
        queue = cond-IsQueue;
        object = refl;
        asleep = asleep;
        ready = ready;
        free = free-IsQueue;
      })

broadcast-AllWoken_example :
    (t : Os) × (broadcast 1 os ≡ done sync_success (record t { intrs = 1 }))
    × AllWoken (record os { intrs = 15 }) t (cond_waiting 1) (5 ∷ []) (3 ∷ 4 ∷ []) (1 ∷ 2 ∷ []) 2
unfolding Process.get_current_pid
broadcast-AllWoken_example =
    broadcast-AllWoken 1 (8 ∷ []) (3 ∷ 4 ∷ 5 ∷ []) (3 ∷ 4 ∷ []) (1 ∷ 2 ∷ []) (9 ∷ 10 ∷ []) os
      (λ e. absurd (omega arith)) refl cond-IsQueue (3 ∷ 4 ∷ [], [], refl, refl) asleep ready
      free-IsQueue

signal-broadcast_example :
    (signal 2 os ≡ done sync_success os) × (broadcast 2 os ≡ done sync_success os)
unfolding Process.get_current_pid
signal-broadcast_example =
    signal-broadcast 2 os (λ e. absurd (omega arith)) (IsQueue-of store (cond_waiting 2) [] refl)

-- A state in which the first condition variable has the third lock, for which nobody waits.
abbrev alone : Os
alone = record os { conds = λ i. record { lock = 2; inuse = 1 } }

handle_wait-Slept_example :
    (t : Os) × (handle_wait keep 0 alone ≡ blocked t (woken_up keep 1 1))
    × Slept
        (record (set_pid 3 minus_one alone) { intrs = 15 })
        t
        (cond_waiting 1)
        9
        1
        2
        (8 ∷ [])
        []
        (3 ∷ 4 ∷ 5 ∷ [])
        1
unfolding Process.get_current_pid
handle_wait-Slept_example =
    handle_wait-Slept keep 0 9 1 2 (8 ∷ []) [] (3 ∷ 4 ∷ 5 ∷ []) (10 ∷ []) alone (omega arith)
      (λ e. absurd (omega arith)) (omega arith) (λ e. absurd (omega arith)) refl
      (IsQueue-of store (lock_waiting 3) [] refl)
      (record {
        synch = omega arith;
        current = refl;
        queue = cond-IsQueue;
        ready = record { queue = ready.queue; owned = ready.owned };
        asleep = record { queue = asleep.queue; owned = asleep.owned };
        zombies = no_zombies;
        free = free-IsQueue;
      })
