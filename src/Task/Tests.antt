-- ===== src/Task/Tests.antt =====
-- Examples for the steps in which processes sleep and are woken up.
use ece695os_lab.Prelude.{ℕ, [], ◌∷◌, refl, arith}
use ece695os_lab.Queue.{Ptr}
use ece695os_lab.Kernel.{Os, sem_waiting}
use ece695os_lab.Task.Waiters.{Waiting}
use ece695os_lab.Task.Sleep.{MaySleep}
use ece695os_lab.Sample.{os, free-IsQueue, ready, asleep, no_zombies, sem-IsQueue}

abbrev keep : Ptr → ℕ → Os → Os
keep p i s = s

waiting : Waiting os (sem_waiting 1) 6 3 [] [] (4 ∷ 5 ∷ []) (1 ∷ 2 ∷ []) (9 ∷ 10 ∷ [])
waiting = record {
  synch = omega arith;
  queue = sem-IsQueue;
  object = refl;
  asleep = asleep;
  ready = ready;
  free = free-IsQueue;
}

may_sleep : MaySleep os (sem_waiting 1) 9 1 2 (6 ∷ []) [] (3 ∷ 4 ∷ 5 ∷ []) (10 ∷ [])
may_sleep = record {
  synch = omega arith;
  current = refl;
  queue = sem-IsQueue;
  ready = ready;
  asleep = asleep;
  zombies = no_zombies;
  free = free-IsQueue;
}
