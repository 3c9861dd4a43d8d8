-- ===== src/Traps/Tests.antt =====
-- Examples for the dispatch of traps.
use ece695os_lab.Prelude.{◌≡◌, true, [], ◌∷◌, refl}
use ece695os_lab.Misc.{bcopy}
use ece695os_lab.Kernel.{Os, run_queue, wait_queue}
use ece695os_lab.Process.{process_quantum}
use ece695os_lab.Process.Holds.{Holds}
use ece695os_lab.Task.{done, exited}
use ece695os_lab.Traps.{
  Machine, dointerrupt, dointerrupt-rotate, dointerrupt-sleep, get_int_from_trap_arg,
}
use ece695os_lab.Sample.{os, free-IsQueue, ready, asleep, no_zombies}

-- A word is its first byte.
abbrev machine : Machine
machine = record {
  word_at = λ m a. m a;
  free_shared_pte = λ p i s. s;
  create_shared_page = λ s. done 0 s;
  map_page = λ h s. done h s;
  process_create = λ s. done tt s;
}

get_int_lem : get_int_from_trap_arg machine (λ a. a) 7 100 true os ≡ done 7 os
unfolding get_int_from_trap_arg bcopy
get_int_lem = refl

-- A page fault ends the simulation, and so does a trap that is not known.
dointerrupt_pagefault : dointerrupt machine (λ a. a) 7 100 true 0x20 os ≡ exited
unfolding dointerrupt
dointerrupt_pagefault = refl

dointerrupt_unknown : dointerrupt machine (λ a. a) 7 100 true 0x08000999 os ≡ exited
unfolding dointerrupt
dointerrupt_unknown = refl

dointerrupt-rotate_example :
    (t : Os) × (dointerrupt machine (λ a. a) 7 100 true 0x40 os ≡ done tt t)
    × (dointerrupt machine (λ a. a) 7 100 true 0x08000400 os ≡ done tt t)
    × (t ≡ record os { store = t.store; current = 2; timer = process_quantum })
    × Holds t run_queue (2 ∷ 1 ∷ [])
dointerrupt-rotate_example =
    dointerrupt-rotate machine (λ a. a) 7 100 true os 1 (2 ∷ []) ready no_zombies

dointerrupt-sleep_example :
    (t : Os) × (dointerrupt machine (λ a. a) 7 100 true 0x08000410 os ≡ done tt t)
    × (t.current ≡ 2)
    × Holds t run_queue (2 ∷ [])
    × Holds t wait_queue (3 ∷ 4 ∷ 5 ∷ 1 ∷ [])
dointerrupt-sleep_example =
    dointerrupt-sleep machine (λ a. a) 7 100 true os 1 2 [] (3 ∷ 4 ∷ 5 ∷ []) (9 ∷ 10 ∷ []) refl
      ready asleep no_zombies free-IsQueue
