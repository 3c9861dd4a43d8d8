-- ===== src/Synch/Tests.antt =====
-- Examples for the search of os/synch.c and its initialisation.
use ece695os_lab.Prelude.{◌≡◌, refl}
use ece695os_lab.Synch.{module_init}
use ece695os_lab.Sample.{os}

-- Every semaphore is free then.
module_init_lem : ((module_init os).1.sems 1).inuse ≡ 0
unfolding module_init
module_init_lem = refl
