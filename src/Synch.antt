-- ===== src/Synch.antt =====
-- Handles and return codes of os/synch.c and include/os/synch.h. The primitives are in the modules
-- below.
pub mod Find
pub mod Init
mod Tests
pub mod Sem
pub mod Lock
pub mod Cond
use ece695os_lab.Prelude.{ℕ, zero, suc, ◌+◌, ◌-◌, ◌^◌, Bool, not, ◌&&◌, ltb, if◌then◌else◌, update}
use ece695os_lab.Kernel.{is_negative, minus_one, Os}
use ece695os_lab.Task.{Task}

abbrev pub sync_fail : ℕ
sync_fail = minus_one

abbrev pub sync_success : ℕ
sync_success = 1

abbrev pub max_sems : ℕ
max_sems = 32

abbrev pub max_locks : ℕ
max_locks = 64

abbrev pub max_conds : ℕ
max_conds = 32

-- The tests `handle < 0` and `handle >= max`.
abbrev pub in_range : ℕ → ℕ → Bool
in_range handle max = not (is_negative handle) && ltb handle max

-- The search for a free entry, from `i` on: the first index that is free, or the end.
unfoldable pub find_free : (ℕ → Bool) → ℕ → ℕ → ℕ
find_free is_free zero i = i
find_free is_free (suc k) i =
    let rest = find_free is_free k (suc i) in if is_free i then i else rest

-- `SynchModuleInit`: the loops over the locks and the condition variables are empty.
clear_sems : ℕ → ℕ → Os → Os
clear_sems zero i s = s
clear_sems (suc k) i s =
    clear_sems k (suc i)
      (record s { sems = update s.sems (suc i) (record (s.sems (suc i)) { inuse = 0 }) })

pub module_init : Os → ℕ × Os
unfolding clear_sems
module_init s = (sync_success, clear_sems max_sems 0 s)
