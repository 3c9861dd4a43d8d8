-- ===== src/Setup/Sample.antt =====
-- Traps and a memory for the examples.
use ece695os_lab.Prelude.{ℕ, ◌+◌, [], ◌==◌, if◌then◌else◌}
use ece695os_lab.Misc.{Bytes}
use ece695os_lab.Setup.{Traps, Session}

-- Traps that count the handles.
abbrev pub host : Traps ℕ
host = record {
  shmget = λ w. (3, w);
  shmat = λ h w. (2000, w);
  sem_create = λ n w. (w, w + 1);
  lock_create = λ w. (w, w + 1);
  cond_create = λ l w. (w, w + 1);
  sem_wait = λ s w. (1, w);
  sem_signal = λ s w. (1, w);
  process_create = λ args m w. w + 10;
}

-- "2" at 500, "9" at 502 and "90" at 504.
abbrev pub texts : Bytes
texts a =
    if a == 500
    then 50
    else if a == 502
    then 57
    else if a == 504
    then 57
    else if a == 505
    then 48
    else 0

abbrev pub session : Session ℕ
session = record { memory = texts; world = 0; created = [] }
