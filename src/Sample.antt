-- ===== src/Sample.antt =====
-- A small state of the kernel, for examples: two processes on the run queue, three that sleep, one
-- each on a semaphore, a lock and a condition variable, and one that is free.
use ece695os_lab.Prelude.{ℕ, zero, suc, List, [], ◌∷◌, ◌==◌, refl, if◌then◌else◌}
use ece695os_lab.Queue.{Ptr, null, Link, Queue, Store, free_links}
use ece695os_lab.Queue.IsQueue.{IsQueue}
use ece695os_lab.Queue.Check.{IsQueue-of}
use ece695os_lab.Memory.{Memory}
use ece695os_lab.Kernel.{
  Os, free_pcbs, run_queue, wait_queue, zombie_queue, sem_waiting, lock_waiting, cond_waiting,
}
use ece695os_lab.Process.Holds.{Holds}

abbrev pred : ℕ → ℕ
pred zero = zero
pred (suc n) = n

-- The entry of a table, numbered from 1.
abbrev entry : {A : Type 0} → A → List A → ℕ → A
entry d [] a = d
entry d (x ∷ xs) a = if a == 1 then x else entry d xs (pred a)

abbrev on : Ptr → Ptr → Ptr → Ptr → Link
on next prev queue object = record { next = next; prev = prev; queue = queue; object = object }

abbrev no_link : Link
no_link = on null null null null

abbrev queue_of : Ptr → Ptr → ℕ → Queue
queue_of first last nitems = record { first = first; last = last; nitems = nitems }

abbrev pub store : Store
store = record {
  links = entry no_link (
      on 2 0 3 1
      ∷ on 0 1 3 2
      ∷ on 4 0 4 3
      ∷ on 5 3 4 4
      ∷ on 0 4 4 5
      ∷ on 0 0 6 3
      ∷ on 0 0 38 4
      ∷ on 0 0 102 5
      ∷ on 10 0 1 0
      ∷ on 0 9 1 0
      ∷ on 0 0 2 11
      ∷ []);
  queues = λ q.
      if q == 1
      then queue_of 9 10 2
      else if q == 2
      then queue_of 11 11 1
      else if q == 3
      then queue_of 1 2 2
      else if q == 4
      then queue_of 3 5 3
      else if q == 6
      then queue_of 6 6 1
      else if q == 38
      then queue_of 7 7 1
      else if q == 102
      then queue_of 8 8 1
      else queue_of 0 0 0;
}

abbrev pub memory : Memory
memory = record {
  pagestart = 1;
  freemapmax = 2;
  nfreepages = 2;
  freepages = λ i. if i == 1 then 6 else 0;
  mapnum = 0;
}

-- The first process owns the first lock, and the second process the second one.
abbrev pub os : Os
os = record {
  store = store;
  pcbs = λ p. record {
    flags = 0x202;
    link = p;
    npages = 0;
    pagetable = λ i. 0;
    sys_stack_area = 0;
    sys_stack_ptr = 0;
    frame = 0;
    saved_frame = λ i. 0;
  };
  current = 1;
  sems = λ i. record { count = if i == 2 then 2 else 0; inuse = if i == 1 then 1 else 0 };
  locks = λ i. record { pid = if i == 2 then 1 else 0; inuse = 1 };
  conds = λ i. record { lock = 0; inuse = 1 };
  intrs = 1;
  timer = 0;
  memory = memory;
}

pub free-IsQueue : IsQueue os.store free_links (9 ∷ 10 ∷ [])
free-IsQueue = IsQueue-of store free_links (9 ∷ 10 ∷ []) refl

pub unused : Holds os free_pcbs (11 ∷ [])
unused = record { queue = IsQueue-of store free_pcbs (11 ∷ []) refl; owned = (refl, tt) }

pub run_links : IsQueue os.store run_queue (1 ∷ 2 ∷ [])
run_links = IsQueue-of store run_queue (1 ∷ 2 ∷ []) refl

pub ready : Holds os run_queue (1 ∷ 2 ∷ [])
ready = record { queue = run_links; owned = (refl, (refl, tt)) }

pub asleep : Holds os wait_queue (3 ∷ 4 ∷ 5 ∷ [])
asleep = record {
  queue = IsQueue-of store wait_queue (3 ∷ 4 ∷ 5 ∷ []) refl;
  owned = (refl, (refl, (refl, tt)));
}

pub no_zombies : IsQueue os.store zombie_queue []
no_zombies = IsQueue-of store zombie_queue [] refl

pub zombies : Holds os zombie_queue []
zombies = record { queue = no_zombies; owned = tt }

pub sem-IsQueue : IsQueue os.store (sem_waiting 1) (6 ∷ [])
sem-IsQueue = IsQueue-of store (sem_waiting 1) (6 ∷ []) refl

pub lock-IsQueue : IsQueue os.store (lock_waiting 1) (7 ∷ [])
lock-IsQueue = IsQueue-of store (lock_waiting 1) (7 ∷ []) refl

pub cond-IsQueue : IsQueue os.store (cond_waiting 1) (8 ∷ [])
cond-IsQueue = IsQueue-of store (cond_waiting 1) (8 ∷ []) refl
