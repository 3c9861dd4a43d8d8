-- ===== src/Synch/Sem/Create.antt =====
-- `SemCreate` of os/synch.c.
use ece695os_lab.Prelude.{
  ℕ, suc, ◌%◌, ◌<◌, ◌≤◌, ◌≡◌, ◌≢◌, true, false, Bool-cases, inl, inr, ltb, List, [], ◌==◌, refl,
  arith, ==_self,
}
use ece695os_lab.Queue
use ece695os_lab.Queue.{Ptr, null, Store, success, init}
use ece695os_lab.Queue.IsQueue.{IsQueue, init-IsQueue}
use ece695os_lab.Kernel.{Os, sem_waiting}
use ece695os_lab.Task.{done}
use ece695os_lab.Synch.{max_sems, find_free}
use ece695os_lab.Synch.Find.{find_free-Found}
use ece695os_lab.Synch.Sem
use ece695os_lab.Synch.Sem.{create, set_count, use_sem, is_free_sem}

-- The semaphore of the handle `i` is new: in use, with the count and an empty queue.
pub record Created (s t : Os) (i count : ℕ) : Type 0 where
  pub sem : t.sems (suc i) ≡ record { count = count; inuse = 1 }
  pub queue : IsQueue t.store (sem_waiting (suc i)) []
  pub sems : (a : Ptr) → (a == suc i) ≡ false → t.sems a ≡ s.sems a
  pub others :
      (u : Ptr) (ws : List Ptr)
      → u ≢ sem_waiting (suc i)
      → IsQueue s.store u ws
      → IsQueue t.store u ws
  pub rest : t ≡ record s { store = t.store; sems = t.sems; intrs = s.intrs % 16 }

create-taken :
    (count : ℕ) (s : Os)
    → let i = find_free (is_free_sem s) max_sems 0 in
      i < max_sems → (t : Os) × (create count s ≡ done i t) × Created s t i count
unfolding create Sem.init
create-taken count s h =
    let i = find_free (is_free_sem s) max_sems 0 in
    let e : (i == max_sems) ≡ false = ground arith in
    let (st, w, others) = init-IsQueue (sem_waiting (suc i)) s.store (λ z. absurd (omega arith)) in
    let e0 : (suc i == null) ≡ false = ground arith in
    let t = record (set_count (suc i) count (use_sem i s)) {
      store = (Queue.init (sem_waiting (suc i)) s.store).1;
      intrs = s.intrs % 16;
    } in
    (
      t,
      rw (e, e0, st) refl,
      record {
        sem = rw (==_self (suc i)) refl;
        queue = w;
        sems = λ a d. rw d refl;
        others = others;
        rest = refl;
      },
    )

-- `SemCreate`, when some semaphore is not in use, succeeds and gives the handle of the first that is
-- not: this one is in use then, with the count and an empty queue, the interrupt level is its low
-- four bits, and the other semaphores, the other queues and the rest of the state are as before.
pub create-Created :
    (count j : ℕ) (s : Os)
    → j < max_sems
    → (s.sems (suc j)).inuse ≡ 0
    → (i : ℕ) × (t : Os) × (create count s ≡ done i t)
      × (i ≤ j)
      × ((s.sems (suc i)).inuse ≡ 0)
      × ((a : ℕ) → a < i → (s.sems (suc a)).inuse ≢ 0)
      × Created s t i count
create-Created count j s room unused =
    let i = find_free (is_free_sem s) max_sems 0 in
    let f = find_free-Found (is_free_sem s) max_sems 0 in
    let first : i ≤ j = elim (Bool-cases (ltb j i)) [
      | inl h ↦
          let taken : is_free_sem s j ≡ false = f.used j (omega arith) (ground arith) in
          absurd (ground arith)
      | inr h ↦ ground arith
    ] in
    let free : is_free_sem s i ≡ true = f.free (omega arith) in
    let (t, run, new) = create-taken count s (omega arith) in
    (
      i,
      t,
      run,
      first,
      ground arith,
      λ a h e. let taken : is_free_sem s a ≡ false = f.used a (omega arith) h in ground arith,
      new,
    )
