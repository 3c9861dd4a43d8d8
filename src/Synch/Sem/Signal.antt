-- ===== src/Synch/Sem/Signal.antt =====
-- `SemSignal` of os/synch.c, with and without a process that waits.
use ece695os_lab.Prelude.{
  ℕ, ◌-◌, ◌%◌, ◌^◌, ◌<◌, ◌≡◌, ◌≢◌, inl, inr, false, List, ◌==◌, refl, some, arith, ap, ◌∙◌, ==_self,
  length, update, Bool-cases,
}
use ece695os_lab.Queue
use ece695os_lab.Queue.{Ptr, null, Store}
use ece695os_lab.Queue.IsQueue.{is_empty-cons}
use ece695os_lab.Kernel.{Os, Sem, sem_waiting}
use ece695os_lab.Process
use ece695os_lab.Task.{take_waiter, done, act}
use ece695os_lab.Task.Waiters.{
  Waiting, Waiting-same, take_waiter-Taken, Woken, Woken-same, wakeup-Woken,
}
use ece695os_lab.Synch.{sync_success}
use ece695os_lab.Synch.Sem.{signal, wake, set_count, incr_int, decr_int, is_le_zero}

-- `SemSignal` on a semaphore with a process waiting and a count of 0 or more.
pub record Passed (s t : Os) (sem p : Ptr) (xs us vs rs : List Ptr) (n : ℕ) : Type 0 where
  pub woken : Woken s t (sem_waiting sem) p xs us vs rs n
  -- The count goes up and down again.
  pub sems : (a : Ptr) → t.sems a ≡ s.sems a
  pub rest : t ≡ record s { store = t.store; pcbs = t.pcbs; sems = t.sems; intrs = s.intrs % 16 }

-- The run, step by step.
signal-steps :
    (sem p : Ptr) (s t v : Os)
    → sem ≢ null
    → (s.sems sem).count < 2 ^ 31 - 1
    → Queue.is_empty s.store (sem_waiting sem) ≡ false
    → take_waiter
        (sem_waiting sem)
        (set_count sem (incr_int (s.sems sem).count) (record s { intrs = 15 }))
      ≡ some (p, t)
    → Process.wakeup p t ≡ some v
    → signal sem s
      ≡ done sync_success
          (record (set_count sem (decr_int (v.sems sem).count) v) { intrs = s.intrs % 16 })
unfolding signal wake
signal-steps sem p s t v n small waits et ev =
    let e : (sem == null) ≡ false = ground arith in
    let high : is_le_zero (incr_int (s.sems sem).count) ≡ false = ground arith in
    rw (e, ==_self sem, high, waits, et) (rw (act, ev) refl)

counts_back :
    (sem : Ptr) (f g : Ptr → Sem) (a : Ptr)
    → (f sem).count < 2 ^ 31 - 1
    → g ≡ update f sem (record (f sem) { count = incr_int (f sem).count })
    → update g sem (record (g sem) { count = decr_int (g sem).count }) a ≡ f a
counts_back sem f g a small e =
    let c : decr_int (incr_int (f sem).count) ≡ (f sem).count = omega arith in
    elim (Bool-cases (a == sem)) [
      | inl m ↦ let n : a ≡ sem = ground arith in rw (e, m, ==_self sem, c, n) refl
      | inr m ↦ rw (e, m) refl
    ]

-- `SemSignal` on a semaphore with a process waiting, whose count and one more is a positive `int`,
-- succeeds: the first process that waits leaves the queue and stands at the end of the run queue,
-- runnable, with one link more free; every count is as before, the interrupt level is its low four
-- bits, and the other queues, the other processes and the rest of the state are as before.
pub signal-Passed :
    (sem x p : Ptr) (xs us vs rs fs : List Ptr) (s : Os)
    → sem ≢ null
    → (s.sems sem).count < 2 ^ 31 - 1
    → Waiting s (sem_waiting sem) x p xs us vs rs fs
    → (t : Os) × (signal sem s ≡ done sync_success t) × Passed s t sem p xs us vs rs (length fs)
signal-Passed sem x p xs us vs rs fs s n small w =
    let s2 = set_count sem (incr_int (s.sems sem).count) (record s { intrs = 15 }) in
    let w2 : Waiting s2 (sem_waiting sem) x p xs us vs rs fs = Waiting-same refl refl w in
    let (t, et, k) = take_waiter-Taken w2 in
    let (v, ev, rest, m) = wakeup-Woken {u = t} w.synch k refl refl in
    let before = rest ∙ ap (λ (o : Os). record o { store = v.store; pcbs = v.pcbs }) k.rest in
    (
      record (set_count sem (decr_int (v.sems sem).count) v) { intrs = s.intrs % 16 },
      signal-steps sem p s t v n small (is_empty-cons w.queue) et ev,
      record {
        woken = Woken-same refl refl refl refl m;
        sems = λ a. counts_back sem s.sems v.sems a small (ap (λ (o : Os). o.sems) before);
        rest =
            ap
              (λ (o : Os). record o {
                store = v.store;
                pcbs = v.pcbs;
                sems = (set_count sem (decr_int (v.sems sem).count) v).sems;
                intrs = s.intrs % 16;
              })
              before;
      },
    )
