-- ===== src/Synch/Lock/Release.antt =====
-- `LockRelease` of os/synch.c.
use ece695os_lab.Prelude.{
  ℕ, ◌%◌, ◌≡◌, ◌≢◌, false, List, [], ◌==◌, refl, some, arith, ap, ◌∙◌, ==_self, length,
  if◌then◌else◌, Bool-cases, inl, inr,
}
use ece695os_lab.Queue
use ece695os_lab.Queue.{Ptr, null}
use ece695os_lab.Queue.IsQueue.{IsQueue, is_empty-nil, is_empty-cons}
use ece695os_lab.Kernel.{Os, Lock, lock_waiting, minus_one, pid_of}
use ece695os_lab.Process
use ece695os_lab.Task.{take_waiter, done, act}
use ece695os_lab.Task.Waiters.{
  Waiting, Waiting-same, take_waiter-Taken, Woken, Woken-same, wakeup-Woken,
}
use ece695os_lab.Synch.{sync_success, sync_fail}
use ece695os_lab.Synch.Lock.{release, pass_on, set_pid}

-- `LockRelease` on a lock with no process waiting. The owner leaves it free and gets the interrupt
-- level back (its low four bits); any other process gets SYNC_FAIL, and the interrupts stay
-- disabled.
pub release-free :
    (k : Ptr) (s : Os)
    → k ≢ null
    → IsQueue s.store (lock_waiting k) []
    → release k s ≡ (
        if (s.locks k).pid == Process.get_current_pid s
        then done sync_success (record (set_pid k minus_one s) { intrs = s.intrs % 16 })
        else done sync_fail (record s { intrs = 15 }))
unfolding release pass_on Process.get_current_pid
release-free k s n w =
    let e : (k == null) ≡ false = ground arith in
    elim (Bool-cases ((s.locks k).pid == pid_of s.current)) [
      | inl m ↦ rw (e, m, is_empty-nil w) refl
      | inr m ↦ rw (e, m) refl
    ]

-- The lock has passed to the process `p`, the first that waited.
pub record Handed (s t : Os) (k p : Ptr) (xs us vs rs : List Ptr) (n : ℕ) : Type 0 where
  pub woken : Woken s t (lock_waiting k) p xs us vs rs n
  pub owner : t.locks k ≡ record (s.locks k) { pid = pid_of p }
  pub locks : (a : Ptr) → (a == k) ≡ false → t.locks a ≡ s.locks a
  pub rest : t ≡ record s { store = t.store; pcbs = t.pcbs; locks = t.locks; intrs = s.intrs % 16 }

-- The run, step by step.
release-steps :
    (k p : Ptr) (s t v : Os)
    → k ≢ null
    → (s.locks k).pid ≡ Process.get_current_pid s
    → Queue.is_empty s.store (lock_waiting k) ≡ false
    → take_waiter (lock_waiting k) (set_pid k minus_one (record s { intrs = 15 })) ≡ some (p, t)
    → Process.wakeup p (set_pid k (pid_of p) t) ≡ some v
    → release k s ≡ done sync_success (record v { intrs = s.intrs % 16 })
unfolding release pass_on Process.get_current_pid
release-steps k p s t v n mine waits et ev =
    let e : (k == null) ≡ false = ground arith in
    rw (e, mine, ==_self (pid_of s.current), waits, et) (rw (act, ev) refl)

-- `LockRelease` by the owner, with a process waiting: the first one owns the lock, and is runnable.
pub release-Handed :
    (k x p : Ptr) (xs us vs rs fs : List Ptr) (s : Os)
    → k ≢ null
    → (s.locks k).pid ≡ Process.get_current_pid s
    → Waiting s (lock_waiting k) x p xs us vs rs fs
    → (t : Os) × (release k s ≡ done sync_success t) × Handed s t k p xs us vs rs (length fs)
release-Handed k x p xs us vs rs fs s n mine w =
    let s2 = set_pid k minus_one (record s { intrs = 15 }) in
    let w2 : Waiting s2 (lock_waiting k) x p xs us vs rs fs = Waiting-same refl refl w in
    let (t, et, m) = take_waiter-Taken w2 in
    let (v, ev, rest, z) = wakeup-Woken {u = set_pid k (pid_of p) t} w.synch m refl refl in
    let before =
      rest
      ∙ ap (λ (o : Os). record (set_pid k (pid_of p) o) { store = v.store; pcbs = v.pcbs })
          m.rest in
    let locks = ap (λ (o : Os). o.locks) before in
    (
      record v { intrs = s.intrs % 16 },
      release-steps k p s t v n mine (is_empty-cons w.queue) et ev,
      record {
        woken = Woken-same refl refl refl refl z;
        owner = ap (λ (f : Ptr → Lock). f k) locks ∙ rw (==_self k) refl;
        locks = λ a e. ap (λ (f : Ptr → Lock). f a) locks ∙ rw e refl;
        rest =
            ap
              (λ (o : Os). record o {
                store = v.store;
                pcbs = v.pcbs;
                locks = v.locks;
                intrs = s.intrs % 16;
              })
              before;
      },
    )
