-- ===== src/Task/Waiters.antt =====
-- The step that SemSignal, LockRelease, CondSignal and CondBroadcast of os/synch.c share: the first
-- process of a waiting queue leaves it and becomes runnable.
use mathlib.Core.Path.{subst}
use ece695os_lab.Prelude.{
  ◌==◌, ℕ, suc, ◌≤◌, ◌≡◌, ◌≢◌, true, false, List, [], ◌∷◌, ◌++◌, refl, some, arith, has, length,
  length-append, ap, sym, ◌∙◌,
}
use ece695os_lab.Queue
use ece695os_lab.Queue.{Ptr, null, success, Store, free_links}
use ece695os_lab.Queue.IsQueue.{IsQueue, first-head_or}
use ece695os_lab.Queue.Remove.{Removes, remove-Removes}
use ece695os_lab.Kernel.{Os, Pcb, run_queue, wait_queue}
use ece695os_lab.Process.{wakeup, with_status, status_runnable}
use ece695os_lab.Process.Holds.{Holds, IsElsewhere, Owned-same, Holds-same}
use ece695os_lab.Process.Moves.{wakeup-Transferred}
use ece695os_lab.Task.{take_waiter}

-- The waiting queue `q` holds the link `x` of the process `p` first and then `xs`; the process
-- sleeps, between `us` and `vs` on the waiting queue of the scheduler.
pub record Waiting (s : Os) (q x p : Ptr) (xs us vs rs fs : List Ptr) : Type 0 where
  pub synch : 5 ≤ q
  pub queue : IsQueue s.store q (x ∷ xs)
  pub object : (s.store.links x).object ≡ p
  pub asleep : Holds s wait_queue (us ++ p ∷ vs)
  pub ready : Holds s run_queue rs
  pub free : IsQueue s.store free_links fs

-- The state once the first link has left the waiting queue.
pub record Taken (s t : Os) (q x p : Ptr) (xs us vs rs fs : List Ptr) : Type 0 where
  pub queue : IsQueue t.store q xs
  pub asleep : Holds t wait_queue (us ++ p ∷ vs)
  pub ready : Holds t run_queue rs
  pub free : IsQueue t.store free_links (fs ++ x ∷ [])
  pub others :
      (u : Ptr) (ws : List Ptr)
      → u ≢ q
      → u ≢ free_links
      → IsQueue s.store u ws
      → IsQueue t.store u ws
  pub objects : (a : Ptr) → (t.store.links a).object ≡ (s.store.links a).object
  pub rest : t ≡ record s { store = t.store }

module _ {s : Os} {q x p : Ptr} {xs us vs rs fs : List Ptr}
    (w : Waiting s q x p xs us vs rs fs) where
  removed : Removes s.store q x [] xs fs (Queue.remove (some x) s.store)
  removed =
      let synch = w.synch in
      remove-Removes [] xs fs (λ e. absurd (omega arith)) (λ e. absurd (omega arith)) w.queue w.free

  abbrev taken : Os
  taken = record s { store = (Queue.remove (some x) s.store).2 }

  keep_Holds : (u : Ptr) (ws : List Ptr) → u ≢ q → u ≢ free_links → Holds s u ws → Holds taken u ws
  keep_Holds u ws ne nf h = record {
    queue = removed.2.others u _ ne nf h.queue;
    owned = Owned-same s.pcbs s.pcbs s.store taken.store ws (λ a. refl) removed.2.objects h.owned;
  }

  take_waiter-some : take_waiter q s ≡ some (p, taken)
  unfolding take_waiter Queue.object
  take_waiter-some =
      rw (first-head_or w.queue, removed.0, take_waiter) (rw (first-head_or w.queue, w.object))

  -- Taking the first process off a waiting queue succeeds and gives that process; its link stands at
  -- the end of the free links, and the other queues are as before.
  pub take_waiter-Taken :
      (t : Os) × (take_waiter q s ≡ some (p, t)) × Taken s t q x p xs us vs rs fs
  take_waiter-Taken =
      let synch = w.synch in
      (
        taken,
        take_waiter-some,
        record {
          queue = removed.2.queue;
          asleep =
              keep_Holds wait_queue (us ++ p ∷ vs) (λ e. absurd (omega arith))
                (λ e. absurd (omega arith)) w.asleep;
          ready =
              keep_Holds run_queue rs (λ e. absurd (omega arith)) (λ e. absurd (omega arith))
                w.ready;
          free = removed.2.freed;
          others = λ u ws ne nf v. removed.2.others u ws ne nf v;
          objects = removed.2.objects;
          rest = refl;
        },
      )

-- The state once the first process of the waiting queue is runnable.
pub record Woken (s t : Os) (q p : Ptr) (xs us vs rs : List Ptr) (n : ℕ) : Type 0 where
  pub queue : IsQueue t.store q xs
  pub asleep : Holds t wait_queue (us ++ vs)
  pub ready : Holds t run_queue (rs ++ p ∷ [])
  pub free : (gs : List Ptr) × IsQueue t.store free_links gs × (length gs ≡ suc n)
  -- Every other queue is as before, with the same processes on it.
  pub others :
      (u : Ptr) (ws : List Ptr)
      → IsElsewhere u
      → u ≢ q
      → IsQueue s.store u ws
      → IsQueue t.store u ws
        × ((a : Ptr) → has a ws ≡ true → (t.store.links a).object ≡ (s.store.links a).object)
  pub objects : (a : Ptr) → has a xs ≡ true → (t.store.links a).object ≡ (s.store.links a).object
  pub pcb : t.pcbs p ≡ record (s.pcbs p) {
    link = (t.pcbs p).link;
    flags = with_status (s.pcbs p).flags status_runnable;
  }
  pub pcbs : (a : Ptr) → (a == p) ≡ false → t.pcbs a ≡ s.pcbs a

-- The wakeup may follow after writes to other parts of the state.
pub wakeup-Woken :
    {s t u : Os} {q x p : Ptr} {xs us vs rs fs : List Ptr}
    → 5 ≤ q
    → Taken s t q x p xs us vs rs fs
    → u.store ≡ t.store
    → u.pcbs ≡ t.pcbs
    → (v : Os) × (wakeup p u ≡ some v)
      × (v ≡ record u { store = v.store; pcbs = v.pcbs })
      × Woken s v q p xs us vs rs (length fs)
wakeup-Woken {s} {t} {u} {q} {x} {p} {xs} {us} {vs} {rs} {fs} synch k es ep =
    let link = λ (a : Ptr). ap (λ (f : Ptr → Pcb). (f a).link) ep in
    let pcbs : u.pcbs ≡ s.pcbs = ep ∙ ap (λ (o : Os). o.pcbs) k.rest in
    let (v, e, m) =
      wakeup-Transferred u p us vs rs (fs ++ x ∷ [])
        (subst (λ (o : Store). IsQueue o free_links (fs ++ x ∷ [])) (sym es) k.free)
        (Holds-same wait_queue (us ++ p ∷ vs) es link k.asleep)
        (Holds-same run_queue rs es link k.ready) in
    let (w, o) =
      m.waiting q xs (λ e. absurd (omega arith)) (λ e. absurd (omega arith))
        (λ e. absurd (omega arith)) (λ e. absurd (omega arith)) (rw es k.queue) in
    (
      v,
      e,
      m.rest,
      record {
        queue = w;
        asleep = m.source;
        ready = m.target;
        free = let (gs, g, n) = m.free in (gs, g, omega (arith, length-append fs (x ∷ [])));
        others = λ a ws big ne h.
            let (far, no_run, no_wait) = big in
            let (w', o') =
              m.waiting a ws (λ e. absurd (omega arith)) no_wait no_run (λ e. absurd (omega arith))
                (rw es (k.others a ws ne (λ e. absurd (omega arith)) h)) in
            (w', λ b i. o' b i ∙ (ap (λ (o : Store). (o.links b).object) es ∙ k.objects b));
        objects = λ b i. o b i ∙ (ap (λ (o : Store). (o.links b).object) es ∙ k.objects b);
        pcb = rw (← pcbs) m.pcb;
        pcbs = λ a i. m.pcbs a i ∙ ap (λ (f : Ptr → Pcb). f a) pcbs;
      },
    )

-- What the records say depends on the store and the processes alone.
pub Waiting-same :
    {s t : Os} {q x p : Ptr} {xs us vs rs fs : List Ptr}
    → t.store ≡ s.store
    → t.pcbs ≡ s.pcbs
    → Waiting s q x p xs us vs rs fs
    → Waiting t q x p xs us vs rs fs
Waiting-same {s} {t} {q} {x} {p} {xs} {us} {vs} {rs} es ep w =
    let link = λ (a : Ptr). ap (λ (f : Ptr → Pcb). (f a).link) ep in
    record {
      synch = w.synch;
      queue = rw es (w.queue);
      object = rw es (w.object);
      asleep = Holds-same wait_queue (us ++ p ∷ vs) es link w.asleep;
      ready = Holds-same run_queue rs es link w.ready;
      free = rw es (w.free);
    }

-- `s` and `t` may be followed by writes to other parts.
pub Woken-same :
    {s s' t t' : Os} {q p : Ptr} {xs us vs rs : List Ptr} {n : ℕ}
    → s'.store ≡ s.store
    → s'.pcbs ≡ s.pcbs
    → t'.store ≡ t.store
    → t'.pcbs ≡ t.pcbs
    → Woken s t q p xs us vs rs n
    → Woken s' t' q p xs us vs rs n
Woken-same {s} {s'} {t} {t'} {q} {p} {xs} {us} {vs} {rs} es ep et eq k =
    let link = λ (a : Ptr). ap (λ (f : Ptr → Pcb). (f a).link) eq in
    record {
      queue = rw et (k.queue);
      asleep = Holds-same wait_queue (us ++ vs) et link k.asleep;
      ready = Holds-same run_queue (rs ++ p ∷ []) et link k.ready;
      free = rw et (k.free);
      others = rw (es, et) (λ a ws big ne h. k.others a ws big ne h);
      objects = rw (es, et) (λ a m. k.objects a m);
      pcb = rw (ep, eq) (k.pcb);
      pcbs = rw (ep, eq) (λ a m. k.pcbs a m);
    }
