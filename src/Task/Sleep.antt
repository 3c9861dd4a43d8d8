-- ===== src/Task/Sleep.antt =====
-- The steps that SemWait, LockAcquire and CondWait of os/synch.c share: the current process joins a
-- waiting queue and sleeps, and the next process takes over.
use ece695os_lab.Prelude.{
  ℕ, ◌≤◌, ◌≡◌, ◌≢◌, true, false, List, [], ◌∷◌, ◌++◌, ◌==◌, refl, some, arith, has, has-append,
  length, ap, sym, ◌∙◌,
}
use ece695os_lab.Queue
use ece695os_lab.Queue.{Ptr, null, success, Store, free_links}
use ece695os_lab.Queue.IsQueue.{IsQueue, not-has_of_queue, not-has_of_IsQueue}
use ece695os_lab.Queue.Insert.{Inserts, insert_last-Inserts}
use ece695os_lab.Queue.Remove.{Allocated, alloc_link-Allocated}
use ece695os_lab.Kernel.{Os, ◌⨾◌, run_queue, wait_queue, zombie_queue}
use ece695os_lab.Process
use ece695os_lab.Process.{schedule, process_quantum}
use ece695os_lab.Process.Holds.{Holds, IsElsewhere, Holds-same, Owned-links}
use ece695os_lab.Process.Moves.{suspend-Transferred}
use ece695os_lab.Process.Schedule.{schedule-suspended}
use ece695os_lab.Task.{done, blocked, enqueue_current, process_sleep, sleep_on, act}

-- The current process stands at the end of the queue `q` by the link `l`, the first that was free.
pub record Enqueued (s t : Os) (q l : Ptr) (xs fs : List Ptr) : Type 0 where
  pub queue : IsQueue t.store q (xs ++ l ∷ [])
  pub object : (t.store.links l).object ≡ s.current
  pub free : IsQueue t.store free_links fs
  pub others :
      (u : Ptr) (ws : List Ptr)
      → u ≢ null
      → u ≢ q
      → u ≢ free_links
      → IsQueue s.store u ws
      → IsQueue t.store u ws
  pub objects : (a : Ptr) → (a == l) ≡ false → (t.store.links a).object ≡ (s.store.links a).object
  pub rest : t ≡ record s { store = t.store }

module _ (s : Os) (q l : Ptr) (xs fs : List Ptr) (nq : q ≢ null) (nf : q ≢ free_links)
    (w : IsQueue s.store q xs) (free : IsQueue s.store free_links (l ∷ fs)) where
  abbrev allocated : Store
  allocated = (Queue.alloc_link s.current s.store).1

  got : ((Queue.alloc_link s.current s.store).0 ≡ l) × Allocated s.store allocated l s.current fs
  got = alloc_link-Allocated s.store s.current l fs free

  unmarked : (allocated.links l).queue ≡ null
  unmarked = rw (got.1.cleared) refl

  absent : (u : Ptr) (ws : List Ptr) → u ≢ null → IsQueue allocated u ws → has l ws ≡ false
  absent u ws nu v = not-has_of_queue v l (λ e. nu (sym e ∙ unmarked))

  inserted : Inserts allocated q l xs [] (Queue.insert_last q l allocated)
  inserted =
      let w' = got.1.others q xs nf w in
      insert_last-Inserts nq xs w' (record {
        ne_null = free.chain.0.ne_null;
        in_pool = free.chain.0.in_pool;
        absent = absent q xs nq w';
      })

  abbrev pub enqueued : Os
  enqueued = record s { store = (Queue.insert_last q l allocated).1 }

  pub enqueue_current-some : enqueue_current q s ≡ some enqueued
  unfolding enqueue_current
  enqueue_current-some =
      let e : (l == null) ≡ false = ground (arith, free.chain.0.ne_null) in
      rw (got.0, e, inserted.0)
        (ap (λ (a : Ptr). some (record s { store = (Queue.insert_last q a allocated).1 })) got.0)

  pub enqueued-Enqueued : Enqueued s enqueued q l xs fs
  enqueued-Enqueued =
      let g = got.1 in
      let i = inserted.1 in
      record {
        queue = i.queue;
        object = i.objects l ∙ rw (g.cleared) refl;
        free =
            i.others free_links fs (λ e. nf (sym e)) g.free
              (absent free_links fs (λ e. absurd (omega arith)) g.free);
        others = λ u ws nu nuq nuf v.
            let v' = g.others u ws nuf v in i.others u ws nuq v' (absent u ws nu v');
        objects = λ a e. i.objects a ∙ g.objects a e;
        rest = refl;
      }

  enqueue_current-Enqueued : (t : Os) × (enqueue_current q s ≡ some t) × Enqueued s t q l xs fs
  enqueue_current-Enqueued = (enqueued, enqueue_current-some, enqueued-Enqueued)

-- The processes of another queue stand where they stood.
Enqueued-Holds :
    {s t : Os} {q l : Ptr} {xs fs : List Ptr} (u : Ptr) (ws : List Ptr)
    → Enqueued s t q l xs fs
    → IsQueue s.store free_links (l ∷ fs)
    → u ≢ null
    → u ≢ q
    → u ≢ free_links
    → Holds s u ws
    → Holds t u ws
Enqueued-Holds {s} {t} {l} u ws k free nu nuq nuf h =
    let pcbs : t.pcbs ≡ s.pcbs = ap (λ (o : Os). o.pcbs) k.rest in
    let out = not-has_of_IsQueue h.queue l free (λ e. nuf (sym e)) (ground arith) in
    rw (k.rest) (record {
      queue = k.others u _ nu nuq nuf h.queue;
      owned = Owned-links s.pcbs s.store t.store l ws out k.objects h.owned;
    })

-- The process `p`, which was the current one, waits on the queue `q` by the link `l` and sleeps; the
-- process `r` runs.
pub record Slept (s t : Os) (q l p r : Ptr) (xs rs ws : List Ptr) (n : ℕ) : Type 0 where
  pub queue : IsQueue t.store q (xs ++ l ∷ [])
  pub object : (t.store.links l).object ≡ p
  pub asleep : Holds t wait_queue (ws ++ p ∷ [])
  pub ready : Holds t run_queue (r ∷ rs)
  pub free : (gs : List Ptr) × IsQueue t.store free_links gs × (length gs ≡ n)
  pub others :
      (u : Ptr) (vs : List Ptr)
      → IsElsewhere u
      → u ≢ q
      → IsQueue s.store u vs
      → IsQueue t.store u vs
  pub rest : t ≡ record s { store = t.store; pcbs = t.pcbs; current = r; timer = process_quantum }

-- The state in which a process may sleep on the queue `q`: it is the first of the run queue and not
-- the only one there, there is no zombie, and a link is free.
pub record MaySleep (s : Os) (q l p r : Ptr) (xs rs ws fs : List Ptr) : Type 0 where
  pub synch : 6 ≤ q
  pub current : s.current ≡ p
  pub queue : IsQueue s.store q xs
  pub ready : Holds s run_queue (p ∷ r ∷ rs)
  pub asleep : Holds s wait_queue ws
  pub zombies : IsQueue s.store zombie_queue []
  pub free : IsQueue s.store free_links (l ∷ fs)

module _ (free_shared_pte : Ptr → ℕ → Os → Os) where
  sleep_on-steps :
      (q : Ptr) (s t u v : Os)
      → enqueue_current q s ≡ some t
      → Process.suspend t.current t ≡ some u
      → schedule free_shared_pte true u ≡ some v
      → sleep_on free_shared_pte q s ≡ blocked v (λ r. done tt (record r { intrs = t.intrs }))
  unfolding sleep_on process_sleep
  sleep_on-steps q s t u v e1 e2 e3 = rw (act, e1) (rw (process_sleep, ◌⨾◌, e2) (rw e3 refl))

  -- Joining the queue and sleeping, by a process that may sleep, never exits: it stands at the end of
  -- the queue, the next process runs, and the process goes on where it stopped, with the interrupt
  -- level that it had.
  pub sleep_on-Slept :
      (q l p r : Ptr) (xs rs ws fs : List Ptr) (s : Os)
      → MaySleep s q l p r xs rs ws fs
      → (t : Os) × (sleep_on free_shared_pte q s
          ≡ blocked t (λ u. done tt (record u { intrs = s.intrs })))
        × Slept s t q l p r xs rs ws (length fs)
  sleep_on-Slept q l p r xs rs ws fs s m =
      let big = m.synch in
      let (t, e1, k) =
        enqueue_current-Enqueued s q l xs fs (λ e. absurd (omega arith)) (λ e. absurd (omega arith))
          m.queue m.free in
      let current : t.current ≡ p = ap (λ (o : Os). o.current) k.rest ∙ m.current in
      let (u, e2, z) =
        suspend-Transferred t p [] (r ∷ rs) ws fs k.free
          (Enqueued-Holds run_queue (p ∷ r ∷ rs) k m.free (λ e. absurd (omega arith))
            (λ e. absurd (omega arith)) (λ e. absurd (omega arith)) m.ready)
          (Enqueued-Holds wait_queue ws k m.free (λ e. absurd (omega arith))
            (λ e. absurd (omega arith)) (λ e. absurd (omega arith)) m.asleep) in
      let (w, o) =
        z.waiting q _ (λ e. absurd (omega arith)) (λ e. absurd (omega arith))
          (λ e. absurd (omega arith)) (λ e. absurd (omega arith)) k.queue in
      let others =
        λ (a : Ptr) (vs : List Ptr) (away : IsElsewhere a) (ne : a ≢ q) (h : IsQueue s.store a vs).
          let (far, no_run, no_wait) = away in
          (z.waiting a vs (λ e. absurd (omega arith)) no_run no_wait (λ e. absurd (omega arith))
            (k.others a vs (λ e. absurd (omega arith)) ne (λ e. absurd (omega arith)) h)).0 in
      let v = record u { current = r; timer = process_quantum } in
      let intrs : t.intrs ≡ s.intrs = ap (λ (o : Os). o.intrs) k.rest in
      (
        v,
        sleep_on-steps q s t u v e1 (rw current e2) (
              schedule-suspended free_shared_pte u r rs z.source (
                others zombie_queue []
                  (omega arith, (λ e. absurd (omega arith)), (λ e. absurd (omega arith)))
                  (λ e. absurd (omega arith)) m.zombies))
            ∙ rw intrs refl,
        record {
          queue = w;
          object = o l (ground (arith, has-append l xs (l ∷ []))) ∙ (k.object ∙ m.current);
          asleep = Holds-same wait_queue (ws ++ p ∷ []) refl (λ a. refl) z.target;
          ready = Holds-same run_queue (r ∷ rs) refl (λ a. refl) z.source;
          free = z.free;
          others = others;
          rest =
              ap (λ (o : Os). record o { current = r; timer = process_quantum }) z.rest
              ∙ ap
                  (λ (o : Os). record o {
                    store = v.store;
                    pcbs = v.pcbs;
                    current = r;
                    timer = process_quantum;
                  })
                  k.rest;
        },
      )

-- The interrupt level does not matter.
pub MaySleep-intrs :
    {s : Os} {q l p r : Ptr} {xs rs ws fs : List Ptr} (i : ℕ)
    → MaySleep s q l p r xs rs ws fs
    → MaySleep (record s { intrs = i }) q l p r xs rs ws fs
MaySleep-intrs {p} {r} {rs} {ws} i m = record {
  synch = m.synch;
  current = m.current;
  queue = m.queue;
  ready = Holds-same run_queue (p ∷ r ∷ rs) refl (λ a. refl) m.ready;
  asleep = Holds-same wait_queue ws refl (λ a. refl) m.asleep;
  zombies = m.zombies;
  free = m.free;
}
