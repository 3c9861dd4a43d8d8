-- ===== src/Process/Schedule.antt =====
-- `ProcessSchedule` of os/process.c when there is no zombie to bury.
use ece695os_lab.Prelude.{
  ℕ, suc, ◌≡◌, ◌≢◌, true, false, List, [], ◌∷◌, ◌++◌, refl, some, arith, head_or, sym,
}
use mathlib.Core.Path.{subst}
use ece695os_lab.Queue
use ece695os_lab.Queue.{Ptr, null, Store, success, queue_max_links}
use ece695os_lab.Queue.IsQueue.{IsQueue, first-head_or, is_empty-nil, is_empty-cons}
use ece695os_lab.Queue.Move.{move_after-rotate}
use ece695os_lab.Kernel.{Os, ◌⨾◌, run_queue, zombie_queue}
use ece695os_lab.Process.{schedule, bury, process_quantum}
use ece695os_lab.Process.Holds.{Holds, links_of, links_of-append, Owned-append, Owned-same}

-- The first process of the queue is the object of its first link.
pub first-object :
    {s : Os} {q p : Ptr} {ps : List Ptr}
    → Holds s q (p ∷ ps)
    → Queue.object s.store (Queue.first s.store q) ≡ p
unfolding Queue.object
first-object h = rw (first-head_or h.queue) h.owned.0

module _ (free_shared_pte : Ptr → ℕ → Os → Os) where
  bury-nil :
      (fuel : ℕ) (s : Os)
      → IsQueue s.store zombie_queue []
      → bury free_shared_pte (suc fuel) s ≡ some s
  unfolding bury
  bury-nil fuel s w = rw (is_empty-nil w) refl

  -- After a suspension the first process of the run queue is the next one; no queue changes.
  pub schedule-suspended :
      (s : Os) (p : Ptr) (ps : List Ptr)
      → Holds s run_queue (p ∷ ps)
      → IsQueue s.store zombie_queue []
      → schedule free_shared_pte true s ≡ some (record s { current = p; timer = process_quantum })
  unfolding schedule
  schedule-suspended s p ps h z =
      rw
        (
          is_empty-cons h.queue,
          first-object h,
          ◌⨾◌,
          bury-nil queue_max_links (record s { current = p }) z,
        )
        refl

  schedule-steps :
      (s : Os) (v : Store) (p : Ptr)
      → Queue.is_empty s.store run_queue ≡ false
      → (Queue.move_after run_queue
          (Queue.last s.store run_queue)
          (Queue.first s.store run_queue)
          s.store).1
        ≡ v
      → Queue.object v (Queue.first v run_queue) ≡ p
      → IsQueue v zombie_queue []
      → schedule free_shared_pte false s
        ≡ some (record s { store = v; current = p; timer = process_quantum })
  unfolding schedule
  schedule-steps s v p e m o z =
      rw (e, m, o, ◌⨾◌, bury-nil queue_max_links (record s { store = v; current = p }) z) refl

  -- When the time of the current process is over, the first process of the run queue goes to its
  -- end, the one that is the first then is the current one, and the timer is reset. Every other
  -- queue, those of the semaphores, locks and condition variables and the free links included,
  -- holds what it held, and every link keeps its object.
  pub schedule-rotate :
      (s : Os) (p : Ptr) (ps : List Ptr)
      → Holds s run_queue (p ∷ ps)
      → IsQueue s.store zombie_queue []
      → (t : Os) × (schedule free_shared_pte false s ≡ some t)
        × (t ≡ record s { store = t.store; current = head_or ps p; timer = process_quantum })
        × Holds t run_queue (ps ++ p ∷ [])
        × ((u : Ptr) (ws : List Ptr) → u ≢ run_queue → Holds s u ws → Holds t u ws)
        × ((u : Ptr) (ws : List Ptr) → u ≢ run_queue → IsQueue s.store u ws → IsQueue t.store u ws)
        × ((a : Ptr) → (t.store.links a).object ≡ (s.store.links a).object)
  schedule-rotate s p ps h z =
      let (st, m) =
        move_after-rotate s.store run_queue (s.pcbs p).link (links_of s.pcbs ps)
          (λ e. absurd (omega arith)) h.queue in
      let v =
        (Queue.move_after run_queue (Queue.last s.store run_queue) (Queue.first s.store run_queue)
          s.store).1 in
      let t = record s { store = v; current = head_or ps p; timer = process_quantum } in
      let kept =
        λ (ws : List Ptr). Owned-same s.pcbs s.pcbs s.store v ws (λ a. refl) (λ a. m.objects a) in
      let rotated : Holds t run_queue (ps ++ p ∷ []) = record {
        queue = subst (IsQueue v run_queue) (sym (links_of-append s.pcbs ps (p ∷ []))) m.queue;
        owned =
            Owned-append s.pcbs v ps (p ∷ []) (kept ps h.owned.1) (kept (p ∷ []) (h.owned.0, tt));
      } in
      (
        t,
        schedule-steps s v (head_or ps p) (is_empty-cons h.queue) refl (first_of ps rotated)
            (m.others zombie_queue [] (λ e. absurd (omega arith)) z),
        refl,
        rotated,
        λ u ws ne w. record { queue = m.others u _ ne w.queue; owned = kept ws w.owned },
        λ u ws ne w. m.others u ws ne w,
        λ a. m.objects a,
      )
    where
      first_of :
          {t : Os} (ps : List Ptr)
          → Holds t run_queue (ps ++ p ∷ [])
          → Queue.object t.store (Queue.first t.store run_queue) ≡ head_or ps p
      first_of [] w = first-object w
      first_of (x ∷ ps) w = first-object w
