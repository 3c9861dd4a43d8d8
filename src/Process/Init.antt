-- ===== src/Process/Init.antt =====
-- `ProcessModuleInit` of os/process.c: every process is free.
use mathlib.Core.Path.{subst}
use ece695os_lab.Prelude.{
  ℕ, ◌+◌, ◌≡◌, ◌≢◌, true, List, [], ◌==◌, refl, some, arith, has, length, sym, Bool-cases, inl, inr,
}
use ece695os_lab.Queue.{Ptr, null, free_links}
use ece695os_lab.Queue.IsQueue.{IsQueue, init-IsQueue}
use ece695os_lab.Kernel.{Os, ◌⨾◌, free_pcbs, run_queue, wait_queue, zombie_queue}
use ece695os_lab.Process.{init_queue, module_init, max_procs, status_free}
use ece695os_lab.Process.Holds.{Holds}
use ece695os_lab.Process.Stocked.{Stocked, down_from, init_pcbs-Stocked}

-- `ProcessModuleInit` from a state with links for all processes.
pub record Begun (s t : Os) (n : ℕ) : Type 0 where
  pub processes : Holds t free_pcbs (down_from max_procs)
  pub run : Holds t run_queue []
  pub wait : Holds t wait_queue []
  pub zombie : Holds t zombie_queue []
  pub free : (gs : List Ptr) × IsQueue t.store free_links gs × (length gs ≡ n)
  pub others :
      (u : Ptr) → u ≢ free_pcbs → u ≢ free_links → IsQueue s.store u [] → IsQueue t.store u []
  pub flags : (a : Ptr) → has a (down_from max_procs) ≡ true → (t.pcbs a).flags ≡ status_free
  pub rest : t ≡ record s { store = t.store; pcbs = t.pcbs; current = null }

-- The start of a queue leaves it empty, and all that were.
pub init_queue-empty :
    (q : Ptr) (s : Os)
    → q ≢ null
    → IsQueue (init_queue q s).store q []
      × ((u : Ptr) → IsQueue s.store u [] → IsQueue (init_queue q s).store u [])
init_queue-empty q s nq =
    let (ok, own, others) = init-IsQueue q s.store nq in
    (
      own,
      λ u w. elim (Bool-cases (u == q)) [
        | inl e ↦
            let z : q ≡ u = ground arith in subst (λ x. IsQueue (init_queue q s).store x []) z own
        | inr e ↦ others u [] (λ z. absurd (ground arith)) w
      ],
    )

init_queue-free :
    (q : Ptr) (s : Os) (gs : List Ptr)
    → q ≢ null
    → q ≢ free_links
    → IsQueue s.store free_links gs
    → IsQueue (init_queue q s).store free_links gs
init_queue-free q s gs nq nf w =
    (init-IsQueue q s.store nq).2 free_links gs (λ e. absurd (nf (sym e))) w

-- `ProcessModuleInit`, from a state in which links are free for all processes, never exits: every
-- process is free and on the free list, the other three queues are empty, no process is the current
-- one, each process has taken a link, and the queues that were empty still are.
pub module_init-Begun :
    (s : Os) (n : ℕ) (gs : List Ptr)
    → IsQueue s.store free_links gs
    → length gs ≡ max_procs + n
    → (t : Os) × (module_init s ≡ some t) × Begun s t n
unfolding module_init
module_init-Begun s n gs w size =
    let s1 = init_queue free_pcbs s in
    let s2 = init_queue run_queue s1 in
    let s3 = init_queue wait_queue s2 in
    let s4 = init_queue zombie_queue s3 in
    let (e1, k1) = init_queue-empty free_pcbs s (λ e. absurd (omega arith)) in
    let (e2, k2) = init_queue-empty run_queue s1 (λ e. absurd (omega arith)) in
    let (e3, k3) = init_queue-empty wait_queue s2 (λ e. absurd (omega arith)) in
    let (e4, k4) = init_queue-empty zombie_queue s3 (λ e. absurd (omega arith)) in
    let w1 =
      init_queue-free free_pcbs s gs (λ e. absurd (omega arith)) (λ e. absurd (omega arith)) w in
    let w2 =
      init_queue-free run_queue s1 gs (λ e. absurd (omega arith)) (λ e. absurd (omega arith)) w1 in
    let w3 =
      init_queue-free wait_queue s2 gs (λ e. absurd (omega arith)) (λ e. absurd (omega arith)) w2 in
    let w4 =
      init_queue-free zombie_queue s3 gs (λ e. absurd (omega arith)) (λ e. absurd (omega arith))
        w3 in
    let start : Stocked s4 s4 0 (max_procs + n) = record {
      processes = record { queue = k4 free_pcbs (k3 free_pcbs (k2 free_pcbs e1)); owned = tt };
      free = (gs, w4, size);
      others = λ u nu nf v. v;
      flags = λ a h. cc;
      rest = refl;
    } in
    let (t, run, done) = init_pcbs-Stocked max_procs 0 n s4 s4 start in
    (
      record t { current = null },
      rw (run, ◌⨾◌) refl,
      record {
        processes = record { queue = done.processes.queue; owned = done.processes.owned };
        run = record {
          queue =
              done.others run_queue (λ e. absurd (omega arith)) (λ e. absurd (omega arith))
                (k4 run_queue (k3 run_queue e2));
          owned = tt;
        };
        wait = record {
          queue =
              done.others wait_queue (λ e. absurd (omega arith)) (λ e. absurd (omega arith))
                (k4 wait_queue e3);
          owned = tt;
        };
        zombie = record {
          queue =
              done.others zombie_queue (λ e. absurd (omega arith)) (λ e. absurd (omega arith)) e4;
          owned = tt;
        };
        free = done.free;
        others = λ u nu nf v. done.others u nu nf (k4 u (k3 u (k2 u (k1 u v))));
        flags = done.flags;
        rest = rw (done.rest) refl;
      },
    )
