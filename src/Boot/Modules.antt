-- ===== src/Boot/Modules.antt =====
-- What main of os/process.c has started once its modules are ready.
use ece695os_lab.Prelude.{
  ℕ, suc, ◌+◌, ◌<◌, ◌≡◌, ◌≢◌, true, List, [], some, refl, arith, has, length, ◌∙◌, ap,
}
use ece695os_lab.Queue.{Ptr, null, queue_max_links, free_links}
use ece695os_lab.Queue.IsQueue.{IsQueue}
use ece695os_lab.Queue.Pool.{pool_upto, module_init-Filled}
use ece695os_lab.Memory
use ece695os_lab.Kernel.{Os, free_pcbs, run_queue, wait_queue, zombie_queue}
use ece695os_lab.Process.{max_procs, status_free}
use ece695os_lab.Process.Holds.{Holds}
use ece695os_lab.Process.Stocked.{down_from}
use ece695os_lab.Process.Init.{module_init-Begun}
use ece695os_lab.Synch
use ece695os_lab.Synch.{max_sems}
use ece695os_lab.Synch.Init.{module_init-free}
use ece695os_lab.Fork.{Platform}
use ece695os_lab.Boot.{Machine, Start, init_modules}

-- `ShareModuleInit` leaves the queues and the processes alone.
pub record KeepsProcesses (share : Os → Os) : Type 0 where
  pub store : (s : Os) → (share s).store ≡ s.store
  pub pcbs : (s : Os) → (share s).pcbs ≡ s.pcbs
  pub current : (s : Os) → (share s).current ≡ s.current

-- The kernel `t` that the modules leave, from the kernel `s`.
pub record Booted (s t : Os) : Type 0 where
  pub processes : Holds t free_pcbs (down_from max_procs)
  pub run : Holds t run_queue []
  pub wait : Holds t wait_queue []
  pub zombie : Holds t zombie_queue []
  pub free :
      (gs : List Ptr) × IsQueue t.store free_links gs × (length gs + max_procs ≡ queue_max_links)
  pub others :
      (u : Ptr) → u ≢ free_pcbs → u ≢ free_links → IsQueue s.store u [] → IsQueue t.store u []
  pub flags : (a : Ptr) → has a (down_from max_procs) ≡ true → (t.pcbs a).flags ≡ status_free
  pub nobody : t.current ≡ null
  pub sems : (a : ℕ) → a < max_sems → (t.sems (suc a)).inuse ≡ 0

Holds-fields :
    {s t : Os} (q : Ptr) (ps : List Ptr)
    → t.store ≡ s.store
    → t.pcbs ≡ s.pcbs
    → Holds s q ps
    → Holds t q ps
Holds-fields q ps e f h = record { queue = rw (e, f) h.queue; owned = rw (e, f) h.owned }

length-pool_upto : length (pool_upto queue_max_links) ≡ max_procs + 368
length-pool_upto = refl

module _ {W : Type 0} (pf : Platform W) (st : Start W) (m : Machine W)
    (keeps : KeepsProcesses st.share_module_init) where
  -- The start of the modules in main never exits, when ShareModuleInit leaves the queues and the
  -- processes alone: then all 32 processes are free and on the free list, the other queues of
  -- processes are empty and no process is the current one, 368 links are free, every semaphore is
  -- free, the keyboard may interrupt, and every queue that was empty, such as those of the semaphores,
  -- locks and condition variables, still is.
  pub init_modules-Booted :
      (t : Machine W) × (init_modules pf st m ≡ some (tt, t))
      × Booted m.computer.os t.computer.os
      × (t.keyboard ≡ 1)
  unfolding init_modules
  init_modules-Booted =
      let s = m.computer.os in
      let (v, e1, filled) = module_init-Filled s.store in
      let s1 : Os = record s {
        store = v;
        memory = Memory.module_init st.memory_size st.lastosaddress s.memory;
      } in
      let (s2, e2, b) =
        module_init-Begun s1 368 (pool_upto queue_max_links) filled.free length-pool_upto in
      let s3 = st.share_module_init s2 in
      let (ok, clear, rest) = module_init-free s3 in
      let s4 = (Synch.module_init s3).1 in
      let store : s4.store ≡ s2.store = ap (λ (x : Os). x.store) rest ∙ keeps.store s2 in
      let pcbs : s4.pcbs ≡ s2.pcbs = ap (λ (x : Os). x.pcbs) rest ∙ keeps.pcbs s2 in
      let current : s4.current ≡ null =
        ap (λ (x : Os). x.current) rest ∙ keeps.current s2 ∙ ap (λ (x : Os). x.current) b.rest in
      (
        record m { computer = record m.computer { os = s4 }; keyboard = 1 },
        ground (arith, e1, e2),
        record {
          processes = Holds-fields free_pcbs (down_from max_procs) store pcbs b.processes;
          run = Holds-fields run_queue [] store pcbs b.run;
          wait = Holds-fields wait_queue [] store pcbs b.wait;
          zombie = Holds-fields zombie_queue [] store pcbs b.zombie;
          free = let (gs, w, e) = b.free in (gs, rw store w, omega (arith, e));
          others = λ u nu nf w. rw store (b.others u nu nf (filled.others u nf w));
          flags = λ a h. rw pcbs (b.flags a h);
          nobody = current;
          sems = clear;
        },
        refl,
      )
