-- ===== src/Boot/Ready.antt =====
-- main of os/process.c without a user program, from the options to the timer.
use mathlib.Core.Path.{subst}
use ece695os_lab.Prelude.{
  ℕ, zero, suc, ◌+◌, ◌≤◌, ◌<◌, ◌≡◌, ◌≢◌, ◌⊎◌, inl, inr, ◌==◌, true, false, List, [], none, some,
  refl, arith, update, ◌∙◌, Bool-cases,
}
use ece695os_lab.Queue
use ece695os_lab.Queue.{Ptr, null, success, Store}
use ece695os_lab.Queue.IsQueue.{IsQueue, init-IsQueue, init-object}
use ece695os_lab.Kernel.{Os, free_pcbs}
use ece695os_lab.Process.{init_queue, process_quantum, max_procs}
use ece695os_lab.Process.Holds.{Holds, Owned-same}
use ece695os_lab.Process.Stocked.{down_from}
use ece695os_lab.Process.Init.{init_queue-empty}
use ece695os_lab.Files
use ece695os_lab.Files.{Files}
use ece695os_lab.Fork.{Computer, Platform, bytes_of, put_bytes}
use ece695os_lab.State.{◌>>=◌}
use ece695os_lab.Boot.{
  Machine, Start, mysem_waiting, options, init_modules, fill, write_vm, create_user,
  create_sysprocs, main,
}
use ece695os_lab.Boot.Modules.{Booted, KeepsProcesses, init_modules-Booted}

-- The start of another queue leaves the queues of processes as they are.
init_queue-Holds :
    (q p : Ptr) (ps : List Ptr) (s : Os)
    → q ≢ null
    → p ≢ q
    → Holds s p ps
    → Holds (init_queue q s) p ps
init_queue-Holds q p ps s nq ne h = record {
  queue = (init-IsQueue q s.store nq).2 p _ ne h.queue;
  owned =
      Owned-same s.pcbs s.pcbs s.store (Queue.init q s.store).1 ps (λ a. refl)
        (λ a. init-object q s.store a nq) h.owned;
}

init_queue-Booted : (q : Ptr) (s t : Os) → 133 < q → Booted s t → Booted s (init_queue q t)
init_queue-Booted q s t far b =
    let nq : q ≢ null = λ e. absurd (omega arith) in
    record {
      processes =
          init_queue-Holds q free_pcbs (down_from max_procs) t nq (λ e. absurd (omega arith))
            b.processes;
      run = init_queue-Holds q _ [] t nq (λ e. absurd (omega arith)) b.run;
      wait = init_queue-Holds q _ [] t nq (λ e. absurd (omega arith)) b.wait;
      zombie = init_queue-Holds q _ [] t nq (λ e. absurd (omega arith)) b.zombie;
      free =
          let (gs, w, e) = b.free in
          (gs, (init-IsQueue q t.store nq).2 _ gs (λ e. absurd (omega arith)) w, e);
      others = λ u nu nf w. (init_queue-empty q t nq).1 u (b.others u nu nf w);
      flags = b.flags;
      nobody = b.nobody;
      sems = b.sems;
    }

behind : (k i a : ℕ) → (i ≤ a) × (a < i + suc k) → (a == i) ≡ false → (suc i ≤ a) × (a < suc i + k)
behind k i a (l, u) ne = (ground arith, omega (arith, u))

same_index : (a i : ℕ) → (a == i) ≡ true → i ≡ a
same_index a i e = ground arith

module _ {W : Type 0} (pf : Platform W) (st : Start W) where
  -- The semaphores of `mysems` from `i` on have the count 1 and empty queues.
  pub record SysprocsCreated (s : Os) (m t : Machine W) (k i : ℕ) : Type 0 where
    pub booted : Booted s t.computer.os
    pub counts : (a : ℕ) → ((i ≤ a) × (a < i + k)) ⊎ (m.mysems a ≡ 1) → t.mysems a ≡ 1
    pub queues :
        (a : ℕ)
        → ((i ≤ a) × (a < i + k)) ⊎ IsQueue m.computer.os.store (mysem_waiting a) []
        → IsQueue t.computer.os.store (mysem_waiting a) []
    pub keyboard : t.keyboard ≡ m.keyboard

  abbrev one_sysproc : ℕ → Machine W → Machine W
  one_sysproc i m = record m {
    computer = record m.computer { os = init_queue (mysem_waiting i) m.computer.os };
    mysems = update m.mysems i 1;
  }

  create_sysprocs-suc :
      (k i : ℕ) (m : Machine W)
      → create_sysprocs pf st (suc k) i m ≡ create_sysprocs pf st k (suc i) (one_sysproc i m)
  unfolding create_sysprocs
  create_sysprocs-suc k i m =
      rw
        (
          (init-IsQueue (mysem_waiting i) m.computer.os.store (λ e. absurd (omega arith))).0,
          create_sysprocs,
        )
        refl

  create_sysprocs-SysprocsCreated :
      (k i : ℕ) (s : Os) (m : Machine W)
      → Booted s m.computer.os
      → (t : Machine W) × (create_sysprocs pf st k i m ≡ some (tt, t)) × SysprocsCreated s m t k i
  unfolding create_sysprocs
  create_sysprocs-SysprocsCreated zero i s m b = (
    m,
    refl,
    record {
      booted = b;
      counts = λ a h. elim h [ inl (l, u) ↦ absurd (omega (arith, l, u)) | inr e ↦ e ];
      queues = λ a h. elim h [ inl (l, u) ↦ absurd (omega (arith, l, u)) | inr w ↦ w ];
      keyboard = refl;
    },
  )
  create_sysprocs-SysprocsCreated (suc k) i s m b =
      let q = mysem_waiting i in
      let nq : q ≢ null = λ e. absurd (omega arith) in
      let (own, kept) = init_queue-empty q m.computer.os nq in
      let (t, run, c) =
        create_sysprocs-SysprocsCreated k (suc i) s (one_sysproc i m)
          (init_queue-Booted q s m.computer.os (omega arith) b) in
      (
        t,
        create_sysprocs-suc k i m ∙ run,
        record {
          booted = c.booted;
          counts = λ a h. c.counts a (elim (Bool-cases (a == i)) [
            | inl e ↦ inr (rw e refl)
            | inr e ↦ elim h [ inl r ↦ inl (behind k i a r e) | inr z ↦ inr (rw e z) ]
          ]);
          queues = λ a h. c.queues a (elim (Bool-cases (a == i)) [
            | inl e ↦ inr (
                subst (λ x. IsQueue (Queue.init q m.computer.os.store).1 (mysem_waiting x) [])
                  (same_index a i e) own)
            | inr e ↦ elim h [
              | inl r ↦ inl (behind k i a r e)
              | inr w ↦ inr (kept (mysem_waiting a) w)
            ]
          ]);
          keyboard = c.keyboard;
        },
      )

  fill-os :
      (k i : ℕ) (c : Computer W)
      → (d : Computer W) × (fill pf st k i c ≡ some (tt, d)) × (d.os ≡ c.os)
  unfolding fill
  fill-os zero i c = (c, refl, refl)
  fill-os (suc k) i c = fill-os k (suc i) (put_bytes pf (update (bytes_of pf c) (st.buf + i) 97) c)

  -- The files behind the calls for "vm".
  abbrev vm_files : Files W → Files W
  vm_files f =
      let (i, f1) = Files.open_file pf.layout.host st.vm 2 f in
      let f2 = (Files.seek_file pf.layout.host i 0 0 f1).1 in
      let f3 = (Files.write_file pf.layout.host i st.buf 80 f2).1 in
      (Files.close_file pf.layout.host i f3).1

  -- The file "vm", whatever the simulator answers.
  write_vm-os :
      (c : Computer W) → (d : Computer W) × (write_vm pf st c ≡ some (tt, d)) × (d.os ≡ c.os)
  unfolding write_vm
  write_vm-os c =
      let (d, run, same) = fill-os 100 0 c in
      (record d { files = vm_files d.files }, rw (run, ◌>>=◌) refl, same)

  -- The computer when main reads its options.
  abbrev pub at_options : Computer W → Computer W
  at_options c =
      let d = put_bytes pf (update (bytes_of pf c) st.debugstr 0) c in
      record d { files = Files.module_init d.files }

  main-run :
      (argc : ℕ) (argv : ℕ → ℕ) (m : Machine W) {d c2 : Computer W} {m1 m3 : Machine W}
      → options pf st argc argc argv 0 (at_options m.computer) ≡ some (none, d)
      → init_modules pf st (record m { computer = d }) ≡ some (tt, m1)
      → write_vm pf st m1.computer ≡ some (tt, c2)
      → create_sysprocs pf st 10 0 (record m1 { computer = c2 }) ≡ some (tt, m3)
      → main pf st argc argv m
        ≡ some (
          tt,
          record m3 {
            computer = record m3.computer {
              os = record m3.computer.os { timer = process_quantum };
            };
          },
        )
  unfolding main create_user
  main-run argc argv m e0 e1 e2 e3 =
      rw (e0, main, ◌>>=◌) (rw (e1, ◌>>=◌) (rw (e2, ◌>>=◌) (rw (e3, ◌>>=◌) refl)))

  -- main, when ShareModuleInit leaves the queues and the processes alone and the options end
  -- without a user program, never exits before intrreturn: all 32 processes are free and on the
  -- free list, the other queues of processes are empty and no process is the current one, 368
  -- links are free, every semaphore is free, and every queue that was empty still is; all ten
  -- semaphores of os/sysproc.c count 1 and have empty queues, the keyboard may interrupt, and the
  -- timer is set to a quantum.
  pub main-Booted :
      KeepsProcesses st.share_module_init
      → (argc : ℕ) (argv : ℕ → ℕ) (m : Machine W) {d : Computer W}
      → options pf st argc argc argv 0 (at_options m.computer) ≡ some (none, d)
      → (t : Machine W) × (main pf st argc argv m ≡ some (tt, t))
        × Booted d.os t.computer.os
        × (t.computer.os.timer ≡ process_quantum)
        × (t.keyboard ≡ 1)
        × ((a : ℕ) → a < 10 → (t.mysems a ≡ 1) × IsQueue t.computer.os.store (mysem_waiting a) [])
  main-Booted keeps argc argv m {d} read =
      let (m1, e1, b1, k1) = init_modules-Booted pf st (record m { computer = d }) keeps in
      let (c2, e2, same) = write_vm-os m1.computer in
      let m2 : Machine W = record m1 { computer = c2 } in
      let b2 : Booted d.os c2.os = rw same b1 in
      let (m3, e3, done) = create_sysprocs-SysprocsCreated 10 0 d.os m2 b2 in
      let os : Os = record m3.computer.os { timer = process_quantum } in
      let b = done.booted in
      (
        record m3 { computer = record m3.computer { os = os } },
        main-run argc argv m read e1 e2 e3,
        record {
          processes = record { queue = b.processes.queue; owned = b.processes.owned };
          run = record { queue = b.run.queue; owned = b.run.owned };
          wait = record { queue = b.wait.queue; owned = b.wait.owned };
          zombie = record { queue = b.zombie.queue; owned = b.zombie.owned };
          free = b.free;
          others = b.others;
          flags = b.flags;
          nobody = b.nobody;
          sems = b.sems;
        },
        refl,
        done.keyboard ∙ k1,
        λ a h.
            let r : (0 ≤ a) × (a < 0 + 10) = (omega arith, omega arith) in
            (done.counts a (inl r), done.queues a (inl r)),
      )
