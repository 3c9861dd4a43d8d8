-- ===== src/Fork/System.antt =====
-- `ProcessFork` of a system process, from the free list to the run queue.
use ece695os_lab.Prelude.{
  ℕ, ◌*◌, ◌%◌, ◌^◌, ◌≡◌, false, some, ◌==◌, if◌then◌else◌, refl, update, ==_self,
}
use ece695os_lab.Queue
use ece695os_lab.Queue.{Ptr, null, free_links}
use ece695os_lab.Memory
use ece695os_lab.Memory.{Memory, page_size}
use ece695os_lab.Misc.{Bytes, dstrcpy}
use ece695os_lab.Kernel.{Pcb, Os, ◌⨾◌, set_pcb, free_pcbs, run_queue, pid_of}
use ece695os_lab.Process
use ece695os_lab.Process.{status_runnable, with_status, set_status}
use ece695os_lab.Process.Enter.{Dresses, Dresses-update, unchanged-Dresses, ⨾-split, entered}
use ece695os_lab.State.{◌>>=◌, need}
use ece695os_lab.Fork.{
  Computer, act_os, Platform, claim_pcb, set_name, set_up_memory, set_up_frame, start_system,
  take_page, make_ready, bytes_of, put_bytes, first_frame, system_frame, fork, frame_ireg,
}

module _ {W : Type 0} (pf : Platform W) (c : Computer W) (p func param user stack : ℕ) (s1 : Os)
    (m : Bytes) (m1 m2 : Memory) where
  abbrev pub marked : Os
  marked = record (set_status p status_runnable s1) { intrs = c.os.intrs % 16 }

  -- The fields of the process, without its link.
  abbrev pub paged : Pcb → Pcb
  paged b = record b {
    npages = 1;
    pagetable = update b.pagetable 0 (Memory.setup_pte user);
    sys_stack_area = stack * page_size % 2 ^ 32;
  }

  abbrev pub renamed : Computer W
  renamed = put_bytes pf m c

  abbrev pub dressed : Pcb → Pcb
  dressed b = system_frame pf func (first_frame pf (bytes_of pf renamed) p (paged b))

  -- The writes, one by one.
  abbrev pub sized : Os
  sized = record (set_pcb p (record (marked.pcbs p) { npages = 1 }) marked) { memory = m1 }

  abbrev pub mapped : Os
  mapped =
      let b = sized.pcbs p in
      let v = record b { pagetable = update b.pagetable 0 (Memory.setup_pte user) } in
      record (set_pcb p v sized) { memory = m2 }

  abbrev pub stacked : Os
  stacked =
      set_pcb p (record (mapped.pcbs p) { sys_stack_area = stack * page_size % 2 ^ 32 }) mapped

  abbrev pub framed : Os
  framed = set_pcb p (first_frame pf (bytes_of pf renamed) p (stacked.pcbs p)) stacked

  pub prepared : Os
  prepared = set_pcb p (system_frame pf func (framed.pcbs p)) framed

  pub prepared-pcb : prepared.pcbs p ≡ dressed (marked.pcbs p)
  unfolding prepared
  prepared-pcb = rw (==_self p) refl

  pub prepared-Dresses : Dresses p s1 prepared.store prepared.pcbs
  unfolding prepared set_status
  prepared-Dresses =
      let d0 =
        Dresses-update
          (record (s1.pcbs p) { flags = with_status (s1.pcbs p).flags status_runnable }) refl
          (unchanged-Dresses p s1) in
      let d1 = Dresses-update (record (marked.pcbs p) { npages = 1 }) refl d0 in
      let b = sized.pcbs p in
      let d2 =
        Dresses-update (record b { pagetable = update b.pagetable 0 (Memory.setup_pte user) }) refl
          d1 in
      let d3 =
        Dresses-update (record (mapped.pcbs p) { sys_stack_area = stack * page_size % 2 ^ 32 }) refl
          d2 in
      let d4 = Dresses-update (first_frame pf (bytes_of pf renamed) p (stacked.pcbs p)) refl d3 in
      Dresses-update (system_frame pf func (framed.pcbs p)) refl d4

  pub prepared-memory : prepared.memory ≡ m2
  unfolding prepared
  prepared-memory = refl

  pub prepared-current : prepared.current ≡ s1.current
  unfolding prepared set_status
  prepared-current = refl

  abbrev pub loaded : Computer W
  loaded =
      let d = record renamed { os = prepared } in
      put_bytes pf
        (pf.set_word ((prepared.pcbs p).saved_frame (frame_ireg 29)) param (bytes_of pf d)) d

  abbrev pub started : Computer W
  started =
      let d = record (entered run_queue p (record prepared { intrs = 15 })) {
        intrs = c.os.intrs % 16 % 16;
      } in
      record loaded { os = record d { current = if d.current == null then p else d.current } }

  pub claim_pcb-run :
      Queue.is_empty c.os.store free_pcbs ≡ false
      → Queue.object c.os.store (Queue.first c.os.store free_pcbs) ≡ p
      → Process.remove_link p (record c.os { intrs = 15 }) ≡ some s1
      → claim_pcb pf c ≡ some (p, record c { os = marked })
  unfolding claim_pcb
  claim_pcb-run some_free first out =
      rw (some_free, claim_pcb) (rw (first, claim_pcb) (rw (out, ◌>>=◌, act_os) refl))

  pub set_name-run :
      (name : ℕ)
      → dstrcpy pf.layout.fuel (pf.name_at p) name (bytes_of pf c) ≡ some m
      → set_name pf p name (record c { os = marked }) ≡ some (tt, record renamed { os = marked })
  unfolding set_name
  set_name-run name named = rw (named, set_name, ◌>>=◌, need) refl

  pub set_up_memory-run :
      Memory.alloc_page s1.memory ≡ some (user, m1)
      → (user == 0) ≡ false
      → Memory.alloc_page m1 ≡ some (stack, m2)
      → (stack == 0) ≡ false
      → set_up_memory pf p (record renamed { os = marked })
        ≡ some (tt, record renamed { os = stacked })
  unfolding set_up_memory take_page set_status
  set_up_memory-run page1 ne1 page2 ne2 =
      rw (page1, set_up_memory, ◌>>=◌, take_page)
        (rw (ne1, ◌>>=◌) (rw (page2, ◌>>=◌, take_page) (rw (ne2, ◌>>=◌) refl)))

  set_up_frame-run :
      set_up_frame pf p (record renamed { os = stacked })
      ≡ some (tt, record renamed { os = framed })
  unfolding set_up_frame
  set_up_frame-run = refl

  start_system-run :
      start_system pf p func param (record renamed { os = framed }) ≡ some (tt, loaded)
  unfolding start_system prepared
  start_system-run = refl

  abbrev pub entering : Os
  entering = record prepared { intrs = 15 }

  pub make_ready-run :
      (Process.alloc_link p ⨾ Process.insert_last run_queue p) entering
        ≡ some (entered run_queue p entering)
      → make_ready pf p loaded ≡ some (tt, started)
  unfolding make_ready prepared
  make_ready-run ready =
      let (v, linked, joined) =
        ⨾-split (Process.alloc_link p) (Process.insert_last run_queue p) entering ready in
      rw (linked, make_ready, ◌>>=◌, act_os) (rw (joined, ◌>>=◌, act_os) refl)

  pub fork-run :
      (name : ℕ)
      → claim_pcb pf c ≡ some (p, record c { os = marked })
      → set_name pf p name (record c { os = marked }) ≡ some (tt, record renamed { os = marked })
      → set_up_memory pf p (record renamed { os = marked })
        ≡ some (tt, record renamed { os = stacked })
      → make_ready pf p loaded ≡ some (tt, started)
      → fork pf func param name false c ≡ some (pid_of p, started)
  unfolding fork
  fork-run name claim named memory ready =
      rw (claim, fork, ◌>>=◌)
        (rw (named, ◌>>=◌)
          (rw (memory, ◌>>=◌)
            (rw (set_up_frame-run, ◌>>=◌) (rw (start_system-run, ◌>>=◌) (rw (ready, ◌>>=◌) refl)))))
