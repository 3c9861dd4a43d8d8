-- ===== src/Fork/Start.antt =====
-- What `ProcessFork` of a system process does to the queues and to the process.
use Prim.Native.Nat.{bit_or}
use ece695os_lab.Prelude.{
  ℕ, ◌*◌, ◌%◌, ◌^◌, ◌≡◌, ◌≢◌, true, false, some, has, List, [], ◌∷◌, ◌++◌, ◌==◌, if◌then◌else◌,
}
use ece695os_lab.Queue
use ece695os_lab.Queue.{Ptr, null, free_links}
use ece695os_lab.Queue.IsQueue.{IsQueue}
use ece695os_lab.Memory
use ece695os_lab.Memory.{Memory, page_size}
use ece695os_lab.Misc.{Bytes}
use ece695os_lab.Kernel.{Pcb, Os, ◌⨾◌, free_pcbs, run_queue}
use ece695os_lab.Process
use ece695os_lab.Process.{status_runnable, with_status}
use ece695os_lab.Process.Holds.{Holds}
use ece695os_lab.Process.Moves.{Transferred}
use ece695os_lab.Fork.System.{started, entering}
use ece695os_lab.Fork.{Computer, Platform, frame_ireg, frame_iar, frame_isr}

-- What a system process has when it is created: its place, its registers, its page and its stack.
pub record Started {W : Type 0} (pf : Platform W) (c d : Computer W) (p func user stack : ℕ)
    (ps rs : List Ptr) (m2 : Memory) : Type 0 where
  pub free : Holds d.os free_pcbs ps
  pub run : Holds d.os run_queue (rs ++ p ∷ [])
  pub others :
      (q : Ptr) (ws : List Ptr)
      → q ≢ null
      → q ≢ free_pcbs
      → q ≢ run_queue
      → q ≢ free_links
      → Holds c.os q ws
      → Holds d.os q ws
  -- So does every queue of links, such as those of the semaphores.
  pub waiting :
      (q : Ptr) (ws : List Ptr)
      → q ≢ null
      → q ≢ free_pcbs
      → q ≢ run_queue
      → q ≢ free_links
      → IsQueue c.os.store q ws
      → IsQueue d.os.store q ws
        × ((a : Ptr) → has a ws ≡ true → (d.os.store.links a).object ≡ (c.os.store.links a).object)
  pub pcbs : (a : Ptr) → (a == p) ≡ false → d.os.pcbs a ≡ c.os.pcbs a
  pub flags : (d.os.pcbs p).flags ≡ bit_or (with_status (c.os.pcbs p).flags status_runnable) 0x100
  pub start : (d.os.pcbs p).saved_frame frame_iar ≡ func
  pub level : (d.os.pcbs p).saved_frame frame_isr ≡ 0x140
  pub return : (d.os.pcbs p).saved_frame (frame_ireg 31) ≡ pf.process_exit
  pub stack_at : (d.os.pcbs p).sys_stack_area ≡ stack * page_size % 2 ^ 32
  pub npages : (d.os.pcbs p).npages ≡ 1
  pub page : (d.os.pcbs p).pagetable 0 ≡ Memory.setup_pte user
  pub memory : d.os.memory ≡ m2
  pub current : d.os.current ≡ (if c.os.current == null then p else c.os.current)

-- The parts of the state that the steps leave as they are.
module _ {W : Type 0} (pf : Platform W) (c : Computer W) (p func param user stack : ℕ)
    (ps rs : List Ptr) (n : ℕ) (m : Bytes) (m1 m2 : Memory) (s1 t : Os)
    (out : Process.remove_link p (record c.os { intrs = 15 }) ≡ some s1)
    (enter : (Process.alloc_link p ⨾ Process.insert_last run_queue p) s1 ≡ some t)
    (moved : Transferred
      (record c.os { intrs = 15 })
      t
      free_pcbs
      run_queue
      p
      ps
      (rs ++ p ∷ [])
      (c.os.pcbs p).flags
      n) where
  abbrev ready_state : Os
  ready_state = entering pf c p func param user stack s1 m m1 m2

  abbrev final : Computer W
  final = started pf c p func param user stack s1 m m1 m2

  -- The process as it was, off its queue and marked.
  abbrev taken : Pcb
  taken = record (c.os.pcbs p) {
    link = (s1.pcbs p).link;
    flags = with_status (c.os.pcbs p).flags status_runnable;
  }
