-- ===== src/Process.antt =====
-- The process queues of os/process.c: states, sleep and wakeup, exit, the scheduler.
pub mod Holds
pub mod Transfer
pub mod Moves
pub mod Enter
pub mod Schedule
pub mod Stocked
pub mod Init
mod Tests
use Prim.Native.Nat.{bit_and, bit_or, bit_xor}
use ece695os_lab.Prelude.{
  ℕ, zero, suc, ◌+◌, ◌-◌, ◌*◌, ◌/◌, ◌%◌, ◌^◌, Option, none, some, Bool, true, false, ◌==◌, ltb, leb,
  if◌then◌else◌, update,
}
use ece695os_lab.Queue
use ece695os_lab.Queue.{Ptr, null, Status, fail, success, Store}
use ece695os_lab.Memory
use ece695os_lab.Kernel.{
  Pcb, Os, Act, ◌⨾◌, set_pcb, free_pcbs, run_queue, wait_queue, zombie_queue, pid_of,
}

abbrev pub max_procs : ℕ
max_procs = 32

abbrev pub status_free : ℕ
status_free = 0x1

abbrev pub status_runnable : ℕ
status_runnable = 0x2

abbrev pub status_waiting : ℕ
status_waiting = 0x4

abbrev pub status_zombie : ℕ
status_zombie = 0x10

abbrev pub status_mask : ℕ
status_mask = 0x3f

-- `DLX_PROCESS_QUANTUM`
abbrev pub process_quantum : ℕ
process_quantum = 10000

-- The flags with a new status.
abbrev pub with_status : ℕ → ℕ → ℕ
with_status flags status = bit_or (bit_and flags (bit_xor status_mask 0xffffffff)) status

unfoldable pub set_status : Ptr → ℕ → Os → Os
set_status p status s =
    let v = s.pcbs p in set_pcb p (record v { flags = with_status v.flags status }) s

-- The link variable whose address a removal was given.
abbrev slot_or_null : Option Ptr → Ptr
slot_or_null none = null
slot_or_null (some l) = l

-- `if (AQueueRemove(&(pcb->l)) != QUEUE_SUCCESS) exitsim();`
pub remove_link : Ptr → Act
remove_link p s =
    let (st, slot, t) = Queue.remove (some (s.pcbs p).link) s.store in
    elim st [
      | fail ↦ none
      | success ↦
          some (set_pcb p (record (s.pcbs p) { link = slot_or_null slot }) (record s { store = t }))
    ]

-- `if ((pcb->l = AQueueAllocLink(pcb)) == NULL) exitsim();`
pub alloc_link : Ptr → Act
alloc_link p s =
    let (l, t) = Queue.alloc_link p s.store in
    if l == null
    then none
    else some (set_pcb p (record (s.pcbs p) { link = l }) (record s { store = t }))

-- `if (AQueueInsertLast(&queue, pcb->l) != QUEUE_SUCCESS) exitsim();`
pub insert_last : Ptr → Ptr → Act
insert_last q p s =
    let (st, t) = Queue.insert_last q (s.pcbs p).link s.store in
    elim st [ fail ↦ none | success ↦ some (record s { store = t }) ]

pub insert_first : Ptr → Ptr → Act
insert_first q p s =
    let (st, t) = Queue.insert_first q (s.pcbs p).link s.store in
    elim st [ fail ↦ none | success ↦ some (record s { store = t }) ]

-- The assertions on the old status only print.
pub suspend : Ptr → Act
suspend p s =
    (remove_link p ⨾ alloc_link p ⨾ insert_last wait_queue p) (set_status p status_waiting s)

pub wakeup : Ptr → Act
wakeup p s =
    (remove_link p ⨾ alloc_link p ⨾ insert_last run_queue p) (set_status p status_runnable s)

pub destroy : Ptr → Act
destroy p s =
    (remove_link p ⨾ alloc_link p ⨾ insert_first zombie_queue p) (set_status p status_zombie s)

-- One round of the loop of `ProcessModuleInit`.
init_pcb : Ptr → Act
init_pcb p =
    alloc_link p
    ⨾ (λ s. some (set_pcb p (record (s.pcbs p) { flags = status_free }) s))
    ⨾ insert_first free_pcbs p

pub init_pcbs : ℕ → ℕ → Act
init_pcbs zero i s = some s
init_pcbs (suc k) i s = elim (init_pcb (suc i) s) [ none ↦ none | some t ↦ init_pcbs k (suc i) t ]

abbrev pub init_queue : Ptr → Os → Os
init_queue q s = record s { store = (Queue.init q s.store).1 }

pub module_init : Act
unfolding init_pcbs
module_init s = (init_pcbs max_procs 0 ⨾ λ t. some (record t { current = null })) (
    init_queue zombie_queue (init_queue wait_queue (init_queue run_queue (init_queue free_pcbs s))))

pub set_result : Ptr → ℕ → Os → Os
set_result p result s =
    let v = s.pcbs p in set_pcb p (record v { saved_frame = update v.saved_frame 11 result }) s

unfoldable pub get_current_pid : Os → ℕ
get_current_pid s = pid_of s.current

-- `MemoryFreeSharedPte` is in lib/share_memory.o: an argument, for a process and a page number.
module _ (free_shared_pte : Ptr → ℕ → Os → Os) where
  free_shared : ℕ → ℕ → Ptr → Os → Os
  free_shared zero i p s = s
  free_shared (suc k) i p s = free_shared k (suc i) p (free_shared_pte p i s)

  -- The loop reads `npages` in each round; the memory module leaves the process alone.
  free_ptes : ℕ → ℕ → Ptr → Os → Os
  free_ptes zero i p s = s
  free_ptes (suc k) i p s =
      free_ptes k (suc i) p
        (record s { memory = Memory.free_pte ((s.pcbs p).pagetable i) s.memory })

  free_memory : Ptr → Os → Os
  unfolding free_shared free_ptes
  free_memory p s =
      let s1 = free_shared (s.pcbs p).npages 0 p s in
      let s2 = free_ptes (s1.pcbs p).npages 0 p s1 in
      record s2 {
        memory = Memory.free_page ((s2.pcbs p).sys_stack_area / Memory.page_size) s2.memory;
      }

  pub free_resources : Ptr → Act
  free_resources p =
      alloc_link p
      ⨾ (λ s. some (set_pcb p (record (s.pcbs p) { flags = status_free }) s))
      ⨾ insert_last free_pcbs p
      ⨾ (λ s. some (set_status p status_free (free_memory p s)))

  -- The zombies go one by one; `none` is also the end of the fuel.
  bury : ℕ → Act
  bury zero s = none
  bury (suc fuel) s =
      let p = Queue.object s.store (Queue.first s.store zombie_queue) in
      let rest = (remove_link p ⨾ free_resources p ⨾ bury fuel) s in
      if Queue.is_empty s.store zombie_queue then some s else rest

  -- The queue holds at most the links of the pool, so one round more is enough.
  pub schedule : Bool → Act
  schedule suspended s =
      if Queue.is_empty s.store run_queue
      then none
      else let moved =
          Queue.move_after run_queue (Queue.last s.store run_queue) (Queue.first s.store run_queue)
            s.store in
        let s1 = if suspended then s else record s { store = moved.1 } in
        let s2 = record s1 { current = Queue.object s1.store (Queue.first s1.store run_queue) } in
        (bury (suc Queue.queue_max_links) ⨾ λ t. some (record t { timer = process_quantum })) s2
