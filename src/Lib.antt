-- ===== src/Lib.antt =====
-- Verification library of the DLX operating system kernel in os/ and include/os/.
--
-- The kernel keeps its processes, and those that wait for a semaphore, a lock or a condition
-- variable, on doubly linked queues whose links come from one pool. The synchronisation primitives
-- put the current process to sleep and wake others up, which moves them between the queues of the
-- process module; the scheduler rotates the run queue and buries zombies.
--
--   Queue     os/queue.c, include/os/queue.h. A store holds all links and all queue heads; an address
--             is a number, 0 is NULL, and `linkpool[i]` is the address i + 1. One function for each
--             AQueue routine, with the same guards and the same order of writes. The invariant
--             IsQueue says which links a queue holds; Insert, Remove, Move, Pool and Claim say what
--             the operations do to it and to every other queue, and Check tests it.
--   Memory    os/memory.c: the page map, page table entries, address translation; Copy is the copy
--             between address spaces, and its Content says what it copies; Sources and Rounds
--             are about one chunk and one round. Bits and Masks are about the digits of words,
--             Pages, Alloc and Init about the page map as a list of pages, Holders about runs of the
--             allocator.
--   Kernel    The state: the store of the queues, the processes, the tables of os/synch.c, the
--             interrupt level. A routine that does not sleep is a function to an Option, where
--             `none` is the call of `exitsim`.
--   Process   os/process.c: ProcessSuspend, ProcessWakeup, ProcessDestroy, ProcessFreeResources,
--             ProcessSchedule, ProcessModuleInit, ProcessSetStatus, ProcessSetResult, GetCurrentPid.
--             Holds says which processes a queue holds; Transfer and Moves are about the changes of
--             state, Schedule about the scheduler.
--   Task      Routines that may sleep (ProcessSleep of os/dlxos.s, DisableIntrs and RestoreIntrs of
--             include/os/dlxos.h): the outcome is a result, an exit, or a state in which the next
--             process runs, with the rest of the routine as a function of a later state. Waiters and
--             Sleep are the steps that all primitives share.
--   Synch     os/synch.c, include/os/synch.h: Sem, Lock and Cond, each with the functions of the same
--             names (SemWait is Sem.wait, SemHandleWait is Sem.handle_wait). `sems[i]` is the address
--             i + 1, and its queue is the queue head 5 + (i + 1); locks and condition variables are
--             likewise behind them.
--   Misc      os/misc.c over a byte memory: strings, regions, numbers.
--   Files     os/filesys.c: the table of open files. The traps of the simulator are a parameter.
--   Arguments os/process.c: get_argument, the packing of process_create, getxvalue.
--   Traps     os/traps.c: the arguments of a trap and the dispatch of dointerrupt.
--   State     Steps that change a state and may stop the simulation.
--   Program   os/process.c, include/misc.h: the loader of program files, ProcessGetCodeInfo and
--             ProcessGetFromFile; Hex is about its lines of digits.
--   Fork      os/process.c: ProcessFork over the kernel, the files and the memory. Create has
--             process_create and TrapProcessCreateHandler of os/traps.c, Printf TrapPrintfHandler up
--             to its call of printf; System and Start are about a system process, Arguments about the
--             list of arguments of a user process.
--   Boot      os/process.c: main, up to intrreturn, with SysprocCreateProcesses of os/sysproc.c and
--             TimerSet and KbdModuleInit of os/traps.c. The loop over the options has a round for
--             each argument. ShareModuleInit is in lib/share_memory.o: a parameter. Modules and Ready
--             are about the state that is left, with Stocked and Init of Process and Init of Synch.
--   Reaction  apps/q5: the loops of the producers and of the four reactions, and the estimate of
--             krypton. A step of a program is what it does between lock_acquire and lock_release or
--             cond_wait, so that an order of the programs is a list of steps. Estimate is about the
--             loop of krypton, Conserve about what all steps keep, Finish about the end.
--   Buffer    apps/q2 to apps/q4: the loops of the producers and of the consumers as steps over the
--             buffer that they share. Fifo is about the buffer, Order about all runs, Waiting about
--             who waits; Slots are the programs of apps/q3, with semaphores that count.
--   Setup     apps/q2 to apps/q5: what the programs do before and behind their loops, as calls that may
--             end the program, over a byte memory. The traps are a parameter, and the memory at each
--             process_create is kept. Makeprocs are the three programs of that name, Krypton is
--             krypton, Children the starts of the programs that they create; Texts and Listed are
--             about the numbers in the local arrays, Created, Pairs and Simulated about whole runs.
--             Numbers of nine digits are read and written with fuel for eleven rounds.
--   Sample    A small state for the examples in the modules called Tests.
--
-- An `int` or `uint32` is its bit pattern below 2 ^ 32, and arithmetic wraps as written. Addresses do
-- not wrap. Loops whose end depends on the state are on fuel, and `none` is the end of the fuel: a
-- queue holds at most the 400 links of the pool, so that 401 rounds are enough for CondBroadcast and
-- for the burial of zombies; the search of MemoryAllocPage has a round for each word and one more.
--
-- MemoryFreeSharedPte is in the compiled library lib/share_memory.o: it is a parameter of the
-- definitions that free a process. The places of local variables, of texts and of the arrays
-- of a process, and the byte order, are parameters too (Layout and Platform). The strings of the
-- programs and of the loader end, or their loops run out of the fuel that Layout gives to each.
-- Not modelled: the two functions of os/sysproc.c from which no process is created, the assembly, the
-- programs of apps/example, and all output.
pub mod Prelude
pub mod Queue
pub mod Memory
pub mod Kernel
pub mod Misc
pub mod Process
pub mod Task
pub mod Synch
pub mod Sample
pub mod Setup
pub mod Files
pub mod Arguments
pub mod Boot
pub mod Traps
pub mod State
pub mod Program
pub mod Fork
pub mod Buffer
pub mod Reaction
