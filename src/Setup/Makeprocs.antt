-- ===== src/Setup/Makeprocs.antt =====
-- The programs makeprocs of apps/q2, apps/q3 and apps/q4: the shared page, the handles, and the
-- pairs of producers and consumers.
use ece695os_lab.Prelude.{
  ℕ, zero, suc, ◌+◌, ◌-◌, ◌*◌, ◌%◌, ◌^◌, not, List, [], ◌∷◌, ◌==◌, if◌then◌else◌,
}
use ece695os_lab.Kernel.{is_negative}
use ece695os_lab.Synch.{sync_fail}
use ece695os_lab.Buffer.{buffer_size}
use ece695os_lab.Setup.{
  Traps, returned, User, ◌>>=◌, ◌>>◌, exit_if, edit, trap, zero_word, number, print_number,
  process_create, wait_for_all,
}

-- The places of `argv[1]`, of the names of the two programs and of the local arrays.
pub record Places : Type 0 where
  pub argument : ℕ
  pub producer : ℕ
  pub consumer : ℕ
  pub h_mem_str : ℕ
  pub s_procs_completed_str : ℕ
  pub buf_lock_str : ℕ
  pub fullslots_str : ℕ
  pub emptyslots_str : ℕ

-- `-(n*2-1)` as an `int`.
abbrev pub completed_count : ℕ → ℕ
completed_count n = (2 ^ 32 + 1 - n * 2 % 2 ^ 32) % 2 ^ 32

-- The rounds of `for(i=0; i<n; i++)`.
abbrev pub rounds : ℕ → ℕ
rounds n = if is_negative n then 0 else n

module _ {W : Type 0} (tr : Traps W) (fuel : ℕ) (at : Places) where
  -- The loop over the pairs, with the rounds that are left.
  unfoldable pub create_pairs : ℕ → List ℕ → User W (Unit {0})
  create_pairs zero strs c = (returned tt, c)
  create_pairs (suc k) strs c =
      (do
        process_create tr fuel (at.producer ∷ strs)
        process_create tr fuel (at.consumer ∷ strs)
        create_pairs k strs)
        c

  -- The argument, the page with an empty buffer, the semaphore and the lock, up to the point where
  -- the programs differ: the number of pairs, and the handles of the page, of the semaphore and of
  -- the lock.
  unfoldable pub prepare : ℕ → User W (ℕ × ℕ × ℕ × ℕ)
  prepare argc = do
    exit_if (not (argc == 2))
    numprocs ← number tr fuel at.argument
    h_mem ← trap tr.shmget
    exit_if (h_mem == 0)
    buf ← trap (tr.shmat h_mem)
    exit_if (buf == 0)
    edit (zero_word buf)
    edit (zero_word (buf + 4))
    s_procs_completed ← trap (tr.sem_create (completed_count numprocs))
    exit_if (s_procs_completed == sync_fail)
    buf_lock ← trap tr.lock_create
    exit_if (buf_lock == sync_fail)
    λ c. (returned (numprocs, h_mem, s_procs_completed, buf_lock), c)

  -- `ditoa` of the handles that all programs have.
  unfoldable pub print_handles : ℕ → ℕ → ℕ → User W (Unit {0})
  print_handles h_mem s_procs_completed buf_lock = do
    print_number tr fuel h_mem at.h_mem_str
    print_number tr fuel s_procs_completed at.s_procs_completed_str
    print_number tr fuel buf_lock at.buf_lock_str

  -- makeprocs of apps/q2.
  unfoldable pub busy_makeprocs : ℕ → User W (Unit {0})
  unfolding prepare print_handles create_pairs wait_for_all
  busy_makeprocs argc = do
    x ← prepare argc
    print_handles x.1 x.2 x.3
    create_pairs (rounds x.0) (at.h_mem_str ∷ at.s_procs_completed_str ∷ at.buf_lock_str ∷ [])
    wait_for_all tr fuel x.2

  -- makeprocs of apps/q3 and apps/q4, which differ in what the two further handles are.
  unfoldable pub paired_makeprocs : (ℕ → W → ℕ × W) → (ℕ → W → ℕ × W) → ℕ → User W (Unit {0})
  unfolding prepare print_handles create_pairs wait_for_all
  paired_makeprocs create_full create_empty argc = do
    x ← prepare argc
    full ← trap (create_full x.3)
    exit_if (full == sync_fail)
    empty ← trap (create_empty x.3)
    exit_if (empty == sync_fail)
    print_handles x.1 x.2 x.3
    print_number tr fuel full at.fullslots_str
    print_number tr fuel empty at.emptyslots_str
    create_pairs (rounds x.0) (
        at.h_mem_str ∷ at.s_procs_completed_str ∷ at.buf_lock_str ∷ at.fullslots_str
        ∷ at.emptyslots_str ∷ [])
    wait_for_all tr fuel x.2

  unfoldable pub slots_makeprocs : ℕ → User W (Unit {0})
  unfolding paired_makeprocs
  slots_makeprocs = paired_makeprocs (λ l. tr.sem_create 0) (λ l. tr.sem_create buffer_size)

  unfoldable pub cond_makeprocs : ℕ → User W (Unit {0})
  unfolding paired_makeprocs
  cond_makeprocs = paired_makeprocs tr.cond_create tr.cond_create
