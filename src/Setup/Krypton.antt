-- ===== src/Setup/Krypton.antt =====
-- The program krypton of apps/q5: the statistics, the handles, the estimate and the six programs.
use ece695os_lab.Prelude.{
  ℕ, ◌+◌, ◌-◌, ◌/◌, ◌%◌, ◌^◌, not, none, some, List, [], ◌∷◌, map, ◌==◌, if◌then◌else◌,
}
use ece695os_lab.Kernel.{is_negative}
use ece695os_lab.Misc.{Bytes}
use ece695os_lab.Synch.{sync_fail}
use ece695os_lab.Reaction.{Guess, guess}
use ece695os_lab.Setup.{
  Traps, returned, stuck, User, ◌>>=◌, ◌>>◌, exit_if, edit, trap, zero_word, number, print_number,
  process_create, wait_for_all,
}

-- The places of `argv[1]` to `argv[3]`, of the names of the six programs, and of the twelve local
-- arrays, in the order in which they are written.
pub record Places : Type 0 where
  pub argv : ℕ → ℕ
  pub names : ℕ → ℕ
  pub strs : ℕ → ℕ

-- `a/2` of an `int`
abbrev pub half : ℕ → ℕ
half a = if is_negative a then (2 ^ 32 - (2 ^ 32 - a) / 2) % 2 ^ 32 else a / 2

abbrev pub first_guess : ℕ → ℕ → Guess
first_guess n o = record { n2 = half n; o2 = half o; no2 = 0; o3 = 0 }

-- `atmosphere_stat` has six `int`s.
abbrev pub clear_stat : ℕ → Bytes → Bytes
clear_stat stat m = zero_word (stat + 20) (
    zero_word (stat + 16)
      (zero_word (stat + 12) (zero_word (stat + 8) (zero_word (stat + 4) (zero_word stat m)))))

-- What the traps and the arguments give.
pub record Inputs : Type 0 where
  pub num_n : ℕ
  pub num_o : ℕ
  pub temperature : ℕ
  pub h_mem : ℕ
  pub s_procs_completed : ℕ
  pub stat_lock : ℕ
  pub n2_ready : ℕ
  pub o2_ready : ℕ
  pub no2_ready : ℕ
  pub o3_ready : ℕ

-- The numbers that are written, in order.
abbrev pub printed : Inputs → Guess → List ℕ
printed x g =
    x.h_mem ∷ x.s_procs_completed ∷ x.stat_lock ∷ x.n2_ready ∷ x.o2_ready ∷ x.no2_ready ∷ x.o3_ready
    ∷ x.num_n ∷ x.num_o ∷ g.no2 ∷ g.o3 ∷ x.temperature ∷ []

module _ {W : Type 0} (traps : Traps W) (fuel : ℕ) (at : Places) where
  -- A handle, unless it is the one of a failure.
  handle : ℕ → (W → ℕ × W) → User W ℕ
  handle bad f = do h ← trap f; exit_if (h == bad); λ c. (returned h, c)

  -- The arguments, the page, the semaphore, the lock and the condition variables.
  unfoldable pub prepare : ℕ → User W Inputs
  unfolding handle
  prepare argc = do
    exit_if (not (argc == 4))
    num_n_i ← number traps fuel (at.argv 1)
    num_o_i ← number traps fuel (at.argv 2)
    temperature_i ← number traps fuel (at.argv 3)
    h ← handle 0 traps.shmget
    stat ← handle 0 (traps.shmat h)
    edit (clear_stat stat)
    s ← handle sync_fail (traps.sem_create (2 ^ 32 - 5))
    l ← handle sync_fail traps.lock_create
    c_n2 ← handle sync_fail (traps.cond_create l)
    c_o2 ← handle sync_fail (traps.cond_create l)
    c_no2 ← handle sync_fail (traps.cond_create l)
    c_o3 ← handle sync_fail (traps.cond_create l)
    λ c. (
      returned (record {
        num_n = num_n_i;
        num_o = num_o_i;
        temperature = temperature_i;
        h_mem = h;
        s_procs_completed = s;
        stat_lock = l;
        n2_ready = c_n2;
        o2_ready = c_o2;
        no2_ready = c_no2;
        o3_ready = c_o3;
      }),
      c,
    )

  -- The loop that determines the numbers of reactions.
  unfoldable pub estimate : ℕ → Inputs → User W Guess
  estimate rounds x c = elim (guess rounds x.temperature (first_guess x.num_n x.num_o)) [
    | none ↦ (stuck, c)
    | some g ↦ (returned g, c)
  ]

  -- `ditoa` of the numbers to the arrays from the one at `i` on.
  unfoldable pub print_all : List ℕ → ℕ → User W (Unit {0})
  print_all [] i c = (returned tt, c)
  print_all (v ∷ vs) i c = (do print_number traps fuel v (at.strs i); print_all vs (i + 1)) c

  -- `process_create` of the program `k` with some of the arrays.
  abbrev pub create : ℕ → List ℕ → User W (Unit {0})
  create k ks = process_create traps fuel (at.names k ∷ map at.strs ks)

  -- `rounds` is the fuel of the estimate.
  unfoldable pub krypton : ℕ → ℕ → User W (Unit {0})
  unfolding prepare estimate print_all wait_for_all
  krypton rounds argc = do
    x ← prepare argc
    g ← estimate rounds x
    print_all (printed x g) 0
    create 0 (0 ∷ 1 ∷ 2 ∷ 3 ∷ 7 ∷ [])
    create 1 (0 ∷ 1 ∷ 2 ∷ 4 ∷ 8 ∷ [])
    create 2 (0 ∷ 1 ∷ 2 ∷ 3 ∷ 5 ∷ 7 ∷ [])
    create 3 (0 ∷ 1 ∷ 2 ∷ 4 ∷ 5 ∷ 6 ∷ 8 ∷ [])
    create 4 (0 ∷ 1 ∷ 2 ∷ 5 ∷ 9 ∷ 11 ∷ [])
    create 5 (0 ∷ 1 ∷ 2 ∷ 6 ∷ 10 ∷ 11 ∷ [])
    wait_for_all traps fuel x.s_procs_completed
