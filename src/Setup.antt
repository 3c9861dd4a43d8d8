-- ===== src/Setup.antt =====
-- What the programs of apps/q2 to apps/q5 do before and behind their loops: calls that may end the
-- program, over its memory and the rest of the system.
mod Tests
mod Sample
pub mod Makeprocs
pub mod Created
pub mod Pairs
pub mod Krypton
pub mod Listed
pub mod Simulated
pub mod Texts
pub mod Children
use ece695os_lab.Prelude.{
  ℕ, ◌+◌, ◌≡◌, ap, Bool, true, not, if◌then◌else◌, none, some, List, [], ◌∷◌, ◌++◌, ◌==◌, update,
}
use ece695os_lab.Misc.{Bytes}
use ece695os_lab.Misc.Numbers.{ditoa, dstrtol}
use ece695os_lab.Synch.{sync_success}

-- The traps as the library of the user programs gives them: the result of each, and what it makes
-- of the rest of the system. `process_create` is given the places of its texts before the NULL.
pub record Traps (W : Type 0) : Type 0 where
  pub shmget : W → ℕ × W
  pub shmat : ℕ → W → ℕ × W
  pub sem_create : ℕ → W → ℕ × W
  pub lock_create : W → ℕ × W
  pub cond_create : ℕ → W → ℕ × W
  pub sem_wait : ℕ → W → ℕ × W
  pub sem_signal : ℕ → W → ℕ × W
  pub process_create : List ℕ → Bytes → W → W

-- A call of `process_create`: the places of its texts, and the memory at that time.
pub record Call : Type 0 where
  pub args : List ℕ
  pub memory : Bytes

-- The memory of the program, the rest of the system, and the processes created so far.
pub record Session (W : Type 0) : Type 0 where
  pub memory : Bytes
  pub world : W
  pub created : List Call

-- A call returns, ends the program by `Exit`, or its loops run out of fuel.
pub data Ends (A : Type 0) : Type 0 where
  returned : A → Ends A
  exited : Ends A
  stuck : Ends A

abbrev pub User : Type 0 → Type 0 → Type 0
User W A = Session W → Ends A × Session W

module _ {W A B : Type 0} where
  infixl 5 ◌>>=◌ ◌>>◌
  abbrev pub ◌>>=◌ : User W A → (A → User W B) → User W B
  ◌>>=◌ m f c =
      let (r, d) = m c in elim r [ returned a ↦ f a d | exited ↦ (exited, d) | stuck ↦ (stuck, d) ]

  abbrev pub ◌>>◌ : User W A → User W B → User W B
  m >> k = m >>= λ _. k

-- A call that returns goes on with what is behind it.
pub >>=-returned :
    {W A B : Type 0} (m : User W A) (f : A → User W B) (c : Session W) {a : A} {d : Session W}
    → m c ≡ (returned a, d)
    → (m >>= f) c ≡ f a d
>>=-returned m f c e =
    ap
      (λ x.
        let (r, d) = x in elim r [ returned a ↦ f a d | exited ↦ (exited, d) | stuck ↦ (stuck, d) ])
      e

-- `Exit ()` under a test.
abbrev pub exit_if : {W : Type 0} → Bool → User W (Unit {0})
exit_if b c = (if b then exited else returned tt, c)

abbrev pub edit : {W : Type 0} → (Bytes → Bytes) → User W (Unit {0})
edit f c = (returned tt, record c { memory = f c.memory })

abbrev pub trap : {W A : Type 0} → (W → A × W) → User W A
trap f c = let (a, w) = f c.world in (returned a, record c { world = w })

-- An `int` that is 0.
abbrev pub zero_word : ℕ → Bytes → Bytes
zero_word a m = update (update (update (update m a 0) (a + 1) 0) (a + 2) 0) (a + 3) 0

module _ {W : Type 0} (tr : Traps W) (fuel : ℕ) where
  -- `dstrtol (a, NULL, 10)`
  unfoldable pub number : ℕ → User W ℕ
  number a c = elim (dstrtol fuel a 10 c.memory) [
    | none ↦ (stuck, c)
    | some (n, e) ↦ (returned n, c)
  ]

  -- `ditoa (n, a)`
  unfoldable pub print_number : ℕ → ℕ → User W (Unit {0})
  print_number n a c = elim (ditoa fuel n a c.memory) [
    | none ↦ (stuck, c)
    | some t ↦ (returned tt, record c { memory = t })
  ]

  -- `process_create (args, NULL)`
  abbrev pub process_create : List ℕ → User W (Unit {0})
  process_create args c = (
    returned tt,
    record {
      memory = c.memory;
      world = tr.process_create args c.memory c.world;
      created = c.created ++ (record { args = args; memory = c.memory } ∷ []);
    },
  )

  -- The end of every program that creates others, and of every other program.
  unfoldable pub wait_for_all : ℕ → User W (Unit {0})
  wait_for_all s = do r ← trap (tr.sem_wait s); exit_if (not (r == sync_success)); exit_if true

  pub signal_done : ℕ → User W (Unit {0})
  signal_done s = do r ← trap (tr.sem_signal s); exit_if (not (r == sync_success))
