-- ===== src/Fork/Arguments.antt =====
-- The list of arguments that `ProcessFork` builds in `dum`.
use ece695os_lab.Prelude.{
  ℕ, zero, suc, ◌+◌, ◌-◌, ◌*◌, ◌<◌, ◌≤◌, ◌≡◌, inl, inr, some, ◌==◌, refl, arith, Bool-cases, ◌⊎◌,
  ap, ◌∙◌,
}
use ece695os_lab.Queue.{null}
use ece695os_lab.Misc.{Bytes}
use ece695os_lab.Arguments.{get_argument, get_argument-later}
use ece695os_lab.Fork.{Computer, Platform, list_arguments, bytes_of, put_bytes, argument_at}

-- `MAX_ARGS`
abbrev pub max_args : ℕ
max_args = 128

-- The machine and its memory: a word is four bytes, and the memory is what was put there.
pub record HasWords {W : Type 0} (pf : Platform W) : Type 0 where
  pub word : (a v : ℕ) (m : Bytes) (b : ℕ) → (b < a) ⊎ (a + 4 ≤ b) → pf.set_word a v m b ≡ m b
  pub memory : (m : Bytes) (w : W) → pf.layout.host.memory (pf.layout.set_memory m w) ≡ m

module _ {W : Type 0} (pf : Platform W) (words : HasWords pf) where
  -- The loop from the word `count` on has ended at the word `k`: no other byte has changed.
  pub record Ended (count k : ℕ) (c d : Computer W) : Type 0 where
    pub run_on : count ≤ k
    pub within : k ≤ count + (100 - c.reader.location)
    pub kept :
        (a : ℕ)
        → (a < pf.dum + 4 * count) ⊎ (pf.dum + 4 * (k + 1) ≤ a)
        → bytes_of pf d a ≡ bytes_of pf c a

  abbrev written : ℕ → Computer W → Computer W
  written count c =
      let r = get_argument null (bytes_of pf c) c.reader in
      put_bytes pf (pf.set_word (pf.dum + 4 * count) (argument_at pf r.0) (bytes_of pf c))
        (record c { reader = r.1 })

  written-kept :
      (count : ℕ) (c : Computer W) (a : ℕ)
      → (a < pf.dum + 4 * count) ⊎ (pf.dum + 4 * (count + 1) ≤ a)
      → bytes_of pf (written count c) a ≡ bytes_of pf c a
  written-kept count c a out =
      let r = get_argument null (bytes_of pf c) c.reader in
      let m = pf.set_word (pf.dum + 4 * count) (argument_at pf r.0) (bytes_of pf c) in
      let far : (a < pf.dum + 4 * count) ⊎ (pf.dum + 4 * count + 4 ≤ a) = ground arith in
      ap (λ (f : Bytes). f a) (words.memory m c.files.world)
      ∙ words.word (pf.dum + 4 * count) (argument_at pf r.0) (bytes_of pf c) a far

  list_arguments-Ended :
      (fuel count : ℕ) (c : Computer W)
      → 100 - c.reader.location < fuel
      → (k : ℕ) × (d : Computer W) × (list_arguments pf fuel count c ≡ some (k, d))
        × Ended count k c d
  unfolding list_arguments
  list_arguments-Ended zero count c enough = absurd (omega arith)
  list_arguments-Ended (suc fuel) count c enough =
      let r = get_argument null (bytes_of pf c) c.reader in
      let d = written count c in
      elim (Bool-cases (r.0 == 0)) [
        | inl e ↦ (
          count,
          d,
          rw e refl,
          record {
            run_on = omega arith;
            within = omega arith;
            kept = λ a out. written-kept count c a out;
          },
        )
        | inr e ↦
            let (moved, start) : (c.reader.location < r.1.location) × (c.reader.location < 99) =
              ground (arith, get_argument-later (bytes_of pf c) c.reader) in
            let (k, t, run, end) = list_arguments-Ended fuel (count + 1) d (omega arith) in
            let low = end.run_on in
            let high = end.within in
            (
              k,
              t,
              rw e run,
              record {
                run_on = omega arith;
                within = omega arith;
                kept = λ a out.
                    end.kept a (elim out [ inl h ↦ inl (omega (arith, h)) | inr h ↦ inr h ])
                    ∙ written-kept count c a
                        (elim out [ inl h ↦ inl h | inr h ↦ inr (omega (arith, h)) ]);
              },
            )
      ]

  -- The loop over the arguments of a user process ends, whatever the block holds that it reads and
  -- wherever the reading starts, with 101 rounds; and when a word is four bytes, no byte before the
  -- fourth word of `dum` and none behind its end has changed, which has MAX_ARGS + 8 words.
  pub list_arguments-fits :
      (c : Computer W)
      → (k : ℕ) × (d : Computer W) × (list_arguments pf 101 3 c ≡ some (k, d))
        × (3 ≤ k)
        × (k < max_args + 8)
        × ((a : ℕ)
            → (a < pf.dum + 4 * 3) ⊎ (pf.dum + 4 * (max_args + 8) ≤ a)
            → bytes_of pf d a ≡ bytes_of pf c a)
  list_arguments-fits c =
      let (k, d, run, end) = list_arguments-Ended 101 3 c (omega arith) in
      let low = end.run_on in
      let high = end.within in
      (
        k,
        d,
        run,
        low,
        omega arith,
        λ a out. end.kept a (elim out [ inl h ↦ inl h | inr h ↦ inr (omega (arith, h)) ]),
      )
