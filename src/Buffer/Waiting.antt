-- ===== src/Buffer/Waiting.antt =====
-- Who waits for the buffer of apps/q2 and apps/q4, and whether the wait ends.
use ece695os_lab.Prelude.{ℕ, ◌≡◌, ◌≢◌, ◌⊎◌, true, false, refl, arith, ◌∙◌, Bool-cases, inl, inr}
use ece695os_lab.Buffer.{
  is_full, is_empty, Actor, producer, consumer, nothing, Busy, busy_produce, busy_consume,
  busy_step, Cond, waiting, cond_produce, cond_consume, cond_step, cond_runs,
}

-- Steps of the programs of q4, from one state to another.
pub data CondRun (s : Cond) : Cond → Type 0 where
  here : CondRun s s
  next : {t : Cond} (a : Actor) → CondRun s t → cond_runs a t ≡ true → CondRun s (cond_step a t).1

module _ (i : ℕ) where
  cond_produce-consumer :
      (j : ℕ) (s : Cond)
      → ((cond_produce j s).1.consumers i ≡ s.consumers i)
        × ((cond_produce j s).1.taken i ≡ s.taken i)
  unfolding cond_produce
  cond_produce-consumer j s = ground arith

  cond_consume-consumer :
      (j : ℕ) (s : Cond)
      → s.consumers i ≡ waiting
      → ((cond_consume j s).1.consumers i ≡ waiting) × ((cond_consume j s).1.taken i ≡ s.taken i)
  unfolding cond_consume
  cond_consume-consumer j s w = ground arith

  cond_step-consumer :
      (a : Actor) (s : Cond)
      → s.consumers i ≡ waiting
      → ((cond_step a s).1.consumers i ≡ waiting) × ((cond_step a s).1.taken i ≡ s.taken i)
  cond_step-consumer (producer j) s w = ground (arith, cond_produce-consumer j s)
  cond_step-consumer (consumer j) s w = cond_consume-consumer j s w

  -- A consumer of q4 that waits for an item is never woken up, whatever the others do: it still
  -- waits in every later state, has removed nothing more, and has no step to make.
  pub CondRun-waits :
      {s t : Cond}
      → CondRun s t
      → s.consumers i ≡ waiting
      → (t.consumers i ≡ waiting) × (t.taken i ≡ s.taken i) × (cond_runs (consumer i) t ≡ false)
  CondRun-waits {s} here w = (w, refl, ground arith)
  CondRun-waits (next {t} a r m) w =
      let (w', same, stopped) = CondRun-waits r w in
      let (w'', same') = cond_step-consumer a t w' in (w'', same' ∙ same, ground arith)

-- A producer and a consumer of q2 are never both held up: in any state of the buffer, one of them
-- inserts or removes an item in its next round.
pub busy_step-progress :
    (i j : ℕ) (s : Busy)
    → ((busy_step (producer i) s).0 ≢ nothing) ⊎ ((busy_step (consumer j) s).0 ≢ nothing)
unfolding busy_produce busy_consume
busy_step-progress i j s = elim (Bool-cases (is_full s.ring)) [
  | inl e ↦ let f : is_empty s.ring ≡ false = ground arith in inr (rw f (λ same. cc same))
  | inr e ↦ inl (rw e (λ same. cc same))
]
