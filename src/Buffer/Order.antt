-- ===== src/Buffer/Order.antt =====
-- The order of what the programs of apps/q2 and apps/q4 insert and remove.
use ece695os_lab.Prelude.{
  ℕ, ◌+◌, ◌≡◌, true, List, [], ◌++◌, update, refl, arith, Bool-cases, ◌⊎◌, inl, inr,
}
use ece695os_lab.Buffer.{
  is_full, is_empty, remove, empty_ring, Actor, producer, consumer, Busy, busy_produce,
  busy_consume, busy_step, busy_runs, Cond, Phase, ready, waiting, resumed, cond_produce,
  cond_consume, cond_step, cond_runs, signal_empty,
}
use ece695os_lab.Buffer.Fifo.{Fifo, Feeds, nothing-Feeds, put-Feeds, got-Feeds, empty-Fifo}

busy_step-Feeds : (a : Actor) (s : Busy) → Feeds (busy_step a s).0 s.ring (busy_step a s).1.ring
unfolding busy_produce busy_consume
busy_step-Feeds (producer i) s = elim (Bool-cases (is_full s.ring)) [
  | inl e ↦ rw e (nothing-Feeds s.ring)
  | inr e ↦ rw e (put-Feeds (48 + s.made i) s.ring)
]
busy_step-Feeds (consumer i) s = elim (Bool-cases (is_empty s.ring)) [
  | inl e ↦ rw e (nothing-Feeds s.ring)
  | inr e ↦ rw e (got-Feeds s.ring e)
]

signal_empty-ring : (s : Cond) → (signal_empty s).ring ≡ s.ring
signal_empty-ring s = ground arith

Phase-cases : (p : Phase) → (p ≡ ready) ⊎ ((p ≡ waiting) ⊎ (p ≡ resumed))
Phase-cases ready = inl refl
Phase-cases waiting = inr (inl refl)
Phase-cases resumed = inr (inr refl)

cond_produce-Feeds :
    (i : ℕ) (s : Cond) → Feeds (cond_produce i s).0 s.ring (cond_produce i s).1.ring
unfolding cond_produce
cond_produce-Feeds i s = elim (Phase-cases (s.producers i)) [
  | inl p ↦ elim (Bool-cases (is_full s.ring)) [
    | inl e ↦ rw (p, e, cond_produce) (nothing-Feeds s.ring)
    | inr e ↦ rw (p, e, cond_produce) (put-Feeds (48 + s.made i) s.ring)
  ]
  | inr (inl p) ↦ rw (p, cond_produce) (nothing-Feeds s.ring)
  | inr (inr p) ↦ rw (p, cond_produce) (put-Feeds (48 + s.made i) s.ring)
]

-- The state behind a removal, before the signal.
abbrev removed_from : ℕ → Cond → Cond
removed_from i s = record s {
  ring = (remove s.ring).1;
  taken = update s.taken i (s.taken i + 1);
  consumers = update s.consumers i ready;
}

-- No consumer is ever woken up.
abbrev pub Unwoken : Cond → Type 0
Unwoken s = (i : ℕ) → (s.consumers i ≡ ready) ⊎ (s.consumers i ≡ waiting)

cond_consume-Feeds :
    (i : ℕ) (s : Cond) → Unwoken s → Feeds (cond_consume i s).0 s.ring (cond_consume i s).1.ring
unfolding cond_consume
cond_consume-Feeds i s u = elim (u i) [
  | inl p ↦ elim (Bool-cases (is_empty s.ring)) [
    | inl e ↦ rw (p, e, cond_consume) (nothing-Feeds s.ring)
    | inr e ↦
        rw (p, e, cond_consume) (rw (signal_empty-ring (removed_from i s)) (got-Feeds s.ring e))
  ]
  | inr p ↦ rw (p, cond_consume) (nothing-Feeds s.ring)
]

signal_empty-consumers : (s : Cond) → (signal_empty s).consumers ≡ s.consumers
signal_empty-consumers s = ground arith

cond_produce-Unwoken : (i : ℕ) (s : Cond) → Unwoken s → Unwoken (cond_produce i s).1
unfolding cond_produce
cond_produce-Unwoken i s u j = ground (arith, u j)

cond_consume-Unwoken : (i : ℕ) (s : Cond) → Unwoken s → Unwoken (cond_consume i s).1
unfolding cond_consume
cond_consume-Unwoken i s u j = ground (arith, u i, u j)

-- The programs of q2 run in any order; `xs` is what they have inserted, and `ys` what they have
-- removed.
pub data BusyReach (chars : ℕ → ℕ) : List ℕ → List ℕ → Busy → Type 0 where
  begin : BusyReach chars [] [] (record { ring = empty_ring chars; made = λ i. 0; taken = λ i. 0 })
  move :
      {xs ys : List ℕ} {s : Busy} (a : Actor)
      → BusyReach chars xs ys s
      → busy_runs a s ≡ true
      → BusyReach chars
          (xs ++ (busy_step a s).0.inserted)
          (ys ++ (busy_step a s).0.removed)
          (busy_step a s).1

pub data CondReach (chars : ℕ → ℕ) : List ℕ → List ℕ → Cond → Type 0 where
  begin : CondReach chars [] [] (record {
    ring = empty_ring chars;
    made = λ i. 0;
    taken = λ i. 0;
    producers = λ i. ready;
    consumers = λ i. ready;
    waiters = [];
  })
  move :
      {xs ys : List ℕ} {s : Cond} (a : Actor)
      → CondReach chars xs ys s
      → cond_runs a s ≡ true
      → CondReach chars
          (xs ++ (cond_step a s).0.inserted)
          (ys ++ (cond_step a s).0.removed)
          (cond_step a s).1

-- In every state that the programs of q2 reach, however many they are and in whatever order they
-- run, what was inserted is what was removed with what is in the buffer behind it; and the index of
-- each insertion is the number of those before, with no end at 64.
pub BusyReach-Fifo :
    {chars : ℕ → ℕ} {xs ys : List ℕ} {s : Busy} → BusyReach chars xs ys s → Fifo xs ys s.ring
BusyReach-Fifo {chars} begin = empty-Fifo chars
BusyReach-Fifo (move {xs} {ys} {s} a r m) = busy_step-Feeds a s xs ys (BusyReach-Fifo r)

pub CondReach-Unwoken :
    {chars : ℕ → ℕ} {xs ys : List ℕ} {s : Cond} → CondReach chars xs ys s → Unwoken s
CondReach-Unwoken begin = λ i. inl refl
CondReach-Unwoken (move {s = s} (producer i) r m) = cond_produce-Unwoken i s (CondReach-Unwoken r)
CondReach-Unwoken (move {s = s} (consumer i) r m) = cond_consume-Unwoken i s (CondReach-Unwoken r)

-- In every state that the programs of q4 reach, however many they are and in whatever order they
-- run, what was inserted is what was removed with what is in the buffer behind it; and the index of
-- each insertion is the number of those before, with no end at 64.
pub CondReach-Fifo :
    {chars : ℕ → ℕ} {xs ys : List ℕ} {s : Cond} → CondReach chars xs ys s → Fifo xs ys s.ring
CondReach-Fifo {chars} begin = empty-Fifo chars
CondReach-Fifo (move {xs} {ys} {s} (producer i) r m) =
    cond_produce-Feeds i s xs ys (CondReach-Fifo r)
CondReach-Fifo (move {xs} {ys} {s} (consumer i) r m) =
    cond_consume-Feeds i s (CondReach-Unwoken r) xs ys (CondReach-Fifo r)
