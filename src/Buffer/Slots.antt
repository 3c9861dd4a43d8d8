-- ===== src/Buffer/Slots.antt =====
-- The programs of apps/q3, which count the items and the free places of the buffer with semaphores.
-- A `sem_wait` on a count of 0 is a step that cannot be made.
pub mod Count
pub mod Safe
pub mod Progress
mod Tests
use ece695os_lab.Prelude.{ℕ, zero, suc, ◌+◌, ◌-◌, Bool, true, false, not, ◌&&◌, ◌==◌, ltb, update}
use ece695os_lab.Buffer.{
  Ring, insert, remove, empty_ring, out_content, item_size, buffer_size, Actor, producer, consumer,
  Output, nothing, put, got,
}

-- Whether a program is at its `sem_wait`, at its `lock_acquire`, or at its `sem_signal`.
pub data Stage : Type 0 where
  before inside behind : Stage

-- `full` and `empty` are the counts of s_fullslots and s_emptyslots.
pub record Slots : Type 0 where
  pub ring : Ring
  pub full : ℕ
  pub empty : ℕ
  pub made : ℕ → ℕ
  pub taken : ℕ → ℕ
  pub producers : ℕ → Stage
  pub consumers : ℕ → Stage

-- What makeprocs sets up.
abbrev pub slots_start : (ℕ → ℕ) → Slots
slots_start chars = record {
  ring = empty_ring chars;
  full = 0;
  empty = buffer_size;
  made = λ i. 0;
  taken = λ i. 0;
  producers = λ i. before;
  consumers = λ i. before;
}

-- A round of a producer, in three steps.
pub slots_produce : ℕ → Slots → Output × Slots
slots_produce i s = elim (s.producers i) [
  | before ↦ (nothing, record s { empty = s.empty - 1; producers = update s.producers i inside })
  | inside ↦ (
    put (out_content (s.made i)),
    record s {
      ring = insert (out_content (s.made i)) s.ring;
      made = update s.made i (s.made i + 1);
      producers = update s.producers i behind;
    },
  )
  | behind ↦ (nothing, record s { full = s.full + 1; producers = update s.producers i before })
]

pub slots_consume : ℕ → Slots → Output × Slots
slots_consume i s = elim (s.consumers i) [
  | before ↦ (nothing, record s { full = s.full - 1; consumers = update s.consumers i inside })
  | inside ↦ (
    got (remove s.ring).0,
    record s {
      ring = (remove s.ring).1;
      taken = update s.taken i (s.taken i + 1);
      consumers = update s.consumers i behind;
    },
  )
  | behind ↦ (nothing, record s { empty = s.empty + 1; consumers = update s.consumers i before })
]

abbrev pub slots_step : Actor → Slots → Output × Slots
slots_step (producer i) s = slots_produce i s
slots_step (consumer i) s = slots_consume i s

-- A program starts a round while `out_curr_idx < ITEM_SIZE`, when the semaphore lets it pass.
abbrev pub slots_runs : Actor → Slots → Bool
slots_runs (producer i) s = elim (s.producers i) [
  | before ↦ ltb (s.made i) item_size && ltb 0 s.empty
  | inside ↦ true
  | behind ↦ true
]
slots_runs (consumer i) s = elim (s.consumers i) [
  | before ↦ ltb (s.taken i) item_size && ltb 0 s.full
  | inside ↦ true
  | behind ↦ true
]
