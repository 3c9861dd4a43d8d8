-- ===== src/Buffer/Slots/Tests.antt =====
-- Runs of the programs of apps/q3.
use ece695os_lab.Prelude.{◌+◌, ◌≤◌, ◌≡◌, true, false, [], ◌∷◌, refl, arith}
use ece695os_lab.Buffer.{producer, consumer, Actor, buffer_size, insert, remove}
use ece695os_lab.Buffer.Fifo.{Fifo, contents}
use ece695os_lab.Buffer.Slots.{
  Slots, slots_start, slots_step, slots_runs, slots_produce, slots_consume,
}
use ece695os_lab.Buffer.Slots.Safe.{SlotsReach, Among, SlotsReach-safe}
use ece695os_lab.Buffer.Slots.Progress.{SlotsReach-progress}

abbrev start : Slots
start = slots_start (λ i. 0)

-- A producer has inserted its first item, and the consumer has not been let in.
abbrev later : Slots
later = (slots_step (producer 0) (slots_step (producer 0) start).1).1

later_lem :
    (contents later.ring ≡ 48 ∷ [])
    × (slots_runs (consumer 0) later ≡ false)
    × (slots_runs (consumer 0) (slots_step (producer 0) later).1 ≡ true)
unfolding slots_produce insert
later_lem = (refl, refl, refl)

later_reach : SlotsReach 1 1 (λ i. 0) (48 ∷ []) [] later
unfolding slots_produce insert
later_reach =
    SlotsReach.move (producer 0) (SlotsReach.move (producer 0) SlotsReach.begin (omega arith) refl)
      (omega arith) refl

-- The item goes through.
through :
    let s = (slots_step (consumer 0) (slots_step (producer 0) later).1).1 in
    ((slots_step (consumer 0) s).0.removed ≡ 48 ∷ []) × ((slots_step (consumer 0) s).1.empty ≡ 63)
unfolding slots_produce slots_consume insert remove
through = (refl, refl)

SlotsReach-safe_example :
    Fifo (48 ∷ []) [] later.ring × (later.ring.head ≤ later.ring.tail + buffer_size)
SlotsReach-safe_example = SlotsReach-safe later_reach

made_one : later.made 0 ≡ 1
unfolding slots_produce
made_one = refl

taken_none : later.taken 0 ≡ 0
unfolding slots_produce
taken_none = refl

SlotsReach-progress_example : (a : Actor) × Among 1 1 a × (slots_runs a later ≡ true)
SlotsReach-progress_example =
    SlotsReach-progress later_reach 0 0 (omega arith) (omega arith) (omega (arith, made_one))
      (omega (arith, taken_none))
