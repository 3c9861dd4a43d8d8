-- ===== src/Buffer/Tests.antt =====
-- Runs of the programs of apps/q2 and apps/q4.
use ece695os_lab.Prelude.{ℕ, ◌≡◌, false, [], ◌∷◌, refl}
use ece695os_lab.Buffer.{
  insert, remove, empty_ring, producer, consumer, nothing, Busy, busy_produce, busy_consume,
  busy_step, Cond, ready, waiting, resumed, cond_produce, cond_consume, cond_step, cond_runs,
}
use ece695os_lab.Buffer.Fifo.{Fifo, contents}
use ece695os_lab.Buffer.Order.{BusyReach, CondReach, BusyReach-Fifo}
use ece695os_lab.Buffer.Waiting.{CondRun, here, next, CondRun-waits}

abbrev blank : ℕ → ℕ
blank i = 0

abbrev start : Busy
start = record { ring = empty_ring blank; made = λ i. 0; taken = λ i. 0 }

abbrev idle : Cond
idle = record {
  ring = empty_ring blank;
  made = λ i. 0;
  taken = λ i. 0;
  producers = λ i. ready;
  consumers = λ i. ready;
  waiters = [];
}

-- Two insertions, by two producers, and a removal.
abbrev later : Busy
later = (busy_step (consumer 0) (busy_step (producer 1) (busy_step (producer 0) start).1).1).1

later_contents : contents later.ring ≡ 48 ∷ []
unfolding busy_produce busy_consume insert remove
later_contents = refl

later_reach : BusyReach blank (48 ∷ 48 ∷ []) (48 ∷ []) later
unfolding busy_produce busy_consume insert remove
later_reach =
    BusyReach.move (consumer 0)
      (BusyReach.move (producer 1) (BusyReach.move (producer 0) BusyReach.begin refl) refl) refl

BusyReach-Fifo_example : Fifo (48 ∷ 48 ∷ []) (48 ∷ []) later.ring
BusyReach-Fifo_example = BusyReach-Fifo later_reach

-- A full buffer: nothing is inserted.
full_ring :
    (busy_produce 0 (record start { ring = record { head = 63; tail = 0; chars = blank } })).0
    ≡ nothing
unfolding busy_produce
full_ring = refl

-- The first consumer comes too early: it waits, and an item that comes then stays in the buffer.
abbrev early : Cond
early = (cond_step (consumer 0) idle).1

abbrev stuck : Cond
stuck = (cond_step (producer 0) early).1

early-waits : (early.consumers 0 ≡ waiting) × (contents stuck.ring ≡ 48 ∷ [])
unfolding cond_consume cond_produce insert
early-waits = (refl, refl)

early_run : CondRun early stuck
unfolding cond_consume
early_run = next (producer 0) here refl

CondRun-waits_example :
    (stuck.consumers 0 ≡ waiting)
    × (stuck.taken 0 ≡ early.taken 0)
    × (cond_runs (consumer 0) stuck ≡ false)
CondRun-waits_example = CondRun-waits 0 {s = early} early_run early-waits.0

stuck_reach : CondReach blank (48 ∷ []) [] stuck
unfolding cond_consume cond_produce insert
stuck_reach = CondReach.move (producer 0) (CondReach.move (consumer 0) CondReach.begin refl) refl

-- A producer that waits for a free place is woken up by a removal.
abbrev held : Cond
held = record idle { ring = record { head = 63; tail = 0; chars = blank } }

held-resumed :
    ((cond_step (producer 0) held).1.waiters ≡ 0 ∷ [])
    × ((cond_step (consumer 0) (cond_step (producer 0) held).1).1.producers 0 ≡ resumed)
unfolding cond_consume cond_produce remove
held-resumed = (refl, refl)
