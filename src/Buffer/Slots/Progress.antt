-- ===== src/Buffer/Slots/Progress.antt =====
-- The programs of apps/q3 never all wait.
use ece695os_lab.Prelude.{ℕ, ◌+◌, ◌<◌, ◌≡◌, true, List, ◌==◌, arith, inl, inr, Bool-cases}
use ece695os_lab.Buffer.{Actor, producer, consumer, item_size}
use ece695os_lab.Buffer.Slots.{Slots, slots_runs}
use ece695os_lab.Buffer.Slots.Count.{at_inside, at_behind, total-cases}
use ece695os_lab.Buffer.Slots.Safe.{Among, SlotsReach, SlotsReach-Counted}

-- A program that has passed its `sem_wait` can go on.
producer-runs :
    (s : Slots) (i : ℕ)
    → 0 < at_inside (s.producers i) + at_behind (s.producers i)
    → slots_runs (producer i) s ≡ true
producer-runs s i h = ground arith

consumer-runs :
    (s : Slots) (i : ℕ)
    → 0 < at_inside (s.consumers i) + at_behind (s.consumers i)
    → slots_runs (consumer i) s ≡ true
consumer-runs s i h = ground arith

producer-starts :
    (s : Slots) (i : ℕ) → s.made i < item_size → 0 < s.empty → slots_runs (producer i) s ≡ true
producer-starts s i h e = ground arith

consumer-starts :
    (s : Slots) (i : ℕ) → s.taken i < item_size → 0 < s.full → slots_runs (consumer i) s ≡ true
consumer-starts s i h e = ground arith

-- In every state that the programs of q3 reach, however many they are and in whatever order they
-- run: as long as a producer and a consumer each have an item left, some program has a step to make.
pub SlotsReach-progress :
    {n m : ℕ} {chars : ℕ → ℕ} {xs ys : List ℕ} {s : Slots}
    → SlotsReach n m chars xs ys s
    → (i j : ℕ) → i < n
    → j < m
    → s.made i < item_size
    → s.taken j < item_size
    → (a : Actor) × Among n m a × (slots_runs a s ≡ true)
SlotsReach-progress {n} {m} {s = s} r i j hi hj left right =
    let k = SlotsReach-Counted r in
    elim (total-cases at_inside s.producers n) [
      | inr (l, h, e) ↦ (producer l, h, producer-runs s l (omega arith))
      | inl pi ↦ elim (total-cases at_behind s.producers n) [
        | inr (l, h, e) ↦ (producer l, h, producer-runs s l (omega arith))
        | inl pb ↦ elim (total-cases at_inside s.consumers m) [
          | inr (l, h, e) ↦ (consumer l, h, consumer-runs s l (omega arith))
          | inl ci ↦ elim (total-cases at_behind s.consumers m) [
            | inr (l, h, e) ↦ (consumer l, h, consumer-runs s l (omega arith))
            | inl cb ↦ elim (Bool-cases (s.full == 0)) [
              | inl z ↦
                  (producer i, hi, producer-starts s i left (ground (arith, k.items, k.places)))
              | inr z ↦ (consumer j, hj, consumer-starts s j right (ground arith))
            ]
          ]
        ]
      ]
    ]
