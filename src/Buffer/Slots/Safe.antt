-- ===== src/Buffer/Slots/Safe.antt =====
-- The semaphores of apps/q3 keep the buffer from running over and from being read when it is empty.
use ece695os_lab.Prelude.{
  ℕ, ◌+◌, ◌<◌, ◌≤◌, ◌≡◌, ◌⊎◌, true, false, List, [], ◌++◌, refl, arith, inl, inr,
}
use ece695os_lab.Buffer.{is_empty, insert, remove, Actor, producer, consumer, buffer_size}
use ece695os_lab.Buffer.Fifo.{Fifo, Feeds, nothing-Feeds, put-Feeds, got-Feeds, empty-Fifo}
use ece695os_lab.Buffer.Slots.{
  Slots, Stage, before, inside, behind, slots_start, slots_produce, slots_consume, slots_step,
  slots_runs,
}
use ece695os_lab.Buffer.Slots.Count.{
  total, at_inside, at_behind, total-update, total-ge, total-none,
}

-- The items and the free places are those that the counts tell, with those that the programs have in
-- hand; there are `n` producers and `m` consumers.
pub record Counted (n m : ℕ) (s : Slots) : Type 0 where
  pub items :
      s.full + total at_inside s.consumers m + total at_behind s.producers n + s.ring.tail
      ≡ s.ring.head
  pub places :
      s.empty + total at_inside s.producers n + total at_behind s.consumers m + s.ring.head
      ≡ buffer_size + s.ring.tail

pub Stage-cases : (x : Stage) → (x ≡ before) ⊎ ((x ≡ inside) ⊎ (x ≡ behind))
Stage-cases before = inl refl
Stage-cases inside = inr (inl refl)
Stage-cases behind = inr (inr refl)

module _ (n m i : ℕ) (s : Slots) (k : Counted n m s) where
  produce-Counted : i < n → slots_runs (producer i) s ≡ true → Counted n m (slots_produce i s).1
  unfolding slots_produce insert
  produce-Counted h r = elim (Stage-cases (s.producers i)) [
    | inl e ↦
        let a = rw e at (total-update at_inside s.producers i n inside h) in
        let b = rw e at (total-update at_behind s.producers i n inside h) in
        let free : 0 < s.empty = ground arith in
        rw (e, slots_produce)
          (record { items = omega (arith, k.items); places = omega (arith, k.places) })
    | inr (inl e) ↦
        let a = rw e at (total-update at_inside s.producers i n behind h) in
        let b = rw e at (total-update at_behind s.producers i n behind h) in
        rw (e, slots_produce)
          (record { items = omega (arith, k.items); places = omega (arith, k.places) })
    | inr (inr e) ↦
        let a = rw e at (total-update at_inside s.producers i n before h) in
        let b = rw e at (total-update at_behind s.producers i n before h) in
        rw (e, slots_produce)
          (record { items = omega (arith, k.items); places = omega (arith, k.places) })
  ]

  consume-Counted : i < m → slots_runs (consumer i) s ≡ true → Counted n m (slots_consume i s).1
  unfolding slots_consume remove
  consume-Counted h r = elim (Stage-cases (s.consumers i)) [
    | inl e ↦
        let a = rw e at (total-update at_inside s.consumers i m inside h) in
        let b = rw e at (total-update at_behind s.consumers i m inside h) in
        let some : 0 < s.full = ground arith in
        rw (e, slots_consume)
          (record { items = omega (arith, k.items); places = omega (arith, k.places) })
    | inr (inl e) ↦
        let a = rw e at (total-update at_inside s.consumers i m behind h) in
        let b = rw e at (total-update at_behind s.consumers i m behind h) in
        rw (e, slots_consume)
          (record { items = omega (arith, k.items); places = omega (arith, k.places) })
    | inr (inr e) ↦
        let a = rw e at (total-update at_inside s.consumers i m before h) in
        let b = rw e at (total-update at_behind s.consumers i m before h) in
        rw (e, slots_consume)
          (record { items = omega (arith, k.items); places = omega (arith, k.places) })
  ]

  produce-Feeds : Feeds (slots_produce i s).0 s.ring (slots_produce i s).1.ring
  unfolding slots_produce
  produce-Feeds = elim (Stage-cases (s.producers i)) [
    | inl e ↦ rw (e, slots_produce) (nothing-Feeds s.ring)
    | inr (inl e) ↦ rw (e, slots_produce) (put-Feeds (48 + s.made i) s.ring)
    | inr (inr e) ↦ rw (e, slots_produce) (nothing-Feeds s.ring)
  ]

  -- A consumer that is past its `sem_wait` finds an item.
  consume-Feeds : i < m → Feeds (slots_consume i s).0 s.ring (slots_consume i s).1.ring
  unfolding slots_consume
  consume-Feeds h = elim (Stage-cases (s.consumers i)) [
    | inl e ↦ rw (e, slots_consume) (nothing-Feeds s.ring)
    | inr (inl e) ↦
        let some = rw e at (total-ge at_inside s.consumers i m h) in
        let item : is_empty s.ring ≡ false = ground (arith, k.items) in
        rw (e, slots_consume) (got-Feeds s.ring item)
    | inr (inr e) ↦ rw (e, slots_consume) (nothing-Feeds s.ring)
  ]

-- Whether the program is one of the `n` producers and `m` consumers.
abbrev pub Among : ℕ → ℕ → Actor → Type 0
Among n m (producer i) = i < n
Among n m (consumer i) = i < m

pub data SlotsReach (n m : ℕ) (chars : ℕ → ℕ) : List ℕ → List ℕ → Slots → Type 0 where
  begin : SlotsReach n m chars [] [] (slots_start chars)
  move :
      {xs ys : List ℕ} {s : Slots} (a : Actor)
      → SlotsReach n m chars xs ys s
      → Among n m a
      → slots_runs a s ≡ true
      → SlotsReach n m chars
          (xs ++ (slots_step a s).0.inserted)
          (ys ++ (slots_step a s).0.removed)
          (slots_step a s).1

pub SlotsReach-Counted :
    {n m : ℕ} {chars : ℕ → ℕ} {xs ys : List ℕ} {s : Slots}
    → SlotsReach n m chars xs ys s
    → Counted n m s
SlotsReach-Counted {n} {m} begin = record {
  items = omega (arith, total-none at_inside m refl, total-none at_behind n refl);
  places = omega (arith, total-none at_inside n refl, total-none at_behind m refl);
}
SlotsReach-Counted {n} {m} (move {s = s} (producer i) r h go) =
    produce-Counted n m i s (SlotsReach-Counted r) h go
SlotsReach-Counted {n} {m} (move {s = s} (consumer i) r h go) =
    consume-Counted n m i s (SlotsReach-Counted r) h go

SlotsReach-Fifo :
    {n m : ℕ} {chars : ℕ → ℕ} {xs ys : List ℕ} {s : Slots}
    → SlotsReach n m chars xs ys s
    → Fifo xs ys s.ring
SlotsReach-Fifo {chars = chars} begin = empty-Fifo chars
SlotsReach-Fifo {n} {m} (move {xs} {ys} {s} (producer i) r h go) =
    produce-Feeds n m i s (SlotsReach-Counted r) xs ys (SlotsReach-Fifo r)
SlotsReach-Fifo {n} {m} (move {xs} {ys} {s} (consumer i) r h go) =
    consume-Feeds n m i s (SlotsReach-Counted r) h xs ys (SlotsReach-Fifo r)

-- In every state that the programs of q3 reach, however many they are and in whatever order they
-- run, what was inserted is what was removed with what is in the buffer behind it, and the buffer
-- holds 64 items at most.
pub SlotsReach-safe :
    {n m : ℕ} {chars : ℕ → ℕ} {xs ys : List ℕ} {s : Slots}
    → SlotsReach n m chars xs ys s
    → Fifo xs ys s.ring × (s.ring.head ≤ s.ring.tail + buffer_size)
SlotsReach-safe r = let k = SlotsReach-Counted r in (SlotsReach-Fifo r, omega (arith, k.places))
