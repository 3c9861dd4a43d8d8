-- ===== src/Memory/Alloc.antt =====
-- `MemoryAllocPage` and `MemoryFreePage` of os/memory.c on the list of the pages that are free.
use ece695os_lab.Prelude.{
  ℕ, ◌+◌, ◌*◌, ◌/◌, ◌%◌, ◌<◌, ◌≡◌, ◌≢◌, true, false, ◌==◌, Bool-cases, inl, inr, refl, arith, ap,
  ◌∙◌, List, [], ◌∷◌, has, some, length-le_of_IsBelow, without, Distinct-without, has-without_all,
  length-without_member, IsBelow-without_all,
}
use ece695os_lab.Memory.{Memory, set_freemap, find_word, find_bit, take_page, alloc_page, free_page}
use ece695os_lab.Memory.Bits.{bit, bit-zero, some_bit}
use ece695os_lab.Memory.Masks.{set_bit-IsWord, clear_bit-IsWord}
use ece695os_lab.Memory.Pages.{
  IsPool, free_bit, find_word-Found, find_bit-Found, set_freemap-free_bit, take_page-free_bit,
}

-- A word with a digit that is set is not 0.
word-ne : (v k : ℕ) → bit v k ≡ 1 → v ≢ 0
word-ne v k e z = let b = bit-zero k in let s = ap (λ n. bit n k) z in absurd (omega arith)

free_bit-has :
    {m : Memory} {ps : List ℕ} (p : ℕ)
    → IsPool m ps
    → p < 32 * m.freemapmax
    → free_bit m p ≡ 1
    → has p ps ≡ true
free_bit-has {m} {ps} p w h e = let f = w.free p h in ground arith

-- The page at a digit that is set is one of the list, and to take it takes it off the list.
take_page-IsPool :
    {m : Memory} {ps : List ℕ} (b : ℕ)
    → IsPool m ps
    → b < 32
    → has (m.mapnum * 32 + b) ps ≡ true
    → IsPool (take_page b m).1 (without (m.mapnum * 32 + b) ps)
unfolding take_page
take_page-IsPool {m} {ps} b w hb h =
    let page = m.mapnum * 32 + b in
    record {
      distinct = Distinct-without page ps w.distinct;
      below = IsBelow-without_all 65535 page ps w.below;
      count =
          let l = length-without_member page ps w.distinct h in
          let small = length-le_of_IsBelow 65535 ps w.distinct w.below in
          let c = w.count in omega arith;
      free = λ p k.
          take_page-free_bit b p m hb
          ∙ (let f = w.free p k in let a = has-without_all p page ps in ground arith);
      inside = λ p k. w.inside p (let a = has-without_all p page ps in ground arith);
      words = λ i k. elim (Bool-cases (i == m.mapnum)) [
        | inl e ↦ rw e (clear_bit-IsWord (m.freepages m.mapnum) b (w.words m.mapnum w.place))
        | inr e ↦ rw e (w.words i k)
      ];
      place = w.place;
      size = w.size;
    }

-- What `MemoryAllocPage` gives: a page of the list, which is off the list then.
pub record Allocated (m : Memory) (ps : List ℕ) : Type 0 where
  pub page : ℕ
  pub after : Memory
  pub run : alloc_page m ≡ some (page, after)
  pub was_free : has page ps ≡ true
  pub pool : IsPool after (without page ps)
  pub size : after.freemapmax ≡ m.freemapmax

moved-IsPool :
    {m : Memory} {ps : List ℕ} (k : ℕ)
    → IsPool m ps
    → k < m.freemapmax
    → IsPool (record m { mapnum = k }) ps
moved-IsPool k w h = record {
  distinct = w.distinct;
  below = w.below;
  count = w.count;
  free = w.free;
  inside = w.inside;
  words = w.words;
  place = h;
  size = w.size;
}

-- The page at the word `k` and the digit `b` that the two searches end at.
searched-Allocated :
    {m : Memory} {ps : List ℕ} (k b : ℕ)
    → IsPool (record m { mapnum = k }) ps
    → ps ≢ []
    → find_word (m.freemapmax + 1) m ≡ some (record m { mapnum = k })
    → find_bit 32 (m.freepages k) 0 ≡ some b
    → b < 32
    → bit (m.freepages k) b ≡ 1
    → Allocated m ps
unfolding alloc_page take_page
searched-Allocated {m} {ps = []} k b w ne found run hb one = absurd (ne refl)
searched-Allocated {m} {ps = p ∷ qs} k b w ne found run hb one =
    let hk : k < m.freemapmax = w.place in
    let row : (k * 32 + b) / 32 ≡ k = omega arith in
    let column : (k * 32 + b) % 32 ≡ b = omega arith in
    let member = free_bit-has (k * 32 + b) w (omega arith) (rw (row, column) one) in
    let pages_left : (m.nfreepages == 0) ≡ false = let c = w.count in ground arith in
    record {
      page = k * 32 + b;
      after = (take_page b (record m { mapnum = k })).1;
      run = rw (pages_left, alloc_page) (rw found (rw run refl));
      was_free = member;
      pool = take_page-IsPool b w hb member;
      size = refl;
    }

-- `MemoryAllocPage` with a page free ends and gives one of the free pages, which is in use then;
-- every other page is as before.
pub alloc_page-Allocated : {m : Memory} {ps : List ℕ} → IsPool m ps → ps ≢ [] → Allocated m ps
alloc_page-Allocated {m} {ps = []} w ne = absurd (ne refl)
alloc_page-Allocated {m} {ps = p ∷ qs} w ne =
    let first : has p (p ∷ qs) ≡ true = ground arith in
    let inside = w.inside p first in
    let free : free_bit m p ≡ 1 = w.free p inside ∙ rw first refl in
    let (k, found, hk, some_free) =
      find_word-Found (m.freemapmax + 1) (p / 32) m w.place (omega arith)
        (word-ne (m.freepages (p / 32)) (p % 32) free) (ground (arith, w.place)) in
    let small = w.words k hk in
    let (j, hj, set) = some_bit 32 (m.freepages k) small some_free in
    let (b, run, hb, one) =
      find_bit-Found 32 (m.freepages k) 0 j small (omega arith) hj set (omega arith) in
    searched-Allocated k b (moved-IsPool k w hk) ne found run hb one

pub alloc_page-none : {m : Memory} → IsPool m [] → alloc_page m ≡ some (0, m)
unfolding alloc_page
alloc_page-none {m} w =
    let none_left : (m.nfreepages == 0) ≡ true = let c = w.count in ground arith in
    rw none_left refl

-- `MemoryFreePage` of a page of the map that is in use puts it back.
pub free_page-IsPool :
    {m : Memory} {ps : List ℕ} (p : ℕ)
    → IsPool m ps
    → p ≢ 0
    → p < 32 * m.freemapmax
    → has p ps ≡ false
    → IsPool (free_page p m) (p ∷ ps)
unfolding free_page set_freemap
free_page-IsPool {m} {ps} p w some_page h used = record {
  distinct = (used, w.distinct);
  below = (some_page, (let s = w.size in omega arith), w.below);
  count =
      let c = w.count in
      let small = length-le_of_IsBelow 65535 ps w.distinct w.below in omega arith;
  free = λ q k. set_freemap-free_bit p q m ∙ (let f = w.free q k in ground arith);
  inside = λ q k. elim (Bool-cases (q == p)) [
    | inl e ↦ let same : q ≡ p = ground arith in omega arith
    | inr e ↦ w.inside q (ground arith)
  ];
  words = λ i k. elim (Bool-cases (i == p / 32)) [
    | inl e ↦ rw e (set_bit-IsWord (m.freepages (p / 32)) (p % 32) (w.words (p / 32) (omega arith)))
    | inr e ↦ rw e (w.words i k)
  ];
  place = w.place;
  size = w.size;
}

pub free_page-freemapmax : (p : ℕ) (m : Memory) → (free_page p m).freemapmax ≡ m.freemapmax
unfolding free_page set_freemap
free_page-freemapmax p m = refl
