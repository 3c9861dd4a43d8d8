-- ===== src/Memory/Init.antt =====
-- `MemoryModuleInit` of os/memory.c on the list of the pages that are free.
use ece695os_lab.Prelude.{
  ℕ, zero, suc, ◌+◌, ◌-◌, ◌*◌, ◌/◌, ◌%◌, ◌^◌, ◌<◌, ◌≤◌, ◌≡◌, false, ◌&&◌, ◌==◌, Bool-cases, inl,
  inr, refl, arith, ◌∙◌, List, [], ◌∷◌, length, has, update, ltb, leb,
}
use ece695os_lab.Memory.{
  Memory, set_freemap, free_page, module_init, clear_map, free_range, page_size,
}
use ece695os_lab.Memory.Bits.{bit-zero}
use ece695os_lab.Memory.Pages.{IsPool}
use ece695os_lab.Memory.Alloc.{free_page-IsPool, free_page-freemapmax}

-- A map whose words are cleared from `i` to `i + k`.
record Cleared (i k : ℕ) (m t : Memory) : Type 0 where
  place : t.mapnum ≡ m.mapnum
  size : t.freemapmax ≡ m.freemapmax
  clear : (j : ℕ) → i ≤ j → j < i + k → t.freepages j ≡ 0
  before : (j : ℕ) → j < i → t.freepages j ≡ m.freepages j

clear_map-Cleared : (k i : ℕ) (m : Memory) → Cleared i k m (clear_map k i m)
unfolding clear_map
clear_map-Cleared zero i m = record {
  place = refl;
  size = refl;
  clear = λ j a b. absurd (omega arith);
  before = λ j a. refl;
}
clear_map-Cleared (suc k) i m =
    let m' = record m { freepages = update m.freepages i 0 } in
    let z = clear_map-Cleared k (suc i) m' in
    record {
      place = z.place;
      size = z.size;
      clear = λ j a b. elim (Bool-cases (j == i)) [
        | inl e ↦ z.before j (ground arith) ∙ rw e refl
        | inr e ↦ z.clear j (ground arith) (omega arith)
      ];
      before = λ j a.
          z.before j (omega arith) ∙ (let other : (j == i) ≡ false = ground arith in rw other refl);
    }

-- The free pages are those of the list, and they are those from `a` to `b`, with `n` of them.
pub record Free (m : Memory) (a b n : ℕ) : Type 0 where
  pub pages : List ℕ
  pub pool : IsPool m pages
  pub known : (q : ℕ) → has q pages ≡ (leb a q && ltb q b)
  pub amount : length pages ≡ n
  pub room : b ≤ 32 * m.freemapmax

free_range-Free :
    (k a b : ℕ) (m : Memory)
    → Free m a b (b - a)
    → 1 ≤ a
    → a ≤ b
    → b + k ≤ 32 * m.freemapmax
    → Free (free_range k b m) a (b + k) (b + k - a)
unfolding free_range set_freemap free_page
free_range-Free zero a b m w pos h fits = let same : b + 0 ≡ b = omega arith in rw same w
free_range-Free (suc k) a b m w pos h fits =
    let used : has b w.pages ≡ false = w.known b ∙ ground arith in
    let w' : Free (free_page b m) a (suc b) (suc b - a) = record {
      pages = b ∷ w.pages;
      pool = free_page-IsPool b w.pool (λ z. absurd (omega arith)) (omega arith) used;
      known = λ q. (let e = w.known q in ground arith);
      amount = let e = w.amount in omega arith;
      room = (let e = free_page-freemapmax b m in omega arith);
    } in
    let next : b + suc k ≡ suc b + k = omega arith in
    rw next
      (free_range-Free k a (suc b) (free_page b m) w' (omega arith) (omega arith) (omega arith))

Cleared-Free :
    (n a : ℕ) (m t : Memory)
    → Cleared 0 n m t
    → m.freemapmax ≡ n
    → n ≤ 2048
    → a ≤ 32 * n
    → m.mapnum < n
    → Free (record t { nfreepages = 0 }) a a (a - a)
Cleared-Free n a m t z e small fits h = record {
  pages = [];
  pool = record {
    distinct = tt;
    below = tt;
    count = refl;
    free = λ p k.
        let none_left = z.clear (p / 32) (omega arith) (omega (arith, z.size)) in
        rw none_left (bit-zero (p % 32));
    inside = λ p k. cc;
    words = λ i k. let none_left = z.clear i (omega arith) (omega (arith, z.size)) in omega arith;
    place = omega (arith, z.size, z.place);
    size = omega (arith, z.size);
  };
  known = λ q. ground arith;
  amount = omega arith;
  room = omega (arith, z.size);
}

-- `MemoryModuleInit` with at least one page behind the system: the free pages are those from the
-- first one behind the system to the end of the memory.
pub module_init-Free :
    (size last : ℕ) (m : Memory)
    → m.mapnum ≡ 0
    → size < 2 ^ 31
    → 4 ≤ last
    → last + page_size ≤ size
    → let start = (last + page_size - 4) / page_size in
      Free (module_init size last m) start (size / page_size) (size / page_size - start)
unfolding module_init
module_init-Free size last m e b c d =
    let start = (last + page_size - 4) / page_size in
    let n = (size / page_size + 31) / 32 in
    let m1 = record m { pagestart = start; freemapmax = n } in
    let z = clear_map-Cleared n 0 m1 in
    let w =
      Cleared-Free n start m1 (clear_map n 0 m1) z refl (omega arith) (omega arith) (omega arith) in
    let all : start + (size / page_size - start) ≡ size / page_size = omega arith in
    rw all at (
      free_range-Free (size / page_size - start) start start
        (record (clear_map n 0 m1) { nfreepages = 0 }) w (omega arith) (omega arith)
        (omega (arith, z.size)))
