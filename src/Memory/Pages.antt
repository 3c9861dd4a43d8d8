-- ===== src/Memory/Pages.antt =====
-- The page map of os/memory.c as the list of the pages that are free.
use ece695os_lab.Prelude.{
  ℕ, zero, suc, ◌+◌, ◌-◌, ◌*◌, ◌/◌, ◌%◌, ◌<◌, ◌≤◌, ◌≡◌, ◌≢◌, true, false, ◌==◌, Bool-cases, inl,
  inr, if◌then◌else◌, refl, arith, ap, ◌∙◌, List, length, has, Distinct, IsBelow, leb, some,
}
use ece695os_lab.Memory.{Memory, set_freemap, find_word, find_bit, take_page}
use ece695os_lab.Memory.Bits.{bit, bit-lt}
use ece695os_lab.Memory.Masks.{IsWord, bit-set_bit, bit-clear_bit, masked-set, masked-clear}

-- The digit of a page in the map: 1 when it is free.
abbrev pub free_bit : Memory → ℕ → ℕ
free_bit m p = bit (m.freepages (p / 32)) (p % 32)

-- The free pages are those of the list, and none of them is page 0, which stands for a failure.
pub record IsPool (m : Memory) (ps : List ℕ) : Type 0 where
  pub distinct : Distinct ps
  pub below : IsBelow 65535 ps
  pub count : m.nfreepages ≡ length ps
  pub free : (p : ℕ) → p < 32 * m.freemapmax → free_bit m p ≡ (if has p ps then 1 else 0)
  pub inside : (p : ℕ) → has p ps ≡ true → p < 32 * m.freemapmax
  pub words : (i : ℕ) → i < m.freemapmax → IsWord (m.freepages i)
  pub place : m.mapnum < m.freemapmax
  pub size : m.freemapmax ≤ 2048

-- How many steps the search for a word is away from the word `w`.
abbrev pub distance : ℕ → ℕ → ℕ → ℕ
distance i w n = if leb i w then w - i else n - i + w

pub find_word-Found :
    (fuel w : ℕ) (m : Memory)
    → m.mapnum < m.freemapmax
    → w < m.freemapmax
    → m.freepages w ≢ 0
    → distance m.mapnum w m.freemapmax < fuel
    → (k : ℕ) × (find_word fuel m ≡ some (record m { mapnum = k }))
      × (k < m.freemapmax)
      × (m.freepages k ≢ 0)
unfolding find_word
find_word-Found zero w m a b ne near = absurd (omega arith)
find_word-Found (suc fuel) w m a b ne near =
    let next = if leb m.freemapmax (m.mapnum + 1) then 0 else m.mapnum + 1 in
    elim (Bool-cases (m.freepages m.mapnum == 0)) [
      | inl e ↦
          let other : m.mapnum ≢ w = (λ s. ne (let t = ap m.freepages s in ground arith)) in
          let (k, run, c, d) =
            find_word-Found fuel w (record m { mapnum = next }) (ground arith) b ne
              (ground arith) in
          (k, rw e run, c, d)
      | inr e ↦ (m.mapnum, rw e refl, a, (λ z. ground arith))
    ]

pub find_bit-Found :
    (fuel v b j : ℕ)
    → IsWord v
    → b ≤ j
    → j < 32
    → bit v j ≡ 1
    → j - b < fuel
    → (k : ℕ) × (find_bit fuel v b ≡ some k) × (k < 32) × (bit v k ≡ 1)
unfolding find_bit
find_bit-Found zero v b j small h l e near = absurd (omega arith)
find_bit-Found (suc fuel) v b j small h l e near = elim (Bool-cases (bit v b == 1)) [
  | inl s ↦
      let one : bit v b ≡ 1 = ground arith in
      (b, rw (masked-set v b (omega arith) one) refl, omega arith, one)
  | inr s ↦
      let z : bit v b ≡ 0 = let two = bit-lt v b in ground arith in
      let other : b ≢ j = λ q. let z = ap (bit v) q in ground arith in
      let (k, run, c, d) = find_bit-Found fuel v (suc b) j small (omega arith) l e (omega arith) in
      (k, rw (masked-clear v b (omega arith) small z) run, c, d)
]

-- Two pages of one word have the same digit only if they are the same.
same_page : (p q : ℕ) → (q / 32 == p / 32) ≡ true → (q % 32 == p % 32) ≡ (q == p)
same_page p q e = ground arith

other_page : (p q : ℕ) → (q / 32 == p / 32) ≡ false → (q == p) ≡ false
other_page p q e = ground arith

pub set_freemap-free_bit :
    (p q : ℕ) (m : Memory) → free_bit (set_freemap p 1 m) q ≡ (if q == p then 1 else free_bit m q)
unfolding set_freemap
set_freemap-free_bit p q m = elim (Bool-cases (q / 32 == p / 32)) [
  | inl e ↦
      let s = same_page p q e in
      let w : q / 32 ≡ p / 32 = ground arith in
      rw e (
        rw w (
          bit-set_bit (m.freepages (p / 32)) (p % 32) (q % 32) (omega arith) (omega arith)
          ∙ rw s refl))
  | inr e ↦ let o = other_page p q e in rw e (rw o refl)
]

pub take_page-free_bit :
    (b q : ℕ) (m : Memory)
    → b < 32
    → free_bit (take_page b m).1 q ≡ (if q == m.mapnum * 32 + b then 0 else free_bit m q)
unfolding take_page
take_page-free_bit b q m h =
    let word : (m.mapnum * 32 + b) / 32 ≡ m.mapnum = omega arith in
    let digit : (m.mapnum * 32 + b) % 32 ≡ b = omega arith in
    elim (Bool-cases (q / 32 == m.mapnum)) [
      | inl e ↦
          let s : (q % 32 == b) ≡ (q == m.mapnum * 32 + b) = ground arith in
          let w : q / 32 ≡ m.mapnum = ground arith in
          rw e (rw w (bit-clear_bit (m.freepages m.mapnum) b (q % 32) h (omega arith) ∙ rw s refl))
      | inr e ↦ let o : (q == m.mapnum * 32 + b) ≡ false = ground arith in rw e (rw o refl)
    ]
