-- ===== src/Memory/Copy/Sources.antt =====
-- Where the bytes stand that a round of moveBetweenSpaces of os/memory.c copies.
use ece695os_lab.Prelude.{
  ℕ, ◌+◌, ◌*◌, ◌-◌, ◌/◌, ◌%◌, ◌^◌, ◌<◌, ◌≤◌, ◌≡◌, ◌≢◌, ◌⊎◌, true, false, ltb, ◌==◌, refl, arith,
  Bool-cases, inl, inr,
}
use Prim.Native.Nat.{bit_and}
use ece695os_lab.Memory.{page_size, pte_mask, translate_user_to_system}
use ece695os_lab.Memory.Copy.{chunk}

-- Each entry of the page table holds the start of a page.
abbrev pub IsAligned : ℕ → (ℕ → ℕ) → Type 0
IsAligned npages pagetable =
    (p : ℕ) → p ≤ npages → (q : ℕ) × (q < 2 ^ 16) × (bit_and (pagetable p) pte_mask ≡ q * page_size)

-- No one of the `n` bytes from the address `u` of the process on is one of those from `s` on.
abbrev pub IsApart : ℕ → (ℕ → ℕ) → ℕ → ℕ → ℕ → Type 0
IsApart npages pagetable s u n =
    (j : ℕ)
    → j < n
    → let at = translate_user_to_system npages pagetable (u + j) in (at < s) ⊎ (s + n ≤ at)

pub chunk-left : (at n i : ℕ) → i < chunk at n → i + at % page_size < page_size
chunk-left at n i h = ground arith

-- No two of the `n` bytes from the address `u` of the process on are the same byte, as far as their
-- addresses translate.
abbrev pub IsDistinct : ℕ → (ℕ → ℕ) → ℕ → ℕ → Type 0
IsDistinct npages pagetable u n =
    (i j : ℕ)
    → i < j
    → j < n
    → translate_user_to_system npages pagetable (u + i) ≢ 0
    → translate_user_to_system npages pagetable (u + i)
      ≢ translate_user_to_system npages pagetable (u + j)

-- The byte at `a` is none of the `n` bytes from the address `u` of the process on.
abbrev pub IsOutside : ℕ → (ℕ → ℕ) → ℕ → ℕ → ℕ → Type 0
IsOutside npages pagetable u n a =
    (j : ℕ) → j < n → a ≢ translate_user_to_system npages pagetable (u + j)

module _ (npages : ℕ) (pagetable : ℕ → ℕ) where
  -- The address on a page of the process.
  translate-page :
      (u q : ℕ)
      → ltb npages (u / page_size) ≡ false
      → q < 2 ^ 16
      → bit_and (pagetable (u / page_size)) pte_mask ≡ q * page_size
      → translate_user_to_system npages pagetable u ≡ q * page_size + u % page_size
  unfolding translate_user_to_system
  translate-page u q inside small e = rw (inside, e) (omega (arith, small))

  translate-outside :
      (u : ℕ)
      → ltb npages (u / page_size) ≡ true
      → (translate_user_to_system npages pagetable u == 0) ≡ true
  unfolding translate_user_to_system
  translate-outside u out = rw out refl

  -- The bytes of a chunk stand one behind the other.
  pub translate-add :
      (u n i : ℕ)
      → IsAligned npages pagetable
      → (translate_user_to_system npages pagetable u == 0) ≡ false
      → i < chunk (translate_user_to_system npages pagetable u) n
      → translate_user_to_system npages pagetable (u + i)
        ≡ translate_user_to_system npages pagetable u + i
  translate-add u n i aligned found h = elim (Bool-cases (ltb npages (u / page_size))) [
    | inl out ↦ let zeroth = translate-outside u out in ground arith
    | inr inside ↦
        let (q, small, e) = aligned (u / page_size) (ground arith) in
        let here = translate-page u q inside small e in
        let at = translate_user_to_system npages pagetable u in
        let left = chunk-left at n i h in
        let offset : at % page_size ≡ u % page_size = omega (arith, here) in
        let room : u % page_size + i < page_size = omega (arith, left, offset) in
        let page : (u + i) / page_size ≡ u / page_size = omega arith in
        let there = translate-page (u + i) q (rw page inside) small (rw page e) in omega arith
  ]

  -- The bytes of a chunk lie all before the target or all behind it.
  pub IsApart-first :
      (s u n k : ℕ)
      → IsApart npages pagetable s u n
      → 0 < n
      → k ≤ n
      → ((i : ℕ)
          → i < k
          → translate_user_to_system npages pagetable (u + i)
            ≡ translate_user_to_system npages pagetable u + i)
      → let at = translate_user_to_system npages pagetable u in (s + n ≤ at) ⊎ (at + k ≤ s)
  IsApart-first s u n k apart pos fits steps =
      let at = translate_user_to_system npages pagetable u in
      let here : u + 0 ≡ u = omega arith in
      elim (rw here at (apart 0 pos)) [
        | inr h ↦ inl h
        | inl h ↦ elim (Bool-cases (ltb s (at + k))) [
          | inr l ↦ inr (ground arith)
          | inl l ↦
              let near : s - at < k = ground arith in
              let e = steps (s - at) near in
              elim (apart (s - at) (omega arith)) [
                | inl x ↦ absurd (omega arith)
                | inr x ↦ absurd (omega arith)
              ]
        ]
      ]

  pub IsApart-later :
      (s u n k : ℕ)
      → k ≤ n
      → IsApart npages pagetable s u n
      → IsApart npages pagetable (s + k) (u + k) (n - k)
  IsApart-later s u n k fits apart = λ j l.
      let place : u + (k + j) ≡ u + k + j = omega arith in
      elim (rw place at (apart (k + j) (omega (arith, l)))) [
        | inl h ↦ inl (omega (arith, h))
        | inr h ↦ inr (omega (arith, h))
      ]

  pub IsDistinct-later :
      (u n k : ℕ)
      → k ≤ n
      → IsDistinct npages pagetable u n
      → IsDistinct npages pagetable (u + k) (n - k)
  IsDistinct-later u n k fits distinct = λ i j l h.
      let one : u + (k + i) ≡ u + k + i = omega arith in
      let two : u + (k + j) ≡ u + k + j = omega arith in
      rw (one, two) at (distinct (k + i) (k + j) (omega (arith, l)) (omega (arith, h)))

  -- A byte of the first chunk is none of those of the later ones.
  pub IsDistinct-IsOutside :
      (u n k r i : ℕ)
      → i < k
      → k + r ≤ n
      → translate_user_to_system npages pagetable (u + i) ≢ 0
      → IsDistinct npages pagetable u n
      → IsOutside npages pagetable (u + k) r (translate_user_to_system npages pagetable (u + i))
  IsDistinct-IsOutside u n k r i l fits found distinct = λ j h.
      let two : u + (k + j) ≡ u + k + j = omega arith in
      rw two at (distinct i (k + j) (omega (arith, l)) (omega (arith, h, fits)) found)

  pub IsOutside-later :
      (u n k a : ℕ)
      → k ≤ n
      → IsOutside npages pagetable u n a
      → IsOutside npages pagetable (u + k) (n - k) a
  IsOutside-later u n k a fits out = λ j h.
      let two : u + (k + j) ≡ u + k + j = omega arith in rw two at (out (k + j) (omega (arith, h)))

  -- A byte that is none of those of a chunk lies before it or behind it.
  pub IsOutside-first :
      (u n k a : ℕ)
      → k ≤ n
      → IsOutside npages pagetable u n a
      → ((i : ℕ)
          → i < k
          → translate_user_to_system npages pagetable (u + i)
            ≡ translate_user_to_system npages pagetable u + i)
      → let at = translate_user_to_system npages pagetable u in (a < at) ⊎ (at + k ≤ a)
  IsOutside-first u n k a fits out steps =
      let at = translate_user_to_system npages pagetable u in
      elim (Bool-cases (ltb a at)) [
        | inl l ↦ inl (ground arith)
        | inr l ↦ elim (Bool-cases (ltb a (at + k))) [
          | inr h ↦ inr (ground arith)
          | inl h ↦
              let low : at ≤ a = ground arith in
              let near : a - at < k = ground arith in
              let e = steps (a - at) near in
              absurd (out (a - at) (omega (arith, near)) (omega (arith, e, low)))
        ]
      ]
