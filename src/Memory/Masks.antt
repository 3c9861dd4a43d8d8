-- ===== src/Memory/Masks.antt =====
-- What `MemorySetFreemap` and `MemoryAllocPage` of os/memory.c do to the digits of a word.
use native.Mathlib.Numerals.{unary_clauses}
use Prim.Native.Nat.{bit_and, bit_or, differ}
use ece695os_lab.Prelude.{
  ℕ, zero, suc, ◌+◌, ◌-◌, ◌^◌, ◌<◌, ◌≤◌, ◌≡◌, Bool, true, false, ◌&&◌, ◌==◌, Bool-cases, inl, inr,
  if◌then◌else◌, refl, arith, ap, ◌∙◌,
}
use ece695os_lab.Memory.{invert, shift_left}
use ece695os_lab.Memory.Bits.{
  bit, bit-lt, two_to, bit-two_to, bit-bit_and, bit-bit_or, bit-bit_xor, bit-zero, bit-ext,
  bit_and-lt, bit_or-lt, bit_xor-lt,
}

two_to-small : (d k : ℕ) → d + k ≡ 31 → two_to k ≤ 2147483648
two_to-small zero k e = let all : k ≡ 31 = omega arith in rw all (omega arith)
two_to-small (suc d) k e = omega (arith, two_to-small d (suc k) (omega arith))

two_to-pow : (k : ℕ) → 2 ^ k ≡ two_to k
two_to-pow zero = refl
two_to-pow (suc k) = simp unary_clauses (omega (arith, two_to-pow k))

pub shift_left-two_to : (k : ℕ) → k < 32 → shift_left 1 k ≡ two_to k
shift_left-two_to k h =
    let e = two_to-pow k in let small = two_to-small (31 - k) k (omega arith) in rw e (omega arith)

-- A Boolean test on the numbers below a bound.
all_below : ℕ → (ℕ → Bool) → Bool
all_below zero p = true
all_below (suc n) p = p n && all_below n p

below : (n k : ℕ) (p : ℕ → Bool) → all_below n p ≡ true → k < n → p k ≡ true
unfolding all_below
below zero k p h l = absurd (omega arith)
below (suc n) k p h l = ground (arith, below n k p)

all_ones : all_below 32 (λ k. bit 0xffffffff k == 1) ≡ true
unfolding all_below
all_ones = refl

differ-one : (x : ℕ) → x < 2 → differ x 1 ≡ 1 - x
differ-one zero h = refl
differ-one (suc zero) h = refl
differ-one (suc (suc x)) h = absurd (omega arith)

bit-invert : (n k : ℕ) → k < 32 → bit (invert n) k ≡ 1 - bit n k
bit-invert n k h =
    let one : bit 0xffffffff k ≡ 1 =
      ground (arith, below 32 k (λ k. bit 0xffffffff k == 1) all_ones h) in
    bit-bit_xor n 0xffffffff k ∙ rw one (differ-one (bit n k) (bit-lt n k))

abbrev pub set_bit : ℕ → ℕ → ℕ
set_bit w b = bit_or (bit_and w (invert (shift_left 1 b))) (shift_left 1 b)

abbrev pub clear_bit : ℕ → ℕ → ℕ
clear_bit w b = bit_and w (invert (shift_left 1 b))

-- A word whose only digit is the one at `b`.
bit-shift_left : (b k : ℕ) → b < 32 → bit (shift_left 1 b) k ≡ (if k == b then 1 else 0)
bit-shift_left b k h = let e = shift_left-two_to b h in rw e (bit-two_to b k)

module _ (w b k : ℕ) (hb : b < 32) (hk : k < 32) where
  pub bit-clear_bit : bit (clear_bit w b) k ≡ (if k == b then 0 else bit w k)
  bit-clear_bit =
      let one = bit-shift_left b k hb in
      let i = bit-invert (shift_left 1 b) k hk in
      let c = bit-bit_and w (invert (shift_left 1 b)) k in
      let small = bit-lt w k in
      elim (Bool-cases (k == b)) [
        | inl e ↦ let v : bit (shift_left 1 b) k ≡ 1 = one ∙ rw e refl in rw e (omega arith)
        | inr e ↦ let v : bit (shift_left 1 b) k ≡ 0 = one ∙ rw e refl in rw e (omega arith)
      ]

  pub bit-set_bit : bit (set_bit w b) k ≡ (if k == b then 1 else bit w k)
  bit-set_bit =
      let one = bit-shift_left b k hb in
      let clear = bit-clear_bit in
      let c = bit-bit_or (clear_bit w b) (shift_left 1 b) k in
      let small = bit-lt w k in
      elim (Bool-cases (k == b)) [
        | inl e ↦
            let v : bit (shift_left 1 b) k ≡ 1 = one ∙ rw e refl in
            let z : bit (clear_bit w b) k ≡ 0 = clear ∙ rw e refl in rw e (omega arith)
        | inr e ↦
            let v : bit (shift_left 1 b) k ≡ 0 = one ∙ rw e refl in
            let z : bit (clear_bit w b) k ≡ bit w k = clear ∙ rw e refl in rw e (omega arith)
      ]

abbrev pub IsWord : ℕ → Type 0
IsWord w = w < two_to 32

shift_left-IsWord : (b : ℕ) → IsWord (shift_left 1 b)
shift_left-IsWord b = omega arith

pub clear_bit-IsWord : (w b : ℕ) → IsWord w → IsWord (clear_bit w b)
clear_bit-IsWord w b h =
    bit_and-lt 32 w (invert (shift_left 1 b)) h
      (bit_xor-lt 32 (shift_left 1 b) 0xffffffff (shift_left-IsWord b) (omega arith))

pub set_bit-IsWord : (w b : ℕ) → IsWord w → IsWord (set_bit w b)
set_bit-IsWord w b h =
    bit_or-lt 32 (clear_bit w b) (shift_left 1 b) (clear_bit-IsWord w b h) (shift_left-IsWord b)

module _ (w b : ℕ) (h : b < 32) where
  -- The test of a digit by a mask.
  abbrev masked : ℕ
  masked = bit_and w (shift_left 1 b)

  pub masked-set : bit w b ≡ 1 → (masked == 0) ≡ false
  masked-set e =
      let one : bit (shift_left 1 b) b ≡ 1 = bit-shift_left b b h ∙ ground arith in
      let c = bit-bit_and w (shift_left 1 b) b in
      let here : bit masked b ≡ 1 = omega arith in
      elim (Bool-cases (masked == 0)) [
        | inl z ↦
            let none_left : masked ≡ 0 = ground arith in
            absurd (omega (arith, ap (λ n. bit n b) none_left, bit-zero b))
        | inr z ↦ z
      ]

  masked_digit : bit w b ≡ 0 → (k : ℕ) → bit masked k ≡ 0
  masked_digit e k =
      let c = bit-bit_and w (shift_left 1 b) k in
      let one = bit-shift_left b k h in
      elim (Bool-cases (k == b)) [
        | inl s ↦
            let same : k ≡ b = ground arith in
            let z : bit w k ≡ 0 = ap (bit w) same ∙ e in omega arith
        | inr s ↦ let v : bit (shift_left 1 b) k ≡ 0 = one ∙ rw s refl in omega arith
      ]

  pub masked-clear : IsWord w → bit w b ≡ 0 → (masked == 0) ≡ true
  masked-clear small e =
      let none_left =
        bit-ext 32 masked 0 (bit_and-lt 32 w (shift_left 1 b) small (shift_left-IsWord b))
          (omega arith) (λ k l. masked_digit e k ∙ (let z = bit-zero k in omega arith)) in
      ground arith
