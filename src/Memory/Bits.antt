-- ===== src/Memory/Bits.antt =====
-- The binary digits of a number, and of what the operations on words make of it.
use Prim.Native.Nat.{
  min, max, bit_and, bit_or, bit_xor, digits, bitwise, differ, bit_and-bitwise, bit_or-bitwise,
  bit_xor-bitwise,
}
use ece695os_lab.Prelude.{
  ℕ, zero, suc, ◌+◌, ◌*◌, ◌/◌, ◌%◌, ◌<◌, ◌≤◌, ◌≡◌, ◌≢◌, ◌==◌, if◌then◌else◌, refl, arith, ap, ◌∙◌,
  Bool-cases, inl, inr,
}

-- The digit `k` of a number, the lowest first.
abbrev pub bit : ℕ → ℕ → ℕ
bit n zero = n % 2
bit n (suc k) = bit (n / 2) k

pub bit-lt : (n k : ℕ) → bit n k < 2
bit-lt n zero = omega arith
bit-lt n (suc k) = bit-lt (n / 2) k

-- `2 ^ k`
abbrev pub two_to : ℕ → ℕ
two_to zero = 1
two_to (suc k) = two_to k * 2

-- An operation on digits, with what it gives once the first number has no digit left.
record IsDigitwise (z : ℕ → ℕ) (f : ℕ → ℕ → ℕ) : Type 0 where
  digit : (a b : ℕ) → a < 2 → b < 2 → f a b < 2
  rest : (b : ℕ) → z b ≡ z (b / 2) * 2 + f 0 (b % 2)

module _ (z : ℕ → ℕ) (f : ℕ → ℕ → ℕ) (w : IsDigitwise z f) where
  -- The count of digits to go plays no part, when it is large enough.
  digits_enough : (n m a b : ℕ) → a ≤ n → a ≤ m → digits z f n a b ≡ digits z f m a b
  digits_enough zero zero a b h k = refl
  digits_enough zero (suc m) zero b h k = refl
  digits_enough (suc n) zero zero b h k = refl
  digits_enough (suc n) (suc m) zero b h k = refl
  digits_enough zero m (suc a) b h k = absurd (omega arith)
  digits_enough (suc n) zero (suc a) b h k = absurd (omega arith)
  digits_enough (suc n) (suc m) (suc a) b h k =
      let e = digits_enough n m (suc a / 2) (b / 2) (omega arith) (omega arith) in rw e refl

  bitwise_step : (a b : ℕ) → bitwise z f a b ≡ bitwise z f (a / 2) (b / 2) * 2 + f (a % 2) (b % 2)
  bitwise_step zero b = w.rest b
  bitwise_step (suc a) b =
      let e = digits_enough a (suc a / 2) (suc a / 2) (b / 2) (omega arith) (omega arith) in
      rw e refl

  bit-bitwise : (k a b : ℕ) → bit (bitwise z f a b) k ≡ f (bit a k) (bit b k)
  bit-bitwise zero a b =
      let e = bitwise_step a b in
      let small = w.digit (a % 2) (b % 2) (omega arith) (omega arith) in omega arith
  bit-bitwise (suc k) a b =
      let e = bitwise_step a b in
      let small = w.digit (a % 2) (b % 2) (omega arith) (omega arith) in
      let half : bitwise z f a b / 2 ≡ bitwise z f (a / 2) (b / 2) = omega arith in
      rw half (bit-bitwise k (a / 2) (b / 2))

  bitwise-lt : (n a b : ℕ) → f 0 0 ≡ 0 → a < two_to n → b < two_to n → bitwise z f a b < two_to n
  bitwise-lt zero a b e h k =
      let za : a ≡ 0 = omega arith in
      let zb : b ≡ 0 = omega arith in rw (za, zb) (omega (arith, w.rest 0))
  bitwise-lt (suc n) a b e h k = omega (
    arith,
    bitwise_step a b,
    w.digit (a % 2) (b % 2) (omega arith) (omega arith),
    bitwise-lt n (a / 2) (b / 2) e (omega arith) (omega arith),
  )

and_IsDigitwise : IsDigitwise (λ b. zero) min
and_IsDigitwise = record { digit = λ a b h k. omega arith; rest = λ b. omega arith }

or_IsDigitwise : IsDigitwise (λ b. b) max
or_IsDigitwise = record { digit = λ a b h k. omega arith; rest = λ b. omega arith }

differ-lt : (a b : ℕ) → a < 2 → b < 2 → differ a b < 2
differ-lt zero b h k = k
differ-lt (suc zero) zero h k = omega arith
differ-lt (suc zero) (suc b) h k = omega arith
differ-lt (suc (suc a)) b h k = absurd (omega arith)

xor_IsDigitwise : IsDigitwise (λ b. b) differ
xor_IsDigitwise = record { digit = differ-lt; rest = λ b. omega arith }

pub bit-bit_and : (a b k : ℕ) → bit (bit_and a b) k ≡ min (bit a k) (bit b k)
bit-bit_and a b k =
    ap (λ n. bit n k) (bit_and-bitwise a b) ∙ bit-bitwise (λ b. zero) min and_IsDigitwise k a b

pub bit-bit_or : (a b k : ℕ) → bit (bit_or a b) k ≡ max (bit a k) (bit b k)
bit-bit_or a b k =
    ap (λ n. bit n k) (bit_or-bitwise a b) ∙ bit-bitwise (λ b. b) max or_IsDigitwise k a b

pub bit-bit_xor : (a b k : ℕ) → bit (bit_xor a b) k ≡ differ (bit a k) (bit b k)
bit-bit_xor a b k =
    ap (λ n. bit n k) (bit_xor-bitwise a b) ∙ bit-bitwise (λ b. b) differ xor_IsDigitwise k a b

pub bit-zero : (k : ℕ) → bit 0 k ≡ 0
bit-zero zero = refl
bit-zero (suc k) = bit-zero k

pub bit-two_to : (j k : ℕ) → bit (two_to j) k ≡ (if k == j then 1 else 0)
bit-two_to zero zero = refl
bit-two_to zero (suc k) = bit-zero k ∙ ground arith
bit-two_to (suc j) zero = let even : two_to j * 2 % 2 ≡ 0 = omega arith in ground arith
bit-two_to (suc j) (suc k) =
    let half : two_to j * 2 / 2 ≡ two_to j = omega arith in rw half (bit-two_to j k ∙ ground arith)

pub some_bit : (n v : ℕ) → v < two_to n → v ≢ 0 → (k : ℕ) × (k < n) × (bit v k ≡ 1)
some_bit zero v h ne = absurd (ne (omega arith))
some_bit (suc n) v h ne = elim (Bool-cases (v % 2 == 0)) [
  | inl e ↦
      let even : v % 2 ≡ 0 = ground arith in
      let (k, a, b) = some_bit n (v / 2) (omega arith) (λ z. ne (omega arith)) in
      (suc k, omega arith, b)
  | inr e ↦ (0, omega arith, ground arith)
]

-- The digits of a number decide it.
pub bit-ext :
    (n a b : ℕ) → a < two_to n → b < two_to n → ((k : ℕ) → k < n → bit a k ≡ bit b k) → a ≡ b
bit-ext zero a b h k e = omega arith
bit-ext (suc n) a b h k e = omega (
  arith,
  bit-ext n (a / 2) (b / 2) (omega arith) (omega arith) (λ j l. e (suc j) (omega arith)),
  e 0 (omega arith),
)

pub bit-above : (n a k : ℕ) → a < two_to n → n ≤ k → bit a k ≡ 0
bit-above zero a k h l = let z : a ≡ 0 = omega arith in rw z (bit-zero k)
bit-above (suc n) a zero h l = absurd (omega arith)
bit-above (suc n) a (suc k) h l = bit-above n (a / 2) k (omega arith) (omega arith)

pub bit_and-lt : (n a b : ℕ) → a < two_to n → b < two_to n → bit_and a b < two_to n
bit_and-lt n a b h k =
    let e = bit_and-bitwise a b in rw e (bitwise-lt (λ b. zero) min and_IsDigitwise n a b refl h k)

pub bit_or-lt : (n a b : ℕ) → a < two_to n → b < two_to n → bit_or a b < two_to n
bit_or-lt n a b h k =
    let e = bit_or-bitwise a b in rw e (bitwise-lt (λ b. b) max or_IsDigitwise n a b refl h k)

pub bit_xor-lt : (n a b : ℕ) → a < two_to n → b < two_to n → bit_xor a b < two_to n
bit_xor-lt n a b h k =
    let e = bit_xor-bitwise a b in rw e (bitwise-lt (λ b. b) differ xor_IsDigitwise n a b refl h k)
