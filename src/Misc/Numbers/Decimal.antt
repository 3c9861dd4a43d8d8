-- ===== src/Misc/Numbers/Decimal.antt =====
-- The digits that `ditoa` of os/misc.c writes, read back by `dstrtol`.
use native.Mathlib.Nat.{div-add-mod', mod-lt, div-lt_iff_lt-mul}
use ece695os_lab.Prelude.{
  ◌⊎◌, ◌-◌, ◌==◌, sym, ℕ, zero, suc, ◌+◌, ◌*◌, ◌/◌, ◌%◌, ◌^◌, ◌<◌, ◌≤◌, ◌≡◌, true, false, some, ltb,
  leb, update, update_self, update-ne, refl, arith, ap, ◌∙◌, inl, inr, Bool-cases, ◌||◌,
}
use ece695os_lab.Kernel.{is_negative}
use ece695os_lab.Misc.{Bytes}
use ece695os_lab.Misc.Numbers.{digit_of, first_power, put_digits, read_digits}

-- `10 ^ i`
abbrev pub ten_to : ℕ → ℕ
ten_to zero = 1
ten_to (suc i) = ten_to i * 10

ten_to-pos : (i : ℕ) → 1 ≤ ten_to i
ten_to-pos zero = omega arith
ten_to-pos (suc i) = omega (arith, ten_to-pos i)

ten_to-small : (d i : ℕ) → d + i ≡ 9 → ten_to i ≤ 1000000000
ten_to-small zero i e = let nine : i ≡ 9 = omega arith in rw nine (omega arith)
ten_to-small (suc d) i e = omega (arith, ten_to-small d (suc i) (omega arith))

-- The first power of ten above a number.
pub first_power_lem :
    (d i n fuel : ℕ)
    → d + i ≡ 9
    → d < fuel
    → n < 1000000000
    → (j : ℕ) × (j ≤ 9) × (n < ten_to j) × (first_power fuel n (ten_to i) ≡ some (ten_to j))
unfolding first_power
first_power_lem d i n zero e enough small = absurd (omega arith)
first_power_lem zero i n (suc fuel) e enough small =
    let nine : i ≡ 9 = omega arith in
    let stop : (is_negative 1000000000 || leb 1000000000 n) ≡ false = ground arith in
    (9, omega arith, omega arith, rw nine (rw stop refl))
first_power_lem (suc d) i n (suc fuel) e enough small =
    let little = ten_to-small d (suc i) (omega arith) in
    elim (Bool-cases (leb (ten_to i) n)) [
      | inl more ↦
          let go : (is_negative (ten_to i) || leb (ten_to i) n) ≡ true = ground arith in
          let fits : ten_to i * 10 % 2 ^ 32 ≡ ten_to (suc i) = omega arith in
          let (j, a, b, c) = first_power_lem d (suc i) n fuel (omega arith) (omega arith) small in
          (j, a, b, rw go (rw fits c))
      | inr over ↦
          let stop : (is_negative (ten_to i) || leb (ten_to i) n) ≡ false = ground arith in
          (i, omega arith, ground arith, rw stop refl)
    ]

-- The `i` digits of `n` from `a` on, as the code that reads digits sees them.
pub record Digits (n a i : ℕ) (t : Bytes) : Type 0 where
  pub first : (48 ≤ t a) × (t a < 58)
  pub read :
      (fuel v : ℕ)
      → v * ten_to i + n < 2 ^ 32
      → read_digits (i + fuel) 10 v a t ≡ read_digits fuel 10 (v * ten_to i + n) (a + i) t

shift_value : (v j q r n : ℕ) → q * j + r ≡ n → (v * 10 + q) * j + r ≡ v * (j * 10) + n
shift_value v j q r n e = grind arith

at_least : (x j r b : ℕ) → 1 ≤ j → x * j + r < b → x < b
at_least x zero r b pos h = absurd (omega arith)
at_least x (suc j) r b pos h = grind arith

digit_of_lem : (q : ℕ) → q < 10 → digit_of (48 + q) ≡ q
digit_of_lem q h = ground arith

read_digits_digit :
    (fuel v c q : ℕ) (m : Bytes)
    → q < 10
    → m c ≡ 48 + q
    → v * 10 + q < 2 ^ 32
    → read_digits (suc fuel) 10 v c m ≡ read_digits fuel 10 (v * 10 + q) (c + 1) m
unfolding read_digits
read_digits_digit fuel v c q m h at fits =
    let d : digit_of (m c) ≡ q = ap digit_of at ∙ digit_of_lem q h in
    let go : ltb (digit_of (m c)) 10 ≡ true = rw d (ground arith) in
    let w : (v * 10 + digit_of (m c)) % 2 ^ 32 ≡ v * 10 + q = rw d (omega arith) in
    rw go (rw w refl)

pub Digits-cons :
    (i n a q r : ℕ) (s : Bytes)
    → q < 10
    → q * ten_to i + r ≡ n
    → s a ≡ 48 + q
    → ((fuel v : ℕ)
        → v * ten_to i + r < 2 ^ 32
        → read_digits (i + fuel) 10 v (a + 1) s
          ≡ read_digits fuel 10 (v * ten_to i + r) (a + 1 + i) s)
    → Digits n a (suc i) s
Digits-cons i n a q r s h e at rest = record {
  first = (omega arith, omega arith);
  read = λ fuel v fits.
      let same = shift_value v (ten_to i) q r n e in
      let fits' : (v * 10 + q) * ten_to i + r < 2 ^ 32 = rw same fits in
      let w = at_least (v * 10 + q) (ten_to i) r (2 ^ 32) (ten_to-pos i) fits' in
      let head : suc i + fuel ≡ suc (i + fuel) = omega arith in
      let place : a + suc i ≡ a + 1 + i = omega arith in
      rw head (
        read_digits_digit (i + fuel) v a q s h at w
        ∙ (rest fuel (v * 10 + q) fits' ∙ rw (same, place) refl));
}

pub read_digits_none :
    (a : ℕ) (s : Bytes) (fuel v : ℕ)
    → v * ten_to 0 + 0 < 2 ^ 32
    → read_digits (0 + fuel) 10 v (a + 1) s ≡ read_digits fuel 10 (v * ten_to 0 + 0) (a + 1 + 0) s
read_digits_none a s fuel v fits =
    let same : v * 1 + 0 ≡ v = omega arith in
    let none_left : 0 + fuel ≡ fuel = omega arith in
    let here : a + 1 + 0 ≡ a + 1 = omega arith in rw (same, none_left, here) refl

-- `put_digits` writes digits that are read back as the number.
pub put_digits_lem :
    (i fuel n a : ℕ) (m : Bytes)
    → n < ten_to (suc i)
    → i < fuel
    → (t : Bytes) × (put_digits fuel n (ten_to (suc i)) a m ≡ some (a + suc i, t))
      × ((b : ℕ) → (b < a) ⊎ (a + suc i ≤ b) → t b ≡ m b)
      × ((k : ℕ) → k < suc i → 48 ≤ t (a + k))
      × ((s : Bytes) (c : ℕ) → ((k : ℕ) → k < suc i → s (c + k) ≡ t (a + k)) → Digits n c (suc i) s)
unfolding put_digits
put_digits_lem i zero n a m small enough = absurd (omega arith)
put_digits_lem zero (suc fuel) n a m small enough =
    let b : (n / 1 + 48) % 256 ≡ 48 + n = omega arith in
    (
      update m a ((n / 1 + 48) % 256),
      refl,
      (λ b h. update-ne m a ((n / 1 + 48) % 256) (λ e. absurd (ground arith))),
      (λ k h.
          let place : a + k ≡ a = omega arith in
          rw place (let here = update_self m a ((n / 1 + 48) % 256) in omega arith)),
      λ s c h.
          Digits-cons 0 n c n 0 s (omega arith) (omega arith)
            (let first = h 0 (omega arith) in
              let from : c + 0 ≡ c = omega arith in
              let to : a + 0 ≡ a = omega arith in
              ap s (sym from)
              ∙ (first
                  ∙ (ap (update m a ((n / 1 + 48) % 256)) to
                      ∙ (update_self m a ((n / 1 + 48) % 256) ∙ b))))
            (read_digits_none c s),
    )
put_digits_lem (suc i) (suc fuel) n a m small enough =
    let j = ten_to (suc i) in
    let pos : 0 < j = omega (arith, ten_to-pos (suc i)) in
    let back : j * 10 / 10 ≡ j = omega arith in
    let q = n / j in
    let digit : q < 10 = (div-lt_iff_lt-mul {x = n} {y = 10} pos).1 (omega arith) in
    let m' = update m a ((q + 48) % 256) in
    let place : a + 1 + suc i ≡ a + suc (suc i) = omega arith in
    let more : leb j 1 ≡ false = ground (arith, ten_to-pos i) in
    let (t, run, before, high, digits) =
      put_digits_lem i fuel (n % j) (a + 1) m' (mod-lt n pos) (omega arith) in
    let first : t a ≡ 48 + q =
      before a (inl (omega arith)) ∙ (update_self m a ((q + 48) % 256) ∙ omega arith) in
    (
      t,
      rw back (rw more (run ∙ rw place refl)),
      (λ b h.
          before b (ground arith) ∙ update-ne m a ((q + 48) % 256) (λ e. absurd (ground arith))),
      (λ k h. elim (Bool-cases (k == 0)) [
        | inl z ↦ let place : a + k ≡ a = ground arith in rw place (omega (arith, first))
        | inr z ↦
            let place : a + k ≡ a + 1 + (k - 1) = ground arith in
            rw place (high (k - 1) (ground arith))
      ]),
      λ s c h.
          Digits-cons (suc i) n c q (n % j) s digit (div-add-mod' n j)
            (let start = h 0 (omega arith) in
              let from : c + 0 ≡ c = omega arith in
              let to : a + 0 ≡ a = omega arith in ap s (sym from) ∙ (start ∙ (ap t to ∙ first)))
            (digits s (c + 1) (λ k l.
              let from : c + 1 + k ≡ c + suc k = omega arith in
              let to : a + 1 + k ≡ a + suc k = omega arith in
              rw (from, to) (h (suc k) (omega arith)))).read,
    )
