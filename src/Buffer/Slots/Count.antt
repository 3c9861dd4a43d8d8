-- ===== src/Buffer/Slots/Count.antt =====
-- How many programs are at a stage.
use ece695os_lab.Prelude.{
  ℕ, zero, suc, ◌+◌, ◌<◌, ◌≤◌, ◌≡◌, ◌==◌, update, refl, arith, Bool-cases, ◌⊎◌, inl, inr,
}
use ece695os_lab.Buffer.Slots.{Stage, before, inside, behind}

abbrev pub at_inside : Stage → ℕ
at_inside x = elim x [ before ↦ 0 | inside ↦ 1 | behind ↦ 0 ]

abbrev pub at_behind : Stage → ℕ
at_behind x = elim x [ before ↦ 0 | inside ↦ 0 | behind ↦ 1 ]

-- The sum over the programs below `n`.
pub total : (Stage → ℕ) → (ℕ → Stage) → ℕ → ℕ
total w f zero = 0
total w f (suc n) = w (f n) + total w f n

total-above :
    (w : Stage → ℕ) (f : ℕ → Stage) (i n : ℕ) (x : Stage)
    → n ≤ i
    → total w (update f i x) n ≡ total w f n
unfolding total
total-above w f i zero x h = refl
total-above w f i (suc n) x h = ground (arith, total-above w f i n x)

pub total-update :
    (w : Stage → ℕ) (f : ℕ → Stage) (i n : ℕ) (x : Stage)
    → i < n
    → total w (update f i x) n + w (f i) ≡ total w f n + w x
unfolding total
total-update w f i zero x h = absurd (omega arith)
total-update w f i (suc n) x h = ground (arith, total-above w f i n x, total-update w f i n x)

pub total-ge : (w : Stage → ℕ) (f : ℕ → Stage) (i n : ℕ) → i < n → w (f i) ≤ total w f n
unfolding total
total-ge w f i zero h = absurd (omega arith)
total-ge w f i (suc n) h = ground (arith, total-ge w f i n)

pub total-none : (w : Stage → ℕ) (n : ℕ) → w before ≡ 0 → total w (λ i. before) n ≡ 0
unfolding total
total-none w zero e = refl
total-none w (suc n) e = omega (arith, total-none w n e)

-- Either no program is at the stage, or one is.
pub total-cases :
    (w : Stage → ℕ) (f : ℕ → Stage) (n : ℕ)
    → (total w f n ≡ 0) ⊎ ((i : ℕ) × (i < n) × (0 < w (f i)))
unfolding total
total-cases w f zero = inl refl
total-cases w f (suc n) = elim (total-cases w f n) [
  | inr (i, h, e) ↦ inr (i, omega arith, e)
  | inl z ↦ elim (Bool-cases (w (f n) == 0)) [
    | inl e ↦ inl (ground arith)
    | inr e ↦ inr (n, omega arith, ground arith)
  ]
]
