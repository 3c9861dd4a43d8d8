-- ===== src/Misc/Regions.antt =====
-- What `bcopy` of os/misc.c does on regions that do not overlap.
use ece695os_lab.Prelude.{
  ℕ, zero, suc, ◌+◌, ◌≤◌, ◌<◌, ◌^◌, ◌≡◌, ◌⊎◌, inl, inr, false, ◌==◌, refl, arith, ap, ◌-◌, update,
  update_self, update-ne, ◌∙◌, Bool-cases,
}
use ece695os_lab.Kernel.{is_negative}
use ece695os_lab.Misc.{Bytes, bcopy, copy_region}

-- The `n` bytes from `src` on stand from `dst` on too, and no other byte has changed.
pub record Moved (m t : Bytes) (src dst n : ℕ) : Type 0 where
  pub copied : (i : ℕ) → i < n → t (dst + i) ≡ m (src + i)
  before : (a : ℕ) → a < dst → t a ≡ m a
  behind : (a : ℕ) → dst + n ≤ a → t a ≡ m a

copy_region-Moved :
    (n src dst : ℕ) (m : Bytes)
    → (dst + n ≤ src) ⊎ (src + n ≤ dst)
    → Moved m (copy_region n src dst m) src dst n
unfolding copy_region
copy_region-Moved zero src dst m apart = record {
  copied = λ i h. absurd (omega arith);
  before = λ a h. refl;
  behind = λ a h. refl;
}
copy_region-Moved (suc n) src dst m apart =
    let m' = update m dst (m src) in
    let t = copy_region n (src + 1) (dst + 1) m' in
    let z =
      copy_region-Moved n (src + 1) (dst + 1) m'
        (elim apart [ inl h ↦ inl (omega arith) | inr h ↦ inr (omega arith) ]) in
    record {
      copied = λ i h. elim (Bool-cases (i == 0)) [
        | inl e ↦
            let zeroth : i ≡ 0 = ground arith in
            ap t (omega arith)
            ∙ (z.before dst (omega arith) ∙ (update_self m dst (m src) ∙ ap m (omega arith)))
        | inr e ↦
            let later : 0 < i = ground arith in
            ap t (omega arith)
            ∙ (z.copied (i - 1) (omega arith)
                ∙ (ap m' (omega arith)
                    ∙ update-ne m dst (m src) {j = src + i} (λ d. absurd (omega arith))))
      ];
      before =
          λ a h. z.before a (omega arith) ∙ update-ne m dst (m src) (λ e. absurd (omega arith));
      behind =
          λ a h. z.behind a (omega arith) ∙ update-ne m dst (m src) (λ e. absurd (omega arith));
    }

-- `bcopy` between regions that do not overlap copies every byte, and changes no other.
pub bcopy-Moved :
    (src dst n : ℕ) (m : Bytes)
    → n < 2 ^ 31
    → (dst + n ≤ src) ⊎ (src + n ≤ dst)
    → Moved m (bcopy src dst n m) src dst n
unfolding bcopy
bcopy-Moved src dst n m small apart =
    let e : is_negative n ≡ false = ground arith in rw e (copy_region-Moved n src dst m apart)

copy_region-kept :
    (n src dst a : ℕ) (m : Bytes) → (a < dst) ⊎ (dst + n ≤ a) → copy_region n src dst m a ≡ m a
unfolding copy_region
copy_region-kept zero src dst a m out = refl
copy_region-kept (suc n) src dst a m out =
    let behind : (a < dst + 1) ⊎ (dst + 1 + n ≤ a) = elim out [
      | inl h ↦ inl (omega (arith, h))
      | inr h ↦ inr (omega (arith, h))
    ] in
    let ne : (a == dst) ≡ false = elim out [ inl h ↦ ground arith | inr h ↦ ground arith ] in
    copy_region-kept n (src + 1) (dst + 1) a (update m dst (m src)) behind ∙ rw ne refl

-- `bcopy` changes no byte outside its target, whether the regions overlap or not.
pub bcopy-kept :
    (src dst n a : ℕ) (m : Bytes) → (a < dst) ⊎ (dst + n ≤ a) → bcopy src dst n m a ≡ m a
unfolding bcopy
bcopy-kept src dst n a m out = elim (Bool-cases (is_negative n)) [
  | inl e ↦ rw e (copy_region-kept 0 src dst a m (ground arith))
  | inr e ↦ rw e (copy_region-kept n src dst a m out)
]
