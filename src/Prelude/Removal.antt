-- ===== src/Prelude/Removal.antt =====
-- The list without an address: its entries, its length and its bounds.
use Prim.Native.Nat.{ℕ, suc, ◌≤◌}
use mathlib.Core.Path.{◌≡◌, refl, ap, ◌∙◌}
use mathlib.Core.Logic.{inl, inr}
use mathlib.Core.Bool.{true, false, not, ◌&&◌, ◌||◌}
use mathlib.Core.List.{List, [], ◌∷◌}
use native.Mathlib.Omega.{arith}
use ece695os_lab.Prelude.Tests.{◌==◌, Bool-cases}
use ece695os_lab.Prelude.Lists.{length, has, Distinct, IsBelow, without}

pub has-without_all : (q p : ℕ) (xs : List ℕ) → has q (without p xs) ≡ (not (q == p) && has q xs)
unfolding without
has-without_all q p [] = ground arith
has-without_all q p (x ∷ xs) = ground (arith, has-without_all q p xs)

pub without_absent : (p : ℕ) (xs : List ℕ) → has p xs ≡ false → without p xs ≡ xs
unfolding without
without_absent p [] h = refl
without_absent p (x ∷ xs) h = ground (arith, without_absent p xs)

pub length-without_member :
    (p : ℕ) (xs : List ℕ) → Distinct xs → has p xs ≡ true → suc (length (without p xs)) ≡ length xs
unfolding without
length-without_member p [] d h = cc
length-without_member p (x ∷ xs) d h =
    ground (arith, length-without_member p xs d.1, without_absent p xs, d.0)

pub IsBelow-without_all : (n p : ℕ) (xs : List ℕ) → IsBelow n xs → IsBelow n (without p xs)
unfolding without
IsBelow-without_all n p [] b = tt
IsBelow-without_all n p (x ∷ xs) b = ground (arith, IsBelow-without_all n p xs b.2, b.0, b.1)

pub has-IsBelow : (n p : ℕ) (xs : List ℕ) → IsBelow n xs → has p xs ≡ true → (1 ≤ p) × (p ≤ n)
has-IsBelow n p [] b h = cc
has-IsBelow n p (x ∷ xs) b h = ground (arith, has-IsBelow n p xs b.2, b.0, b.1)

-- An entry that moves from one list to another.
module _ (q p : ℕ) (xs ys : List ℕ) (h : has p xs ≡ true) (k : has p ys ≡ false) where
  pub has-without_cons_and : (has q (without p xs) && has q (p ∷ ys)) ≡ (has q xs && has q ys)
  has-without_cons_and =
      let f = has-without_all q p xs in
      elim (Bool-cases (q == p)) [
        | inl e ↦
            let same : q ≡ p = ground arith in
            let there : has q ys ≡ false = ap (λ n. has n ys) same ∙ k in ground arith
        | inr e ↦ ground arith
      ]

  pub has-without_cons_or : (has q (without p xs) || has q (p ∷ ys)) ≡ (has q xs || has q ys)
  has-without_cons_or =
      let f = has-without_all q p xs in
      elim (Bool-cases (q == p)) [
        | inl e ↦
            let same : q ≡ p = ground arith in
            let here : has q xs ≡ true = ap (λ n. has n xs) same ∙ h in ground arith
        | inr e ↦ ground arith
      ]
