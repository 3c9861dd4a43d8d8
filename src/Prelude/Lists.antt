-- ===== src/Prelude/Lists.antt =====
-- Lists of addresses: length, ends, membership as a test, distinctness.
use Prim.Native.Nat.{ℕ, zero, suc, ◌+◌, ◌≤◌}
use mathlib.Core.Path.{◌≡◌, refl}
use mathlib.Core.Logic.{◌≢◌}
use mathlib.Core.Bool.{Bool, true, false, ◌||◌, or_assoc}
use mathlib.Core.List.{List, [], ◌∷◌, ◌++◌}
use native.Mathlib.Omega.{arith}
use ece695os_lab.Prelude.Tests.{◌==◌, if◌then◌else◌}

module _ {ℓ} {A : Type ℓ} where
  abbrev pub length : List A → ℕ
  length [] = 0
  length (x ∷ xs) = suc (length xs)

  abbrev pub head_or : List A → A → A
  head_or [] d = d
  head_or (x ∷ xs) d = x

  abbrev pub last_or : List A → A → A
  last_or [] d = d
  last_or (x ∷ xs) d = last_or xs x

  pub length-append : (xs ys : List A) → length (xs ++ ys) ≡ length xs + length ys
  length-append [] ys = omega arith
  length-append (x ∷ xs) ys = omega (arith, length-append xs ys)

  pub last_or-append : (xs ys : List A) (d : A) → last_or (xs ++ ys) d ≡ last_or ys (last_or xs d)
  last_or-append [] ys d = refl
  last_or-append (x ∷ xs) ys d = last_or-append xs ys x

  pub head_or-append : (xs ys : List A) (d : A) → head_or (xs ++ ys) d ≡ head_or xs (head_or ys d)
  head_or-append [] ys d = refl
  head_or-append (x ∷ xs) ys d = refl

abbrev pub has : ℕ → List ℕ → Bool
has a [] = false
has a (x ∷ xs) = (a == x) || has a xs

pub has-append : (a : ℕ) (xs ys : List ℕ) → has a (xs ++ ys) ≡ (has a xs || has a ys)
has-append a [] ys = refl
has-append a (x ∷ xs) ys = rw (has-append a xs ys, or_assoc)

-- The last entry of a list is an entry of it.
pub has-last_or : (x : ℕ) (xs : List ℕ) → has (last_or xs x) (x ∷ xs) ≡ true
has-last_or x [] = ground arith
has-last_or x (y ∷ xs) = ground (arith, has-last_or y xs)

abbrev pub Distinct : List ℕ → Type 0
Distinct [] = Unit
Distinct (x ∷ xs) = (has x xs ≡ false) × Distinct xs

-- No entry of the first list is one of the second.
abbrev pub Apart : List ℕ → List ℕ → Type 0
Apart [] ys = Unit
Apart (x ∷ xs) ys = (has x ys ≡ false) × Apart xs ys

pub Apart-has : (a : ℕ) (xs ys : List ℕ) → Apart xs ys → has a xs ≡ true → has a ys ≡ false
Apart-has a [] ys h m = cc
Apart-has a (x ∷ xs) ys h m = ground (arith, Apart-has a xs ys h.1)

pub ne_of_has_not : (a x : ℕ) (xs : List ℕ) → has x xs ≡ false → has a xs ≡ true → (a == x) ≡ false
ne_of_has_not a x [] h m = cc
ne_of_has_not a x (y ∷ xs) h m = ground (arith, ne_of_has_not a x xs)

has-cons_false :
    (a x : ℕ) (xs : List ℕ) → (a == x) ≡ false → has a xs ≡ false → has a (x ∷ xs) ≡ false
has-cons_false a x xs e h = rw (e, h)

pub Apart-has_right : (a : ℕ) (xs ys : List ℕ) → Apart xs ys → has a ys ≡ true → has a xs ≡ false
Apart-has_right a [] ys h m = refl
Apart-has_right a (x ∷ xs) ys h m =
    has-cons_false a x xs (ne_of_has_not a x ys h.0 m) (Apart-has_right a xs ys h.1 m)

-- What is neither null nor on a list is neither end of it.
pub head_or-ne :
    (a : ℕ) (xs : List ℕ) → (a == 0) ≡ false → has a xs ≡ false → (a == head_or xs 0) ≡ false
head_or-ne a [] z h = z
head_or-ne a (x ∷ xs) z h = ground arith

pub last_or-ne :
    (a d : ℕ) (xs : List ℕ) → (a == d) ≡ false → has a xs ≡ false → (a == last_or xs d) ≡ false
last_or-ne a d [] z h = z
last_or-ne a d (x ∷ xs) z h = last_or-ne a x xs (ground arith) (ground arith)

pub Distinct-split :
    (xs ys : List ℕ) → Distinct (xs ++ ys) → Distinct xs × Distinct ys × Apart xs ys
Distinct-split [] ys h = (tt, h, tt)
Distinct-split (x ∷ xs) ys h =
    let (dx, dy, apart) = Distinct-split xs ys h.1 in
    (
      (ground (arith, has-append x xs ys, h.0), dx),
      dy,
      (ground (arith, has-append x xs ys, h.0), apart),
    )

pub Apart-tail : (a : ℕ) (xs ys : List ℕ) → Apart xs (a ∷ ys) → Apart xs ys
Apart-tail a [] ys h = tt
Apart-tail a (x ∷ xs) ys h = (ground (arith, h.0), Apart-tail a xs ys h.1)

pub Distinct-join : (xs ys : List ℕ) → Distinct xs → Distinct ys → Apart xs ys → Distinct (xs ++ ys)
Distinct-join [] ys dx dy h = dy
Distinct-join (x ∷ xs) ys dx dy h =
    (ground (arith, has-append x xs ys, dx.0, h.0), Distinct-join xs ys dx.1 dy h.1)

abbrev pub IsBelow : ℕ → List ℕ → Type 0
IsBelow n [] = Unit
IsBelow n (x ∷ xs) = (x ≢ 0) × (x ≤ n) × IsBelow n xs

-- The list without an address.
unfoldable pub without : ℕ → List ℕ → List ℕ
without a [] = []
without a (x ∷ xs) = let rest = without a xs in if x == a then rest else x ∷ rest

length-without_absent : (a : ℕ) (xs : List ℕ) → has a xs ≡ false → length xs ≤ length (without a xs)
unfolding without
length-without_absent a [] h = omega arith
length-without_absent a (x ∷ xs) h = ground (arith, length-without_absent a xs)

length-without : (a : ℕ) (xs : List ℕ) → Distinct xs → length xs ≤ suc (length (without a xs))
unfolding without
length-without a [] d = omega arith
length-without a (x ∷ xs) d = ground (arith, length-without a xs d.1, length-without_absent a xs)

has-without : (b a : ℕ) (xs : List ℕ) → has b xs ≡ false → has b (without a xs) ≡ false
unfolding without
has-without b a [] h = refl
has-without b a (x ∷ xs) h = ground (arith, has-without b a xs)

pub Distinct-without : (a : ℕ) (xs : List ℕ) → Distinct xs → Distinct (without a xs)
unfolding without
Distinct-without a [] d = tt
Distinct-without a (x ∷ xs) d = ground (arith, Distinct-without a xs d.1, has-without x a xs)

IsBelow-without : (n : ℕ) (xs : List ℕ) → IsBelow (suc n) xs → IsBelow n (without (suc n) xs)
unfolding without
IsBelow-without n [] b = tt
IsBelow-without n (x ∷ xs) b = ground (arith, IsBelow-without n xs b.2)

-- Distinct addresses from 1 to n are at most n in number.
pub length-le_of_IsBelow : (n : ℕ) (xs : List ℕ) → Distinct xs → IsBelow n xs → length xs ≤ n
length-le_of_IsBelow n [] d b = omega arith
length-le_of_IsBelow zero (x ∷ xs) d b = absurd (omega arith)
length-le_of_IsBelow (suc n) (x ∷ xs) d b = omega (
  arith,
  length-without (suc n) (x ∷ xs) d,
  length-le_of_IsBelow n (without (suc n) (x ∷ xs)) (Distinct-without (suc n) (x ∷ xs) d)
      (IsBelow-without n (x ∷ xs) b),
)
