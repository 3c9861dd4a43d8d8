-- ===== src/Misc/Tests.antt =====
-- Examples for os/misc.c.
use ece695os_lab.Prelude.{
  ◌⊎◌, ◌+◌, ◌≤◌, ℕ, zero, suc, ◌≡◌, List, [], ◌∷◌, Option, none, some, refl, arith, ◌-◌, ◌^◌, ◌<◌,
}
use ece695os_lab.Kernel.{minus_one}
use ece695os_lab.Misc.{
  Bytes, dstrncpy, dstrcat, dstrncmp, dstrlen, dstrstr, dmindex, dindex, bzero, min,
}
use ece695os_lab.Misc.Strings.{IsString, dmindex-none}
use ece695os_lab.Misc.Numbers.{ditoa, dstrtol}
use ece695os_lab.Misc.Numbers.RoundTrip.{CopiedString, dstrtol-ditoa}

-- The text from the address 10 on.
abbrev text : List ℕ → Bytes
text [] a = 0
text (c ∷ cs) zero = c
text (c ∷ cs) (suc n) = text cs n

-- "-12+" from 0 on, and "+" from 3 on.
abbrev sample : Bytes
sample = text (45 ∷ 49 ∷ 50 ∷ 43 ∷ [])

abbrev chars : ℕ → ℕ → Option Bytes → List ℕ
chars a b none = []
chars a b (some m) = m a ∷ m b ∷ []

abbrev value : Option (ℕ × ℕ) → ℕ
value none = 0
value (some (v, c)) = v

dstrncpy_lem : dstrncpy 20 0 2 sample 21 ≡ 49
unfolding dstrncpy
dstrncpy_lem = refl

dstrcat_lem : chars 30 31 (dstrcat 9 30 2 sample) ≡ 50 ∷ 43 ∷ []
unfolding dstrcat
dstrcat_lem = refl

dstrncmp_lem : dstrncmp 0 1 3 sample ≡ minus_one
unfolding dstrncmp
dstrncmp_lem = refl

dstrstr_lem : dstrstr 9 0 2 sample ≡ some 2
unfolding dstrstr dstrlen dstrncmp
dstrstr_lem = refl

dindex_lem : dindex 9 0 50 sample ≡ some 2
unfolding dindex
dindex_lem = refl

bzero_lem : bzero 1 2 sample 2 ≡ 0
unfolding bzero
bzero_lem = refl

min_lem : min minus_one 3 ≡ minus_one
unfolding min
min_lem = refl

-- `ditoa` of 42, and of -42: no digits.
ditoa_digits : chars 20 21 (ditoa 12 42 20 sample) ≡ 52 ∷ 50 ∷ []
unfolding ditoa
ditoa_digits = refl

ditoa_negative : chars 20 21 (ditoa 12 (2 ^ 32 - 42) 20 sample) ≡ 45 ∷ 0 ∷ []
unfolding ditoa
ditoa_negative = refl

dstrtol_lem : value (dstrtol 9 0 10 sample) ≡ 2 ^ 32 - 12
unfolding dstrtol
dstrtol_lem = refl

sample-IsString : IsString sample 0 (45 ∷ 49 ∷ 50 ∷ 43 ∷ [])
sample-IsString = (
  refl,
  (λ e. absurd (omega arith)),
  (
    refl,
    (λ e. absurd (omega arith)),
    (refl, (λ e. absurd (omega arith)), (refl, (λ e. absurd (omega arith)), refl)),
  ),
)

dmindex-none_example : dmindex 7 0 1 sample ≡ none
dmindex-none_example =
    dmindex-none (49 ∷ 50 ∷ 43 ∷ []) 7 0 1 sample (λ e. absurd (omega arith))
      (
        refl,
        (λ e. absurd (omega arith)),
        (refl, (λ e. absurd (omega arith)), (refl, (λ e. absurd (omega arith)), refl)),
      )
      refl

dstrtol-ditoa_example :
    (t : Bytes) × (ditoa 11 695 20 sample ≡ some t)
    × ((s : Bytes) (c : ℕ)
        → CopiedString s c t 20
        → (e : ℕ) × (dstrtol 11 c 10 s ≡ some (695, e)) × (s e ≡ 0) × (c ≤ e) × (e < c + 10))
    × ((b : ℕ) → (b < 20) ⊎ (20 + 10 ≤ b) → t b ≡ sample b)
dstrtol-ditoa_example = dstrtol-ditoa 695 20 11 sample (omega arith) (omega arith)

-- The first digit of 10 ^ 9 is a 7: the next power of ten wraps.
ditoa_wraps : chars 20 21 (ditoa 12 1000000000 20 sample) ≡ 55 ∷ 48 ∷ []
unfolding ditoa
ditoa_wraps = refl
