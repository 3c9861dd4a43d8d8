-- ===== src/Setup/Texts.antt =====
-- The texts of numbers that the programs of apps/q2 to apps/q5 write for those that they create.
use ece695os_lab.Prelude.{
  ℕ, ◌+◌, ◌-◌, ◌<◌, ◌≤◌, ◌≡◌, ◌⊎◌, inl, inr, List, [], ◌∷◌, some, refl, arith, ap, sym, ◌∙◌, ltb,
  Bool-cases,
}
use ece695os_lab.Misc.{Bytes}
use ece695os_lab.Misc.Numbers.{dstrtol}
use ece695os_lab.Misc.Numbers.RoundTrip.{CopiedString, dstrtol-ditoa}
use ece695os_lab.Setup.{Traps, Session, returned, print_number}

-- A number has at most nine digits.
abbrev pub IsShort : ℕ → Type 0
IsShort n = n < 1000000000

-- The text at `a` is read as `n`, wherever it is copied to, and it ends within ten bytes.
pub record IsText (fuel n a : ℕ) (m : Bytes) : Type 0 where
  pub read :
      (s : Bytes) (c : ℕ) → CopiedString s c m a → (e : ℕ) × (dstrtol fuel c 10 s ≡ some (n, e))
  pub ends : (k : ℕ) × (k < 10) × (m (a + k) ≡ 0)

-- The numbers and the places of the texts.
abbrev pub AreTexts : ℕ → List (ℕ × ℕ) → Bytes → Type 0
AreTexts fuel [] m = Unit
AreTexts fuel ((n, a) ∷ ps) m = IsText fuel n a m × AreTexts fuel ps m

-- The ten bytes at `a` meet none of those of the places.
abbrev pub IsClear : ℕ → List ℕ → Type 0
IsClear a [] = Unit
IsClear a (b ∷ bs) = ((b + 10 ≤ a) ⊎ (a + 10 ≤ b)) × IsClear a bs

-- The places of the texts.
abbrev pub places : List (ℕ × ℕ) → List ℕ
places [] = []
places ((n, a) ∷ ps) = a ∷ places ps

pub IsText-frame :
    (fuel n a : ℕ) (m t : Bytes)
    → ((k : ℕ) → k < 10 → t (a + k) ≡ m (a + k))
    → IsText fuel n a m
    → IsText fuel n a t
IsText-frame fuel n a m t same w =
    let (z, hz, end) = w.ends in
    record {
      read = λ s c h. w.read s c (λ k going. elim (Bool-cases (ltb z k)) [
        | inl e ↦ absurd (going z (ground arith) end)
        | inr e ↦ h k (λ j l q. going j l (sym (same j (ground arith)) ∙ q)) ∙ same k (ground arith)
      ]);
      ends = (z, hz, same z hz ∙ end);
    }

AreTexts-frame :
    (fuel a : ℕ) (ps : List (ℕ × ℕ)) (m t : Bytes)
    → ((b : ℕ) → (b < a) ⊎ (a + 10 ≤ b) → t b ≡ m b)
    → IsClear a (places ps)
    → AreTexts fuel ps m
    → AreTexts fuel ps t
AreTexts-frame fuel a [] m t same clear w = tt
AreTexts-frame fuel a ((n, b) ∷ ps) m t same (apart, clear) (w, ws) = (
  IsText-frame fuel n b m t (λ k h. same (b + k) (ground arith)) w,
  AreTexts-frame fuel a ps m t same clear ws,
)

-- A number that is printed is a text, and nothing else changes.
pub print_number-IsText :
    {W : Type 0} (traps : Traps W) (fuel n a : ℕ) (c : Session W)
    → IsShort n
    → 10 < fuel
    → (t : Bytes) × (print_number traps fuel n a c ≡ (returned tt, record c { memory = t }))
      × IsText fuel n a t
      × ((b : ℕ) → (b < a) ⊎ (a + 10 ≤ b) → t b ≡ c.memory b)
unfolding print_number
print_number-IsText traps fuel n a c small enough =
    let (t, run, read, same) = dstrtol-ditoa n a fuel c.memory small enough in
    let (e, reads, end, low, high) = read t a (λ k h. refl) in
    let place : a + (e - a) ≡ e = omega arith in
    (
      t,
      rw (run, print_number) refl,
      record {
        read = λ s d h. (let z = read s d h in (z.0, z.1));
        ends = (e - a, omega arith, ap t place ∙ end);
      },
      same,
    )

-- The texts that there are stay.
pub print_number-AreTexts :
    {W : Type 0} (traps : Traps W) (fuel n a : ℕ) (ps : List (ℕ × ℕ)) (c : Session W)
    → IsShort n
    → 10 < fuel
    → IsClear a (places ps)
    → AreTexts fuel ps c.memory
    → (t : Bytes) × (print_number traps fuel n a c ≡ (returned tt, record c { memory = t }))
      × AreTexts fuel ((n, a) ∷ ps) t
print_number-AreTexts traps fuel n a ps c small enough clear w =
    let (t, run, text, same) = print_number-IsText traps fuel n a c small enough in
    (t, run, (text, AreTexts-frame fuel a ps c.memory t same clear w))
