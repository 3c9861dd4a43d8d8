-- ===== src/Setup/Listed.antt =====
-- The texts of the numbers that krypton of apps/q5 writes, and what the programs read from them.
use ece695os_lab.Prelude.{
  ℕ, zero, suc, ◌+◌, ◌-◌, ◌<◌, ◌≤◌, ◌≡◌, ◌⊎◌, inl, inr, List, [], ◌∷◌, map, ◌==◌, length, refl,
  arith, ◌∙◌, Bool-cases,
}
use ece695os_lab.Misc.{Bytes}
use ece695os_lab.Setup.{Traps, Session, returned, number, print_number, >>=-returned, ◌>>=◌}
use ece695os_lab.Setup.Krypton.{Places, print_all}
use ece695os_lab.Setup.Children.{AreCopied, numbers, number-read}
use ece695os_lab.Setup.Texts.{IsText, IsShort, print_number-IsText, IsText-frame}

abbrev pub nth : List ℕ → ℕ → ℕ
nth [] k = 0
nth (v ∷ vs) zero = v
nth (v ∷ vs) (suc k) = nth vs k

abbrev pub AreShort : List ℕ → Type 0
AreShort [] = Unit
AreShort (v ∷ vs) = IsShort v × AreShort vs

-- The local arrays do not meet.
abbrev pub AreApart : (ℕ → ℕ) → Type 0
AreApart strs = (i j : ℕ) → i < j → (strs i + 10 ≤ strs j) ⊎ (strs j + 10 ≤ strs i)

module _ {W : Type 0} (traps : Traps W) (fuel : ℕ) (at : Places) (apart : AreApart at.strs)
    (enough : 10 < fuel) where
  -- The texts of numbers in the arrays from the one at `i` on; those before it are kept.
  pub record Listed (vs : List ℕ) (i : ℕ) (c : Session W) : Type 0 where
    pub texts : Bytes
    pub run : print_all traps fuel at vs i c ≡ (returned tt, record c { memory = texts })
    pub read : (k : ℕ) → k < length vs → IsText fuel (nth vs k) (at.strs (i + k)) texts
    pub kept :
        (j n : ℕ) → j < i → IsText fuel n (at.strs j) c.memory → IsText fuel n (at.strs j) texts

  pub print_all-Listed : (vs : List ℕ) (i : ℕ) (c : Session W) → AreShort vs → Listed vs i c
  unfolding print_all
  print_all-Listed [] i c short = record {
    texts = c.memory;
    run = refl;
    read = λ k h. absurd (omega arith);
    kept = λ j n h w. w;
  }
  print_all-Listed (v ∷ vs) i c (short, all) =
      let (t, run, w, same) = print_number-IsText traps fuel v (at.strs i) c short enough in
      let z = print_all-Listed vs (i + 1) (record c { memory = t }) all in
      record {
        texts = z.texts;
        run =
            >>=-returned (print_number traps fuel v (at.strs i))
              (λ u. print_all traps fuel at vs (i + 1)) c run
            ∙ z.run;
        read = λ k h. elim (Bool-cases (k == 0)) [
          | inl e ↦
              let first : k ≡ 0 = ground arith in
              let place : i + 0 ≡ i = omega arith in rw (first, place) (z.kept i v (omega arith) w)
          | inr e ↦
              let later : k ≡ suc (k - 1) = ground arith in
              let place : i + suc (k - 1) ≡ i + 1 + (k - 1) = omega arith in
              rw later (rw place (z.read (k - 1) (ground arith)))
        ];
        kept = λ j n h text. z.kept j n (omega arith) (
            IsText-frame fuel n (at.strs j) c.memory t
              (λ k l. same (at.strs j + k) (let side = apart j i h in ground arith)) text);
      }

-- The indices are those of the arrays.
abbrev pub AreArrays : List ℕ → Type 0
AreArrays [] = Unit
AreArrays (k ∷ ks) = (k < 12) × AreArrays ks

module _ {W : Type 0} (traps : Traps W) (fuel : ℕ) (strs : ℕ → ℕ) (vs : List ℕ) (m : Bytes)
    (texts : (k : ℕ) → k < 12 → IsText fuel (nth vs k) (strs k) m) where
  -- Copies of the texts in some of the arrays are read as their numbers.
  pub numbers-nth :
      (ks : List ℕ) (i : ℕ) (d : Session W) (argv : ℕ → ℕ)
      → AreArrays ks
      → AreCopied d.memory argv i m (map strs ks)
      → numbers traps fuel (length ks) argv i d ≡ (returned (map (nth vs) ks), d)
  unfolding numbers
  numbers-nth [] i d argv ok copies = refl
  numbers-nth (k ∷ ks) i d argv (h, hs) (copy, copies) =
      let (e, run) = (texts k h).read d.memory (argv i) copy in
      let first = number-read traps fuel (argv i) (nth vs k) e d run in
      let rest = numbers-nth ks (i + 1) d argv hs copies in
      >>=-returned (number traps fuel (argv i))
        (λ x. numbers traps fuel (length ks) argv (i + 1) >>= λ ns e. (returned (x ∷ ns), e)) d
        first
      ∙ >>=-returned (numbers traps fuel (length ks) argv (i + 1))
          (λ ns e. (returned (nth vs k ∷ ns), e)) d rest
