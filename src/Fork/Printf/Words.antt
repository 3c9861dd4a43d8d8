-- ===== src/Fork/Printf/Words.antt =====
-- The words that the printf handler of os/traps.c takes for a format.
use ece695os_lab.Prelude.{
  ℕ, zero, suc, ◌+◌, ◌<◌, ◌≤◌, ◌≡◌, true, false, not, ◌&&◌, some, List, [], ◌∷◌, ◌++◌, length, ◌==◌,
  ltb, update, update_self, update-ne, refl, arith, ◌∙◌, Bool-cases, inl, inr,
}
use ece695os_lab.Misc.{Bytes}
use ece695os_lab.Program.Hex.{StandsAt}
use ece695os_lab.Fork.Printf.{Words, is_double, is_letter, skip_flags, take_word, convert, gather}
use ece695os_lab.Fork.Printf.Format.{
  Piece, text, percent, conversion, AreFlags, IsPiece, piece_text, piece_words, format_words,
  format_length, ArePieces, IsFormat,
}

skip_flags-letter :
    (flags : List ℕ) (fuel c x : ℕ) (m : Bytes)
    → length flags < fuel
    → AreFlags flags
    → (not (x == 108) && is_letter x) ≡ true
    → StandsAt m (c + 1) (flags ++ (x ∷ []))
    → skip_flags fuel c m ≡ some (c + 1 + length flags)
unfolding skip_flags
skip_flags-letter flags zero c x m enough ok letter at = absurd (omega arith)
skip_flags-letter [] (suc fuel) c x m enough ok letter (e, u) =
    let place : c + 1 + 0 ≡ c + 1 = omega arith in rw (e, skip_flags) (rw letter (rw place refl))
skip_flags-letter (y ∷ ys) (suc fuel) c x m enough (flag, ok) letter (e, at) =
    let go : (not (y == 108) && is_letter y) ≡ false = ground arith in
    let place : c + 1 + suc (length ys) ≡ c + 1 + 1 + length ys = omega arith in
    rw (e, skip_flags)
      (rw go (rw place (skip_flags-letter ys fuel (c + 1) x m (omega arith) ok letter at)))

-- The words from `n` to `k` are those of the process, and the words before them as they were.
pub record Taken (n k : ℕ) (args to t : Words) : Type 0 where
  pub new : (i : ℕ) → n ≤ i → i < k → t i ≡ args (i + 1)
  pub old : (i : ℕ) → i < n → t i ≡ to i

-- What the loop does at a piece.
record Passed (p : Piece) (fuel c n : ℕ) (m : Bytes) (args to : Words) : Type 0 where
  next : Words
  run :
      gather (suc fuel) c n m args to
      ≡ gather fuel (c + length (piece_text p)) (n + piece_words p) m args next
  taken : Taken n (n + piece_words p) args to next

take_word-Taken :
    (n : ℕ) (args to : Words)
    → n < 9
    → (t : Words) × (take_word n args to ≡ some t) × Taken n (n + 1) args to t
unfolding take_word
take_word-Taken n args to h =
    let room : ltb n 9 ≡ true = ground arith in
    (
      update to n (args (n + 1)),
      rw room refl,
      record {
        new = λ i a b. let e : i ≡ n = omega arith in rw e (update_self to n (args (n + 1)));
        old = λ i a. update-ne to n (args (n + 1)) (λ e. absurd (omega arith));
      },
    )

Taken-trans :
    {n k l : ℕ} {args to t u : Words}
    → n ≤ k
    → Taken n k args to t
    → Taken k l args t u
    → Taken n l args to u
Taken-trans {n} {k} {l} {args} {to} {t} {u} h p q = record {
  new = λ i a b. elim (Bool-cases (ltb i k)) [
    | inl e ↦ q.old i (ground arith) ∙ p.new i a (ground arith)
    | inr e ↦ q.new i (ground arith) b
  ];
  old = λ i a. q.old i (omega arith) ∙ p.old i a;
}

Taken-none : (n : ℕ) (args to : Words) → Taken n (n + 0) args to to
Taken-none n args to = record { new = λ i a b. absurd (omega arith); old = λ i a. refl }

Passed-text :
    (x fuel c n : ℕ) (m : Bytes) (args to : Words)
    → IsPiece (text x)
    → StandsAt m c (piece_text (text x))
    → Passed (text x) fuel c n m args to
unfolding gather
Passed-text x fuel c n m args to (a, b) (e, u) =
    let more : (m c == 0) ≡ false = ground arith in
    let plain : (m c == 37) ≡ false = ground arith in
    let same : n + 0 ≡ n = omega arith in
    record {
      next = to;
      run = rw (more, gather) (rw plain (rw same refl));
      taken = Taken-none n args to;
    }

Passed-percent :
    (fuel c n : ℕ) (m : Bytes) (args to : Words)
    → StandsAt m c (piece_text percent)
    → Passed percent fuel c n m args to
unfolding gather
Passed-percent fuel c n m args to (e, (f, u)) =
    let same : n + 0 ≡ n = omega arith in
    record { next = to; run = rw (e, gather) (rw f (rw same refl)); taken = Taken-none n args to }

length-snoc : (xs : List ℕ) (x : ℕ) → length (xs ++ (x ∷ [])) ≡ length xs + 1
length-snoc [] x = refl
length-snoc (y ∷ ys) x = omega (arith, length-snoc ys x)

StandsAt-snoc :
    (xs : List ℕ) (x c : ℕ) (m : Bytes) → StandsAt m c (xs ++ (x ∷ [])) → m (c + length xs) ≡ x
StandsAt-snoc [] x c m (e, u) = let place : c + 0 ≡ c = omega arith in rw place e
StandsAt-snoc (y ∷ ys) x c m (e, at) =
    let place : c + suc (length ys) ≡ c + 1 + length ys = omega arith in
    rw place (StandsAt-snoc ys x (c + 1) m at)

conversion-plain :
    (flags : List ℕ) (x c : ℕ) (m : Bytes)
    → IsPiece (conversion flags x)
    → StandsAt m c (flags ++ (x ∷ []))
    → (m c == 37) ≡ false
conversion-plain [] x c m (ok, letter) (e, u) = ground arith
conversion-plain (y ∷ ys) x c m ((flag, ok), letter) (e, at) = ground arith

module _ (flags : List ℕ) (x fuel c n : ℕ) (m : Bytes) (args to : Words)
    (ok : IsPiece (conversion flags x)) (at : StandsAt m (c + 1) (flags ++ (x ∷ [])))
    (enough : length flags < fuel) where
  -- A conversion that takes `k` words.
  Converts : ℕ → Type 0
  Converts k =
      (t : Words) × (convert fuel c n m args to ≡ some (c + 1 + length flags + 1, n + k, t))
      × Taken n (n + k) args to t

  abbrev skip : skip_flags fuel c m ≡ some (c + 1 + length flags)
  skip = skip_flags-letter flags fuel c x m enough ok.0 ok.1 at

  abbrev last : m (c + 1 + length flags) ≡ x
  last = StandsAt-snoc flags x (c + 1) m at

  convert-double : is_double x ≡ true → n + 2 ≤ 9 → Converts 2
  unfolding convert Converts
  convert-double d fit =
      let (t, one, taken) = take_word-Taken n args to (omega arith) in
      let (u, two, taken') = take_word-Taken (n + 1) args t (omega arith) in
      let both : n + 1 + 1 ≡ n + 2 = omega arith in
      (
        u,
        rw (one, convert) (rw skip (rw last (rw d (rw two refl)))),
        Taken-trans {k = n + 1} (omega arith) taken (rw both at taken'),
      )

  convert-single : is_double x ≡ false → n + 1 ≤ 9 → Converts 1
  unfolding convert Converts
  convert-single d fit =
      let (t, one, taken) = take_word-Taken n args to (omega arith) in
      (t, rw (one, convert) (rw skip (rw last (rw d refl))), taken)

  convert-Taken :
      n + piece_words (conversion flags x) ≤ 9 → Converts (piece_words (conversion flags x))
  convert-Taken fit = elim (Bool-cases (is_double x)) [
    | inl d ↦
        let two : piece_words (conversion flags x) ≡ 2 = rw d refl in
        rw two (convert-double d (rw two at fit))
    | inr d ↦
        let one : piece_words (conversion flags x) ≡ 1 = rw d refl in
        rw one (convert-single d (rw one at fit))
  ]

Passed-conversion :
    (flags : List ℕ) (x fuel c n : ℕ) (m : Bytes) (args to : Words)
    → IsPiece (conversion flags x)
    → StandsAt m c (piece_text (conversion flags x))
    → length flags < fuel
    → n + piece_words (conversion flags x) ≤ 9
    → Passed (conversion flags x) fuel c n m args to
unfolding gather Converts
Passed-conversion flags x fuel c n m args to ok (e, at) enough fit =
    let plain = conversion-plain flags x (c + 1) m ok at in
    let (t, run, taken) = convert-Taken flags x fuel c n m args to ok at enough fit in
    let place : c + suc (length (flags ++ (x ∷ []))) ≡ c + 1 + length flags + 1 =
      omega (arith, length-snoc flags x) in
    record { next = t; run = rw (e, gather) (rw plain (rw (run, place) refl)); taken = taken }

pass :
    (p : Piece) (fuel c n : ℕ) (m : Bytes) (args to : Words)
    → IsPiece p
    → StandsAt m c (piece_text p)
    → length (piece_text p) ≤ fuel
    → n + piece_words p ≤ 9
    → Passed p fuel c n m args to
pass (text x) fuel c n m args to ok at enough fit = Passed-text x fuel c n m args to ok at
pass percent fuel c n m args to ok at enough fit = Passed-percent fuel c n m args to at
pass (conversion flags x) fuel c n m args to ok at enough fit =
    Passed-conversion flags x fuel c n m args to ok at (omega (arith, length-snoc flags x)) fit

piece_text-some : (p : Piece) → 1 ≤ length (piece_text p)
piece_text-some (text x) = omega arith
piece_text-some percent = omega arith
piece_text-some (conversion flags x) = omega arith

-- TrapPrintfHandler takes exactly the words of a format: for one whose conversions are all complete
-- and that asks for nine words at most, with a round of fuel for each of its characters and one
-- more, the loop ends, the words from the first free place on are those behind the format in the
-- arguments, in order, and the words before them are as they were.
pub gather-Taken :
    (ps : List Piece) (fuel c n : ℕ) (m : Bytes) (args to : Words)
    → ArePieces ps
    → IsFormat m c ps
    → n + format_words ps ≤ 9
    → format_length ps < fuel
    → (t : Words) × (gather fuel c n m args to ≡ some t) × Taken n (n + format_words ps) args to t
unfolding gather
gather-Taken ps zero c n m args to ok at fit enough = absurd (omega arith)
gather-Taken [] (suc fuel) c n m args to ok at fit enough =
    (to, rw (at, gather) refl, Taken-none n args to)
gather-Taken (p ∷ ps) (suc fuel) c n m args to (ok, all) (at, rest) fit enough =
    let some_text = piece_text-some p in
    let z = pass p fuel c n m args to ok at (omega arith) (omega arith) in
    let (t, run, taken) =
      gather-Taken ps fuel (c + length (piece_text p)) (n + piece_words p) m args z.next all rest
        (omega arith) (omega (arith, some_text)) in
    let sum : n + (piece_words p + format_words ps) ≡ n + piece_words p + format_words ps =
      omega arith in
    (t, z.run ∙ run, rw sum (Taken-trans (omega arith) z.taken taken))
