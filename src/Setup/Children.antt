-- ===== src/Setup/Children.antt =====
-- What the producers, the consumers and the reactions of apps/q2 to apps/q5 do before their loops:
-- the handles and numbers from their arguments, and the shared page.
mod Tests
use ece695os_lab.Prelude.{
  ℕ, zero, suc, ◌+◌, ◌≡◌, ◌==◌, not, List, [], ◌∷◌, length, head_or, map, ◌∙◌, refl, some, ◌≢◌,
  false, arith,
}
use ece695os_lab.Misc.{Bytes}
use ece695os_lab.Misc.Numbers.{dstrtol}
use ece695os_lab.Misc.Numbers.RoundTrip.{CopiedString}
use ece695os_lab.Setup.{
  Traps, Session, returned, User, ◌>>=◌, ◌>>◌, >>=-returned, exit_if, trap, number,
}
use ece695os_lab.Setup.Texts.{IsText, AreTexts, places}

-- The arguments from `argv[i]` on are copies of the texts at the places.
abbrev pub AreCopied : Bytes → (ℕ → ℕ) → ℕ → Bytes → List ℕ → Type 0
AreCopied s argv i m [] = Unit
AreCopied s argv i m (a ∷ bs) = CopiedString s (argv i) m a × AreCopied s argv (i + 1) m bs

module _ {W : Type 0} (traps : Traps W) (fuel : ℕ) where
  -- `dstrtol` of as many arguments from `argv[i]` on.
  unfoldable pub numbers : ℕ → (ℕ → ℕ) → ℕ → User W (List ℕ)
  numbers zero argv i c = (returned [], c)
  numbers (suc k) argv i c =
      (do n ← number traps fuel (argv i); ns ← numbers k argv (i + 1); λ d. (returned (n ∷ ns), d))
        c

  -- A program with `count` arguments, of which the first is the handle of the page: the numbers, and
  -- the place of the page.
  unfoldable pub start_program : ℕ → ℕ → (ℕ → ℕ) → User W (List ℕ × ℕ)
  unfolding numbers
  start_program count argc argv = do
    exit_if (not (argc == count + 1))
    ns ← numbers count argv 1
    page ← trap (traps.shmat (head_or ns 0))
    exit_if (page == 0)
    λ d. (returned (ns, page), d)

  pub busy_producer_start : ℕ → (ℕ → ℕ) → User W (List ℕ × ℕ)
  unfolding start_program
  busy_producer_start = start_program 3

  pub busy_consumer_start : ℕ → (ℕ → ℕ) → User W (List ℕ × ℕ)
  unfolding start_program
  busy_consumer_start = start_program 3

  pub slots_producer_start : ℕ → (ℕ → ℕ) → User W (List ℕ × ℕ)
  unfolding start_program
  slots_producer_start = start_program 5

  pub slots_consumer_start : ℕ → (ℕ → ℕ) → User W (List ℕ × ℕ)
  unfolding start_program
  slots_consumer_start = start_program 5

  pub cond_producer_start : ℕ → (ℕ → ℕ) → User W (List ℕ × ℕ)
  unfolding start_program
  cond_producer_start = start_program 5

  pub cond_consumer_start : ℕ → (ℕ → ℕ) → User W (List ℕ × ℕ)
  unfolding start_program
  cond_consumer_start = start_program 5

  unfoldable pub producer_n_start : ℕ → (ℕ → ℕ) → User W (List ℕ × ℕ)
  unfolding start_program
  producer_n_start = start_program 5

  unfoldable pub producer_o_start : ℕ → (ℕ → ℕ) → User W (List ℕ × ℕ)
  unfolding start_program
  producer_o_start = start_program 5

  unfoldable pub reaction_1_start : ℕ → (ℕ → ℕ) → User W (List ℕ × ℕ)
  unfolding start_program
  reaction_1_start = start_program 6

  unfoldable pub reaction_2_start : ℕ → (ℕ → ℕ) → User W (List ℕ × ℕ)
  unfolding start_program
  reaction_2_start = start_program 7

  unfoldable pub reaction_3_start : ℕ → (ℕ → ℕ) → User W (List ℕ × ℕ)
  unfolding start_program
  reaction_3_start = start_program 6

  unfoldable pub reaction_4_start : ℕ → (ℕ → ℕ) → User W (List ℕ × ℕ)
  unfolding start_program
  reaction_4_start = start_program 6

  pub number-read :
      (a n e : ℕ) (d : Session W)
      → dstrtol fuel a 10 d.memory ≡ some (n, e)
      → number traps fuel a d ≡ (returned n, d)
  unfolding number
  number-read a n e d run = rw (run, number) refl

  -- A program that reads its numbers attaches the page whose handle is the first of them.
  pub start_program-attached :
      (count : ℕ) (argv : ℕ → ℕ) (ns : List ℕ) (page : ℕ) (w : W) (d : Session W)
      → numbers count argv 1 d ≡ (returned ns, d)
      → traps.shmat (head_or ns 0) d.world ≡ (page, w)
      → page ≢ 0
      → start_program count (count + 1) argv d ≡ (returned (ns, page), record d { world = w })
  unfolding start_program
  start_program-attached count argv ns page w d read attach some_page =
      let z : (page == 0) ≡ false = ground arith in ground (arith, read, attach)

  -- Copies of the texts of numbers are read as those numbers.
  pub numbers-AreTexts :
      (ps : List (ℕ × ℕ)) (argv : ℕ → ℕ) (i : ℕ) (m : Bytes) (d : Session W)
      → AreTexts fuel ps m
      → AreCopied d.memory argv i m (places ps)
      → numbers (length ps) argv i d ≡ (returned (map (λ p. p.0) ps), d)
  unfolding numbers
  numbers-AreTexts [] argv i m d w h = refl
  numbers-AreTexts ((n, a) ∷ ps) argv i m d (w, ws) (h, hs) =
      let (e, run) = w.read d.memory (argv i) h in
      let first = number-read (argv i) n e d run in
      let rest = numbers-AreTexts ps argv (i + 1) m d ws hs in
      >>=-returned (number traps fuel (argv i))
        (λ x. numbers (length ps) argv (i + 1) >>= λ ns e. (returned (x ∷ ns), e)) d first
      ∙ >>=-returned (numbers (length ps) argv (i + 1)) (λ ns e. (returned (n ∷ ns), e)) d rest
