-- ===== src/Fork/Printf/Tests.antt =====
-- Examples for the printf handler.
use ece695os_lab.Prelude.{ℕ, zero, suc, ◌+◌, ◌≡◌, List, [], ◌∷◌, Option, none, some, refl, arith}
use ece695os_lab.Misc.{Bytes}
use ece695os_lab.Fork.Printf.{Words, gather}
use ece695os_lab.Fork.Printf.Format.{Piece, text, percent, conversion}
use ece695os_lab.Fork.Printf.Words.{Taken, gather-Taken}

-- The text from the address 0 on.
abbrev bytes : List ℕ → Bytes
bytes [] a = 0
bytes (c ∷ cs) zero = c
bytes (c ∷ cs) (suc n) = bytes cs n

-- "n%ld%f%%"
abbrev format : Bytes
format = bytes (110 ∷ 37 ∷ 108 ∷ 100 ∷ 37 ∷ 102 ∷ 37 ∷ 37 ∷ [])

abbrev pieces : List Piece
pieces = text 110 ∷ conversion (108 ∷ []) 100 ∷ conversion [] 102 ∷ percent ∷ []

abbrev words : Words
words i = 20 + i

abbrev unset : Words
unset i = 7

abbrev third : Option Words → ℕ
third none = 0
third (some w) = w 2

gather-Taken_example :
    (t : Words) × (gather 9 0 0 format words unset ≡ some t) × Taken 0 3 words unset t
gather-Taken_example =
    gather-Taken pieces 9 0 0 format words unset
      (
        ((λ e. absurd (omega arith)), (λ e. absurd (omega arith))),
        (((refl, tt), refl), ((tt, refl), (tt, tt))),
      )
      ((refl, tt), ((refl, (refl, (refl, tt))), ((refl, (refl, tt)), ((refl, (refl, tt)), refl))))
      (omega arith) (omega arith)

third-gather : third (gather 9 0 0 format words unset) ≡ 23
unfolding gather
third-gather = refl

-- A percent sign at the end: the loop runs on behind the text, here through the zeros until the
-- fuel is gone.
third-gather_open : third (gather 50 0 0 (bytes (37 ∷ [])) words unset) ≡ 0
unfolding gather
third-gather_open = refl

-- Ten conversions read behind the words.
third-gather_ten : third (gather 50 0 8 (bytes (37 ∷ 100 ∷ 37 ∷ 100 ∷ [])) words unset) ≡ 0
unfolding gather
third-gather_ten = refl
