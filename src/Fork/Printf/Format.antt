-- ===== src/Fork/Printf/Format.antt =====
-- The formats of printf as the handler of os/traps.c reads them, in pieces.
use ece695os_lab.Prelude.{
  ℕ, ◌+◌, ◌≡◌, ◌≢◌, Bool, true, not, ◌&&◌, ◌||◌, List, [], ◌∷◌, ◌++◌, length, ◌==◌, if◌then◌else◌,
}
use ece695os_lab.Misc.{Bytes}
use ece695os_lab.Program.Hex.{StandsAt}
use ece695os_lab.Fork.Printf.{is_double, is_letter}

-- A format in pieces: a character of text, `%%`, or a conversion with its flags and its letter.
pub data Piece : Type 0 where
  text : ℕ → Piece
  percent : Piece
  conversion : List ℕ → ℕ → Piece

-- A flag is no letter but l, and not the end.
abbrev pub is_flag : ℕ → Bool
is_flag x = (not (x == 0) && not (x == 37)) && ((x == 108) || not (is_letter x))

abbrev pub AreFlags : List ℕ → Type 0
AreFlags [] = Unit
AreFlags (x ∷ xs) = (is_flag x ≡ true) × AreFlags xs

abbrev pub IsPiece : Piece → Type 0
IsPiece (text x) = (x ≢ 0) × (x ≢ 37)
IsPiece percent = Unit
IsPiece (conversion flags x) = AreFlags flags × ((not (x == 108) && is_letter x) ≡ true)

abbrev pub piece_text : Piece → List ℕ
piece_text (text x) = x ∷ []
piece_text percent = 37 ∷ 37 ∷ []
piece_text (conversion flags x) = 37 ∷ (flags ++ (x ∷ []))

-- The words that printf takes for a piece.
abbrev pub piece_words : Piece → ℕ
piece_words (text x) = 0
piece_words percent = 0
piece_words (conversion flags x) = if is_double x then 2 else 1

abbrev pub format_words : List Piece → ℕ
format_words [] = 0
format_words (p ∷ ps) = piece_words p + format_words ps

abbrev pub format_length : List Piece → ℕ
format_length [] = 0
format_length (p ∷ ps) = length (piece_text p) + format_length ps

abbrev pub ArePieces : List Piece → Type 0
ArePieces [] = Unit
ArePieces (p ∷ ps) = IsPiece p × ArePieces ps

-- The pieces stand in the memory from `c` on, with the end behind them.
abbrev pub IsFormat : Bytes → ℕ → List Piece → Type 0
IsFormat m c [] = m c ≡ 0
IsFormat m c (p ∷ ps) = StandsAt m c (piece_text p) × IsFormat m (c + length (piece_text p)) ps
