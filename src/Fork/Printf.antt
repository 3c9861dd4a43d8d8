-- ===== src/Fork/Printf.antt =====
-- The printf handler of os/traps.c: the format and the words that are handed to printf.
pub mod Format
pub mod Words
mod Tests
use ece695os_lab.Prelude.{
  ℕ, zero, suc, ◌+◌, ◌-◌, ◌*◌, Bool, true, false, not, ◌&&◌, ◌||◌, Option, none, some, ◌==◌, ltb,
  leb, if◌then◌else◌, update,
}
use ece695os_lab.Misc.{Bytes, bcopy, dstrncpy}
use ece695os_lab.Fork.{Computer, Platform, bytes_of, put_bytes}
use ece695os_lab.Fork.Create.{from_user, copy_string, word, set_byte}
use ece695os_lab.State.{Step, ◌>>=◌, ◌>>◌, gets, modify, need}

-- An array of words by the index.
abbrev pub Words : Type 0
Words = ℕ → ℕ

abbrev pub is_double : ℕ → Bool
is_double x = (x == 102) || ((x == 103) || (x == 101))

abbrev pub is_letter : ℕ → Bool
is_letter x = leb 97 x && leb x 122

-- The loop from behind a percent sign to the letter that ends the conversion, on fuel: the place of
-- the letter. An l is passed over.
pub skip_flags : ℕ → ℕ → Bytes → Option ℕ
skip_flags zero c m = none
skip_flags (suc fuel) c m =
    let rest = skip_flags fuel (c + 1) m in
    let x = m (c + 1) in if not (x == 108) && is_letter x then some (c + 1) else rest

-- `printfArgs[nargs] = args[nargs+1]`; an index out of the ten words of each is `none`.
pub take_word : ℕ → Words → Words → Option Words
take_word nargs args to = if ltb nargs 9 then some (update to nargs (args (nargs + 1))) else none

-- One conversion: where the text goes on, the number of words and the words.
pub convert : ℕ → ℕ → ℕ → Bytes → Words → Words → Option (ℕ × ℕ × Words)
convert fuel c nargs m args to = elim (take_word nargs args to) [
  | none ↦ none
  | some to' ↦ elim (skip_flags fuel c m) [
    | none ↦ none
    | some e ↦
        if is_double (m e)
        then elim (take_word (nargs + 1) args to') [
          | none ↦ none
          | some both ↦ some (e + 1, nargs + 2, both)
        ]
        else some (e + 1, nargs + 1, to')
  ]
]

-- The loop over the format, on fuel.
unfoldable pub gather : ℕ → ℕ → ℕ → Bytes → Words → Words → Option Words
unfolding skip_flags take_word convert
gather zero c nargs m args to = none
gather (suc fuel) c nargs m args to =
    if m c == 0
    then some to
    else elim (if not (m c == 37)
        then some (c + 1, nargs, to)
        else if m (c + 1) == 37
        then some (c + 2, nargs, to)
        else convert fuel c nargs m args to) [
          | none ↦ none
          | some (d, n, next) ↦ gather fuel d n m args next
        ]

module _ {W : Type 0} (pf : Platform W) where
  abbrev format_size : ℕ
  format_size = 80

  abbrev words_at : ℕ → Computer W → Words
  words_at args c i = word pf (args + 4 * i) c

  -- The ten words and the format, from a process or from the system itself, where `dstrncpy` is
  -- given the format as its destination.
  fetch_format : ℕ → Bool → ℕ → ℕ → Step (Computer W) (Unit {0})
  unfolding copy_string
  fetch_format trap_args false formatstr args = do
    from_user pf trap_args args 40
    format ← gets (word pf args)
    copy_string pf format_size format_size format formatstr 0
    set_byte pf (formatstr + format_size - 1) 0
  fetch_format trap_args true formatstr args = do
    modify (λ c. put_bytes pf (bcopy trap_args args 40 (bytes_of pf c)) c)
    modify (λ c. put_bytes pf (dstrncpy (word pf args c) formatstr format_size (bytes_of pf c)) c)
    set_byte pf (formatstr + format_size - 1) 0

  -- `TrapPrintfHandler` up to its call of printf, with the places of its local variables. The result
  -- is the array of words, of which printf is given the first eight; `unset` is what the array holds
  -- before.
  pub trap_printf : Words → ℕ → Bool → ℕ → ℕ → Step (Computer W) Words
  unfolding fetch_format gather
  trap_printf unset trap_args sysmode formatstr args = do
    fetch_format trap_args sysmode formatstr args
    need (λ c. gather pf.layout.fuel formatstr 0 (bytes_of pf c) (words_at args c) unset)
