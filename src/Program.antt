-- ===== src/Program.antt =====
-- The loader of program files in os/process.c: the header of a file, and its lines of hex digits.
pub mod Hex
pub mod Disk
mod Tests
use ece695os_lab.Prelude.{
  ℕ, zero, suc, ◌+◌, ◌-◌, ◌*◌, ◌%◌, ◌^◌, Bool, true, false, not, ◌&&◌, ◌||◌, Option, none, some,
  ◌==◌, ltb, leb, if◌then◌else◌, update,
}
use ece695os_lab.Kernel.{is_negative, minus_one}
use ece695os_lab.Misc.{Bytes, dindex, dstrstr}
use ece695os_lab.Misc.Numbers.{dstrtol}
use ece695os_lab.Arguments.{getxvalue}
use ece695os_lab.Files
use ece695os_lab.Files.{Files, Host}
use ece695os_lab.State.{Step, pure, ◌>>=◌, ◌>>◌, gets, modify, call, need}

-- `isxdigit` of include/misc.h. A `char` is its bit pattern, and those from 128 on are negative.
abbrev pub isxdigit : ℕ → Bool
isxdigit c = (leb 48 c && leb c 57) || ((leb 97 c && leb c 102) || (leb 65 c && leb c 65))

-- The state of the loops of `ProcessGetFromFile`: `lpos`, `nbytes`, `*addr` and the memory.
pub record Cursor : Type 0 where
  pub lpos : ℕ
  pub nbytes : ℕ
  pub addr : ℕ
  pub memory : Bytes

-- The character at `lpos`.
abbrev here : Cursor → ℕ
here c = c.memory c.lpos

-- The loop over the blanks.
skip_spaces : ℕ → Cursor → Option Cursor
skip_spaces zero c = none
skip_spaces (suc fuel) c =
    let rest = skip_spaces fuel (record c { lpos = c.lpos + 1 }) in
    if (here c == 32) || (here c == 9) then rest else some c

-- One pair of digits, put into the buffer at `pos`.
abbrev pub put_byte : ℕ → Cursor → Cursor
put_byte pos c = record {
  lpos = c.lpos + 2;
  nbytes = c.nbytes + 1;
  addr = (c.addr + 1) % 2 ^ 32;
  memory =
      update c.memory (pos + c.nbytes)
        (getxvalue (here c) * 16 + getxvalue (c.memory (c.lpos + 1)));
}

-- `while (1)`: the digits of a line.
pub read_line : ℕ → ℕ → Cursor → Option Cursor
unfolding skip_spaces
read_line zero pos c = none
read_line (suc fuel) pos c = elim (skip_spaces (suc fuel) c) [
  | none ↦ none
  | some d ↦
      let rest = read_line fuel pos (put_byte pos d) in
      if here d == 10
      then some (record d { lpos = d.lpos + 1 })
      else if not (isxdigit (here d) && isxdigit (d.memory (d.lpos + 1)))
      then some d
      else rest
]

-- The address of a line, when it has one: the outer loop breaks where it does not find a colon, or
-- where a new address comes behind other data.
line_address : ℕ → Cursor → Option (Bool × Cursor)
line_address fuel c =
    if here c == 58
    then some (true, c)
    else if not (c.nbytes == 0)
    then some (false, c)
    else elim (dstrtol fuel c.lpos 16 c.memory) [
      | none ↦ none
      | some (v, stop) ↦ let d = record c { addr = v; lpos = stop } in some (here d == 58, d)
    ]

-- Whether the rest of the text has the character.
text_has : ℕ → ℕ → Cursor → Option Bool
text_has fuel ch c = elim (dindex fuel c.lpos ch c.memory) [
  | none ↦ none
  | some a ↦ some (not (a == 0))
]

-- The outer loop.
read_lines : ℕ → ℕ → Cursor → Option Cursor
unfolding read_line line_address text_has
read_lines zero pos c = none
read_lines (suc fuel) pos c = elim (text_has (suc fuel) 90 c) [
  | none ↦ none
  | some false ↦ some c
  | some true ↦ elim (text_has (suc fuel) 58 c) [
    | none ↦ none
    | some false ↦ some c
    | some true ↦ elim (line_address (suc fuel) c) [
      | none ↦ none
      | some (false, d) ↦ some d
      | some (true, d) ↦ elim (read_line (suc fuel) pos (record d { lpos = d.lpos + 1 })) [
        | none ↦ none
        | some e ↦ read_lines fuel pos e
      ]
    ]
  ]
]

-- `while (localbuf[--nbytes] != '\n')`: the place of the last newline before `a`.
last_newline : ℕ → ℕ → Bytes → Option ℕ
last_newline zero a m = none
last_newline (suc fuel) a m =
    let b = (a + 2 ^ 32 - 1) % 2 ^ 32 in
    let rest = last_newline fuel b m in if m b == 10 then some b else rest

-- What the linker and the machine decide: how the kernel writes the memory that the host sees, the
-- text "start:", and the places of the local variables. `fuel` is given to each loop.
pub record Layout (W : Type 0) : Type 0 where
  pub host : Host W
  pub set_memory : Bytes → W → W
  pub start_text : ℕ
  pub code_buf : ℕ
  pub localbuf : ℕ
  pub fuel : ℕ

-- The results of `ProcessGetCodeInfo`.
pub record CodeInfo : Type 0 where
  pub fd : ℕ
  pub start : ℕ
  pub code_start : ℕ
  pub code_size : ℕ
  pub data_start : ℕ
  pub data_size : ℕ

module _ {W : Type 0} (l : Layout W) where
  abbrev pub memory_of : Files W → Bytes
  memory_of s = l.host.memory s.world

  abbrev pub put_memory : Bytes → Files W → Files W
  put_memory m s = record s { world = l.set_memory m s.world }

  -- The next number of the header, and where it ends.
  abbrev header_number : ℕ → Step (Files W) (ℕ × ℕ)
  header_number pos = need (λ s. dstrtol l.fuel pos 16 (memory_of s))

  read_header : ℕ → Step (Files W) (Option CodeInfo)
  read_header fd = do
    colon ← need (λ s. dindex l.fuel l.code_buf 58 (memory_of s))
    (start, p1) ← header_number (colon + 1)
    (total, p2) ← header_number p1
    (code_start, p3) ← header_number p2
    (code_size, p4) ← header_number p3
    (data_start, p5) ← header_number p4
    (data_size, p6) ← header_number p5
    newline ← need (λ s. dindex l.fuel l.code_buf 10 (memory_of s))
    call (Files.seek_file l.host fd ((1 + newline + 2 ^ 32 - l.code_buf) % 2 ^ 32) 0)
    pure (
        some (record {
          fd = fd;
          start = start;
          code_start = code_start;
          code_size = code_size;
          data_start = data_start;
          data_size = data_size;
        }))

  -- `ProcessGetCodeInfo`; `none` is the result -1. Without a start line the file stays open.
  unfoldable pub get_code_info : ℕ → Step (Files W) (Option CodeInfo)
  unfolding read_header
  get_code_info file = do
    fd ← call (Files.open_file l.host file 1)
    if is_negative fd then pure none else do
      total ← call (Files.read_file l.host fd l.code_buf 100)
      if not (total == 100) then (do call (Files.close_file l.host fd); pure none) else do
        found ← need (λ s. dstrstr l.fuel l.code_buf l.start_text (memory_of s))
        if found == 0 then pure none else read_header fd

  -- `max * 2`, at most 200, compared as the unsigned number that `sizeof` is.
  abbrev read_size : ℕ → ℕ
  read_size max = let twice = max * 2 % 2 ^ 32 in if ltb 200 twice then 200 else twice

  -- The text that was read, up to its last newline, with a 'Z' and a 0 behind it.
  mark_end : ℕ → Step (Files W) (Unit {0})
  unfolding last_newline
  mark_end nbytes = do
    newline ← need (λ s. last_newline l.fuel ((l.localbuf + nbytes) % 2 ^ 32) (memory_of s))
    modify (λ s. put_memory (update (update (memory_of s) (newline + 1) 90) (newline + 2) 0) s)

  -- `ProcessGetFromFile`, with `*addr`: the number of bytes, and the new `*addr`.
  unfoldable pub get_from_file : ℕ → ℕ → ℕ → ℕ → Step (Files W) (ℕ × ℕ)
  unfolding mark_end read_lines
  get_from_file fd buf addr max = do
    seekpos ← call (Files.seek_file l.host fd 0 1)
    n ← call (Files.read_file l.host fd l.localbuf (read_size max))
    if is_negative n || (n == 0) then pure (0, addr) else do
      mark_end n
      c ← need (λ s.
          read_lines l.fuel buf
            (record { lpos = l.localbuf; nbytes = 0; addr = addr; memory = memory_of s }))
      modify (put_memory c.memory)
      call (Files.seek_file l.host fd ((seekpos + c.lpos + 2 ^ 32 - l.localbuf) % 2 ^ 32) 0)
      pure (c.nbytes, c.addr)
