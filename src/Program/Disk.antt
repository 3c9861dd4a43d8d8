-- ===== src/Program/Disk.antt =====
-- A host with one file, for examples.
use Prim.Native.Char.{code}
use Prim.Native.String.{String}
use ece695os_lab.Prelude.{
  ℕ, zero, suc, ◌+◌, ◌-◌, ◌&&◌, List, [], ◌∷◌, ◌++◌, length, ◌==◌, ltb, leb, if◌then◌else◌,
}
use ece695os_lab.Misc.{Bytes}
use ece695os_lab.Files.{Files, Host}
use ece695os_lab.Program.{Layout}

abbrev codes : String → List ℕ
codes String.[] = []
codes (String.◌∷◌ c s) = code c ∷ codes s

-- The texts of the list from the address 0 on, and zeros behind it.
abbrev pub text_at : List ℕ → Bytes
text_at [] a = 0
text_at (c ∷ cs) zero = c
text_at (c ∷ cs) (suc a) = text_at cs a

abbrev newlines : ℕ → List ℕ
newlines zero = []
newlines (suc k) = 10 ∷ newlines k

abbrev lines : String → String → String → List ℕ
lines a b c = codes a ++ 10 ∷ codes b ++ 10 ∷ codes c ++ newlines 90

abbrev pub program : List ℕ
program = lines "start: 20 100 0 4 0 0" "0100:0aff" ":41"

-- A program file without a start line.
abbrev pub no_program : List ℕ
no_program = lines "begin: 20" "" ""

-- The memory that the host sees, and the place in the file.
pub record Disk : Type 0 where
  pub memory : Bytes
  pub at : ℕ

abbrev read : List ℕ → ℕ → ℕ → Disk → ℕ × Disk
read file buf n d =
    let left = length file - d.at in
    let k = if ltb n left then n else left in
    (
      k,
      record {
        memory =
            λ a. if leb buf a && ltb a (buf + k) then text_at file (d.at + a - buf) else d.memory a;
        at = d.at + k;
      },
    )

abbrev host : List ℕ → Host Disk
host file = record {
  memory = λ d. d.memory;
  dlx_prefix = 9000;
  open_file = λ name mode d. (5, record d { at = 0 });
  read_file = λ fd buf n d. read file buf n d;
  write_file = λ fd buf n d. (n, d);
  seek_file = λ fd offset whence d.
      let to = if whence == 1 then d.at else offset in (to, record d { at = to });
  close_file = λ fd d. (0, d);
}

-- The buffers, and the text "start:" at 8000.
abbrev pub layout : List ℕ → Layout Disk
layout file = record {
  host = host file;
  set_memory = λ m d. record d { memory = m };
  start_text = 8000;
  code_buf = 1000;
  localbuf = 2000;
  fuel = 250;
}

abbrev memory : Bytes
memory a =
    if leb 8000 a && ltb a 8006
    then text_at (codes "start:") (a - 8000)
    else if a == 9000
    then 68
    else 0

abbrev pub files : Files Disk
files = record {
  flags = λ i. if i == 0 then 1 else 0;
  fs = λ i. 0;
  info = λ i. 0;
  world = record { memory = memory; at = 0 };
}
