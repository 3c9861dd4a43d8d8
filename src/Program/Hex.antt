-- ===== src/Program/Hex.antt =====
-- The lines of a program file as text: bytes as pairs of hex digits.
use ece695os_lab.Prelude.{
  ℕ, zero, suc, ◌+◌, ◌*◌, ◌/◌, ◌%◌, ◌^◌, ◌<◌, ◌≤◌, ◌≡◌, ◌⊎◌, inl, true, false, not, ◌&&◌, ◌||◌,
  List, [], ◌∷◌, length, some, ◌==◌, ltb, if◌then◌else◌, update, update_self, update-ne, refl,
  arith, ap, ◌∙◌,
}
use ece695os_lab.Misc.{Bytes}
use ece695os_lab.Arguments.{getxvalue}
use ece695os_lab.Program.{Cursor, isxdigit, put_byte, read_line, here}

abbrev pub hex_digit : ℕ → ℕ
hex_digit n = if ltb n 10 then n + 48 else n + 87

-- The text of some bytes, with a newline behind it.
abbrev pub hex_line : List ℕ → List ℕ
hex_line [] = 10 ∷ []
hex_line (b ∷ bs) = hex_digit (b / 16) ∷ hex_digit (b % 16) ∷ hex_line bs

-- The bytes of the list stand in the memory from `a` on.
abbrev pub StandsAt : Bytes → ℕ → List ℕ → Type 0
StandsAt m a [] = Unit
StandsAt m a (c ∷ cs) = (m a ≡ c) × StandsAt m (a + 1) cs

abbrev pub AllBytes : List ℕ → Type 0
AllBytes [] = Unit
AllBytes (b ∷ bs) = (b < 256) × AllBytes bs

-- A region of `n` bytes at `a` does not meet one of `k` bytes at `b`.
abbrev pub Apart : ℕ → ℕ → ℕ → ℕ → Type 0
Apart a n b k = (a + n ≤ b) ⊎ (b + k ≤ a)

hex_digit-isxdigit : (n : ℕ) → n < 16 → isxdigit (hex_digit n) ≡ true
hex_digit-isxdigit n h = ground arith

hex_digit-getxvalue : (n : ℕ) → n < 16 → getxvalue (hex_digit n) ≡ n
unfolding getxvalue
hex_digit-getxvalue n h = ground arith

StandsAt-update :
    (m : Bytes) (a p v : ℕ) (cs : List ℕ)
    → (p < a) ⊎ (a + length cs ≤ p)
    → StandsAt m a cs
    → StandsAt (update m p v) a cs
StandsAt-update m a p v [] out h = tt
StandsAt-update m a p v (c ∷ cs) out (e, h) =
    (ground arith, StandsAt-update m (a + 1) p v cs (ground arith) h)

length-hex_line : (bs : List ℕ) → length (hex_line bs) ≡ 2 * length bs + 1
length-hex_line [] = refl
length-hex_line (b ∷ bs) = omega (arith, length-hex_line bs)

read_line-nil :
    (fuel pos : ℕ) (c : Cursor)
    → here c ≡ 10
    → read_line (suc fuel) pos c ≡ some (record c { lpos = c.lpos + 1 })
unfolding read_line
read_line-nil fuel pos c e =
    let at : (here c == 10) ≡ true = ground arith in
    let no_blank : ((here c == 32) || (here c == 9)) ≡ false = ground arith in
    rw (no_blank, read_line) (rw at refl)

module _ (fuel pos b : ℕ) (c : Cursor) (small : b < 256) (e : here c ≡ hex_digit (b / 16))
    (d : c.memory (c.lpos + 1) ≡ hex_digit (b % 16)) where
  read_line-cons : read_line (suc fuel) pos c ≡ read_line fuel pos (put_byte pos c)
  unfolding read_line
  read_line-cons =
      let no_blank : ((here c == 32) || (here c == 9)) ≡ false = ground arith in
      let no_end : (here c == 10) ≡ false = ground arith in
      let digits : not (isxdigit (here c) && isxdigit (c.memory (c.lpos + 1))) ≡ false =
        rw
          (
            e,
            d,
            hex_digit-isxdigit (b / 16) (omega arith),
            hex_digit-isxdigit (b % 16) (omega arith),
          )
          refl in
      rw (no_blank, read_line) (rw no_end (rw digits refl))

  put_byte-memory : (put_byte pos c).memory ≡ update c.memory (pos + c.nbytes) b
  put_byte-memory =
      let same : getxvalue (here c) * 16 + getxvalue (c.memory (c.lpos + 1)) ≡ b =
        rw
          (
            e,
            d,
            hex_digit-getxvalue (b / 16) (omega arith),
            hex_digit-getxvalue (b % 16) (omega arith),
          )
          (omega arith) in
      rw same refl

-- The cursor behind a line with the bytes, which stand in the buffer.
pub record Read (pos : ℕ) (bs : List ℕ) (c d : Cursor) : Type 0 where
  pub lpos : d.lpos ≡ c.lpos + 2 * length bs + 1
  pub nbytes : d.nbytes ≡ c.nbytes + length bs
  pub addr : d.addr ≡ (c.addr + length bs) % 2 ^ 32
  pub bytes : StandsAt d.memory (pos + c.nbytes) bs
  pub rest :
      (a : ℕ) → (a < pos + c.nbytes) ⊎ (pos + c.nbytes + length bs ≤ a) → d.memory a ≡ c.memory a

-- A line of bytes, each written as a pair of lower-case hexadecimal digits, with no blank between
-- them and a newline at the end, is read back as these bytes: from such a line that starts at the
-- cursor, with an address of 32 bits, a round for each byte and one more, and a buffer that does not
-- meet the line, the loop ends behind the newline with the bytes in the buffer behind those that are
-- there, the address and the count are as many further, and no other byte of the memory has changed.
pub read_line-hex_line :
    (bs : List ℕ) (fuel pos : ℕ) (c : Cursor)
    → AllBytes bs
    → length bs < fuel
    → c.addr < 2 ^ 32
    → StandsAt c.memory c.lpos (hex_line bs)
    → Apart (pos + c.nbytes) (length bs) c.lpos (2 * length bs + 1)
    → (d : Cursor) × (read_line fuel pos c ≡ some d) × Read pos bs c d
read_line-hex_line bs zero pos c all enough w text apart = absurd (omega arith)
read_line-hex_line [] (suc fuel) pos c all enough w text apart = (
  record c { lpos = c.lpos + 1 },
  read_line-nil fuel pos c text.0,
  record {
    lpos = omega arith;
    nbytes = omega arith;
    addr = omega arith;
    bytes = tt;
    rest = λ a out. refl;
  },
)
read_line-hex_line (b ∷ bs) (suc fuel) pos c (small, all) enough w (e, (d, text)) apart =
    let n = put_byte pos c in
    let m = put_byte-memory fuel pos b c small e d in
    let out : (pos + c.nbytes < c.lpos + 2) ⊎ (c.lpos + 2 + length (hex_line bs) ≤ pos + c.nbytes) =
      ground (arith, length-hex_line bs) in
    let next : c.lpos + 1 + 1 ≡ c.lpos + 2 = omega arith in
    let text' : StandsAt n.memory n.lpos (hex_line bs) = rw m (
      StandsAt-update c.memory (c.lpos + 2) (pos + c.nbytes) b (hex_line bs) out
        (rw next at text)) in
    let (t, run, r) =
      read_line-hex_line bs fuel pos n all (omega arith) (omega arith) text' (ground arith) in
    let place : pos + (c.nbytes + 1) ≡ pos + c.nbytes + 1 = omega arith in
    let first : n.memory (pos + c.nbytes) ≡ b =
      ap (λ (f : Bytes). f (pos + c.nbytes)) m ∙ update_self c.memory (pos + c.nbytes) b in
    (
      t,
      read_line-cons fuel pos b c small e d ∙ run,
      record {
        lpos = omega (arith, r.lpos);
        nbytes = omega (arith, r.nbytes);
        addr = omega (arith, r.addr);
        bytes = (r.rest (pos + c.nbytes) (inl (omega arith)) ∙ first, rw place at (r.bytes));
        rest = λ a far.
            let other : n.memory a ≡ c.memory a =
              ap (λ (f : Bytes). f a) m ∙ update-ne c.memory (pos + c.nbytes) b (ground arith) in
            r.rest a (ground arith) ∙ other;
      },
    )
