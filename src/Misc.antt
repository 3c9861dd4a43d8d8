-- ===== src/Misc.antt =====
-- Strings and memory regions of os/misc.c, over a byte memory. A `char` is its bit pattern. Loops
-- whose end depends on the memory are on fuel, and `none` is the end of the fuel.
pub mod Strings
pub mod Regions
pub mod Numbers
mod Tests
use ece695os_lab.Prelude.{
  ℕ, zero, suc, ◌+◌, ◌-◌, ◌%◌, Bool, true, false, not, ◌||◌, Option, none, some, ◌==◌, ltb,
  if◌then◌else◌, update,
}
use ece695os_lab.Kernel.{is_negative, minus_one}

abbrev pub Bytes : Type 0
Bytes = ℕ → ℕ

-- `dstrcpy`
unfoldable pub dstrcpy : ℕ → ℕ → ℕ → Bytes → Option Bytes
dstrcpy zero to from m = none
dstrcpy (suc fuel) to from m =
    let m' = update m to (m from) in
    let rest = dstrcpy fuel (to + 1) (from + 1) m' in if m from == 0 then some m' else rest

-- The rounds of `dstrncpy` that are left.
copy_upto : ℕ → ℕ → ℕ → Bytes → Bytes
copy_upto zero to from m = m
copy_upto (suc n) to from m =
    let m' = update m to (m from) in
    let rest = copy_upto n (to + 1) (from + 1) m' in if m from == 0 then m' else rest

-- A count that is an `int`: no round when it is negative.
abbrev rounds : ℕ → ℕ
rounds n = if is_negative n then 0 else n

unfoldable pub dstrncpy : ℕ → ℕ → ℕ → Bytes → Bytes
unfolding copy_upto
dstrncpy to from n m = copy_upto (rounds n) to from m

-- The first loop of `dstrcat`.
string_end : ℕ → ℕ → Bytes → Option ℕ
string_end zero a m = none
string_end (suc fuel) a m =
    let rest = string_end fuel (a + 1) m in if m a == 0 then some a else rest

pub dstrcat : ℕ → ℕ → ℕ → Bytes → Option Bytes
unfolding string_end dstrcpy
dstrcat fuel onto addn m = elim (string_end fuel onto m) [
  | none ↦ none
  | some a ↦ dstrcpy fuel a addn m
]

-- The results -1 and 1; `char` is signed.
abbrev char_sign : ℕ → ℕ → ℕ
char_sign a b =
    if ltb ((a + 128) % 256) ((b + 128) % 256) then minus_one else if a == b then 0 else 1

compare_upto : ℕ → ℕ → ℕ → Bytes → ℕ
compare_upto zero s1 s2 m = 0
compare_upto (suc n) s1 s2 m =
    let rest = compare_upto n (s1 + 1) (s2 + 1) m in
    if m s2 == 0 then 0 else if not (m s1 == m s2) then char_sign (m s1) (m s2) else rest

unfoldable pub dstrncmp : ℕ → ℕ → ℕ → Bytes → ℕ
unfolding compare_upto
dstrncmp s1 s2 n m = compare_upto (rounds n) s1 s2 m

count_chars : ℕ → ℕ → ℕ → Bytes → Option ℕ
count_chars zero i s m = none
count_chars (suc fuel) i s m =
    let rest = count_chars fuel (i + 1) (s + 1) m in if m s == 0 then some i else rest

unfoldable pub dstrlen : ℕ → ℕ → Bytes → Option ℕ
unfolding count_chars
dstrlen fuel s m = count_chars fuel 0 s m

-- A search gives an address, or 0 when it fails.
find_match : ℕ → ℕ → ℕ → ℕ → Bytes → Option ℕ
find_match zero n buf pattern m = none
find_match (suc fuel) n buf pattern m =
    let rest = find_match fuel n (buf + 1) pattern m in
    if m buf == 0 then some 0 else if dstrncmp buf pattern n m == 0 then some buf else rest

unfoldable pub dstrstr : ℕ → ℕ → ℕ → Bytes → Option ℕ
unfolding find_match
dstrstr fuel buf pattern m = elim (dstrlen fuel pattern m) [
  | none ↦ none
  | some n ↦ find_match fuel n buf pattern m
]

-- The inner loop of `dmindex`: whether the character is one of the string.
one_of : ℕ → ℕ → ℕ → Bytes → Option Bool
one_of zero c s m = none
one_of (suc fuel) c s m =
    let rest = one_of fuel c (s + 1) m in
    if m s == 0 then some false else if c == m s then some true else rest

-- The outer loop of `dmindex` does not advance.
pub dmindex : ℕ → ℕ → ℕ → Bytes → Option ℕ
unfolding one_of
dmindex zero s chars m = none
dmindex (suc fuel) s chars m =
    let rest = dmindex fuel s chars m in
    if m s == 0 then some 0 else elim (one_of (suc fuel) (m s) chars m) [
      | none ↦ none
      | some true ↦ some s
      | some false ↦ rest
    ]

unfoldable pub dindex : ℕ → ℕ → ℕ → Bytes → Option ℕ
dindex zero s c m = none
dindex (suc fuel) s c m =
    let rest = dindex fuel (s + 1) c m in
    if m s == 0 then some 0 else if m s == c then some s else rest

-- `bcopy` and `bzero`, with the rounds that are left.
copy_region : ℕ → ℕ → ℕ → Bytes → Bytes
copy_region zero src dst m = m
copy_region (suc n) src dst m = copy_region n (src + 1) (dst + 1) (update m dst (m src))

unfoldable pub bcopy : ℕ → ℕ → ℕ → Bytes → Bytes
unfolding copy_region
bcopy src dst count m = copy_region (rounds count) src dst m

zero_region : ℕ → ℕ → Bytes → Bytes
zero_region zero dst m = m
zero_region (suc n) dst m = zero_region n (dst + 1) (update m dst 0)

pub bzero : ℕ → ℕ → Bytes → Bytes
unfolding zero_region
bzero dst count m = zero_region (rounds count) dst m

-- `min` of two `int`s.
pub min : ℕ → ℕ → ℕ
min a b = if ltb ((a + 0x80000000) % 0x100000000) ((b + 0x80000000) % 0x100000000) then a else b
