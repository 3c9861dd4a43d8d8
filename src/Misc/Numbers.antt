-- ===== src/Misc/Numbers.antt =====
-- `ditoa` and `dstrtol` of os/misc.c. An `int` is its bit pattern.
mod Decimal
pub mod RoundTrip
use ece695os_lab.Prelude.{
  ℕ, zero, suc, ◌+◌, ◌-◌, ◌*◌, ◌/◌, ◌%◌, ◌^◌, Bool, not, ◌||◌, ◌&&◌, Option, none, some, ◌==◌, ltb,
  leb, if◌then◌else◌, update,
}
use ece695os_lab.Kernel.{is_negative}
use ece695os_lab.Misc.{Bytes}

-- `for (k = 1; k <= n; k *= 10)`, on fuel; `n` is positive.
pub first_power : ℕ → ℕ → ℕ → Option ℕ
first_power zero n k = none
first_power (suc fuel) n k =
    let rest = first_power fuel n (k * 10 % 2 ^ 32) in
    if is_negative k || leb k n then rest else some k

-- The digits, from the first one; the result is the end of the text too.
pub put_digits : ℕ → ℕ → ℕ → ℕ → Bytes → Option (ℕ × Bytes)
put_digits zero n k buf m = none
put_digits (suc fuel) n k buf m =
    let j = k / 10 in
    let m' = update m buf ((n / j + 48) % 256) in
    let rest = put_digits fuel (n % j) j (buf + 1) m' in
    if leb j 1 then some (buf + 1, m') else rest

finish : ℕ → Bytes → Bytes
finish buf m = update m buf 0

-- The digits of a negative number are not written.
unfoldable pub ditoa : ℕ → ℕ → ℕ → Bytes → Option Bytes
unfolding first_power put_digits finish
ditoa fuel n buf m =
    if is_negative n
    then some (finish (buf + 1) (update m buf 45))
    else if n == 0
    then some (finish (buf + 1) (update m buf 48))
    else elim (first_power fuel n 1) [
      | none ↦ none
      | some k ↦ elim (put_digits fuel n k buf m) [ none ↦ none | some (a, t) ↦ some (finish a t) ]
    ]

abbrev is_blank : ℕ → Bool
is_blank c = (c == 32) || ((c == 9) || (c == 10))

skip_blanks : ℕ → ℕ → Bytes → Option ℕ
skip_blanks zero c m = none
skip_blanks (suc fuel) c m =
    let rest = skip_blanks fuel (c + 1) m in if is_blank (m c) then rest else some c

abbrev within : ℕ → ℕ → ℕ → Bool
within a c b = leb a c && leb c b

-- `curdigit`
abbrev digit_of : ℕ → ℕ
digit_of c =
    if within 48 c 57
    then c - 48
    else if within 97 c 122
    then c + 10 - 97
    else if within 65 c 90
    then c + 10 - 65
    else 1000

-- The loop over the digits: the value and the place where it ends.
pub read_digits : ℕ → ℕ → ℕ → ℕ → Bytes → Option (ℕ × ℕ)
read_digits zero base v c m = none
read_digits (suc fuel) base v c m =
    let d = digit_of (m c) in
    let rest = read_digits fuel base ((v * base + d) % 2 ^ 32) (c + 1) m in
    if ltb d base then rest else some (v, c)

-- The base that the text or the caller gives, and where the digits start.
abbrev base_at : ℕ → ℕ → Bytes → ℕ × ℕ
base_at base c m =
    if not (base == 0)
    then (base, c)
    else if not (m c == 48)
    then (10, c)
    else if (m (c + 1) == 120) || (m (c + 1) == 88)
    then (16, c + 2)
    else (8, c + 1)

-- The value, and the place that `newpos` is given.
unfoldable pub dstrtol : ℕ → ℕ → ℕ → Bytes → Option (ℕ × ℕ)
unfolding skip_blanks read_digits
dstrtol fuel c base m = elim (skip_blanks fuel c m) [
  | none ↦ none
  | some start ↦
      if m start == 0
      then some (0, start)
      else let minus = m start == 45 in
        let (b, digits) = base_at base (if minus then start + 1 else start) m in
        if is_negative b || ((b == 0) || ltb 16 b)
        then some (0, start)
        else elim (read_digits fuel b 0 digits m) [
          | none ↦ none
          | some (v, stop) ↦ some (if minus then (2 ^ 32 - v) % 2 ^ 32 else v, stop)
        ]
]
