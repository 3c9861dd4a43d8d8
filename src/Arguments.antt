-- ===== src/Arguments.antt =====
-- The arguments of a process in os/process.c: how `process_create` packs them, how `get_argument`
-- reads them, and the hex digits of a program file.
mod Tests
use ece695os_lab.Prelude.{
  ℕ, zero, suc, ◌+◌, ◌-◌, ◌<◌, ◌≤◌, ◌≡◌, ◌≢◌, ◌⊎◌, Bool, true, false, ◌||◌, ◌&&◌, Option, none,
  some, List, [], ◌∷◌, length, ◌==◌, leb, if◌then◌else◌, update, refl, arith, ap, ◌∙◌,
}
use ece695os_lab.Queue.{null}
use ece695os_lab.Misc.{Bytes}
use ece695os_lab.Misc.Strings.{IsString}

-- The static variables of `get_argument`.
pub record Reader : Type 0 where
  pub str : ℕ
  pub location : ℕ

-- The loop of `get_argument`, with the rounds that are left.
skip_argument : ℕ → ℕ → ℕ → Bytes → ℕ
skip_argument zero str location m = location
skip_argument (suc k) str location m =
    let rest = skip_argument k str (location + 1) m in
    if m (str + location) == 0 then location + 1 else rest

unfoldable pub get_argument : ℕ → Bytes → Reader → ℕ × Reader
unfolding skip_argument
get_argument string m r0 =
    let r = if string == null then r0 else record { str = string; location = 0 } in
    if (m (r.str + r.location) == 0) || leb 99 r.location
    then (0, r)
    else (r.location, record r { location = skip_argument (100 - r.location) r.str r.location m })

-- One argument goes to `allargs[k]` and on; the result is the next `k`. On fuel.
pack_argument : ℕ → ℕ → ℕ → Bytes → Option (ℕ × Bytes)
pack_argument zero arg k m = none
pack_argument (suc fuel) arg k m =
    let m' = update m k (m arg) in
    let rest = pack_argument fuel (arg + 1) (k + 1) m' in
    if m arg == 0 then some (k + 1, m') else rest

-- The block that `process_create` gives to `ProcessFork`, for the arguments before the NULL.
unfoldable pub pack_arguments : ℕ → List ℕ → ℕ → Bytes → Option Bytes
unfolding pack_argument
pack_arguments fuel [] k m = some (update (update m (k + 1) 0) k 0)
pack_arguments fuel (arg ∷ args) k m = elim (pack_argument fuel arg k m) [
  | none ↦ none
  | some (k', m') ↦ pack_arguments fuel args k' m'
]

abbrev between : ℕ → ℕ → ℕ → Bool
between a x b = leb a x && leb x b

-- `getxvalue`
unfoldable pub getxvalue : ℕ → ℕ
getxvalue x =
    if between 48 x 57
    then x - 48
    else if between 97 x 102
    then x + 10 - 97
    else if between 65 x 70
    then x + 10 - 65
    else 0

skip_argument-length :
    (cs : List ℕ) (k str location : ℕ) (m : Bytes)
    → length cs < k
    → IsString m (str + location) cs
    → skip_argument k str location m ≡ location + length cs + 1
unfolding skip_argument
skip_argument-length cs zero str location m enough w = absurd (omega arith)
skip_argument-length [] (suc k) str location m enough w = rw w (omega arith)
skip_argument-length (c ∷ cs) (suc k) str location m enough (e, n, w) =
    let here : (m (str + location) == 0) ≡ false = ground arith in
    let same : str + (location + 1) ≡ str + location + 1 = omega arith in
    let next : IsString m (str + (location + 1)) cs = rw same w in
    rw (here, skip_argument-length cs k str (location + 1) m (omega arith) next) (omega arith)

skip_argument-le : (k str location : ℕ) (m : Bytes) → location ≤ skip_argument k str location m
unfolding skip_argument
skip_argument-le zero str location m = omega arith
skip_argument-le (suc k) str location m = ground (arith, skip_argument-le k str (location + 1) m)

skip_argument-lt :
    (k str location : ℕ) (m : Bytes) → 0 < k → location < skip_argument k str location m
unfolding skip_argument
skip_argument-lt zero str location m pos = absurd (omega arith)
skip_argument-lt (suc k) str location m pos =
    ground (arith, skip_argument-le k str (location + 1) m)

-- A call without a text that does not give 0 moves on, within the 100 bytes.
pub get_argument-later :
    (m : Bytes) (r : Reader)
    → ((get_argument null m r).0 ≡ 0)
      ⊎ ((r.location < (get_argument null m r).1.location) × (r.location < 99))
unfolding get_argument
get_argument-later m r = ground (arith, skip_argument-lt (100 - r.location) r.str r.location m)

-- `get_argument` without a text reads on: at a string that is not empty and that ends within the
-- 100 bytes, it gives the place of that string, and the next call reads behind its end.
get_argument-next :
    (c : ℕ) (cs : List ℕ) (m : Bytes) (r : Reader)
    → IsString m (r.str + r.location) (c ∷ cs)
    → r.location + length cs < 98
    → get_argument null m r ≡ (r.location, record r { location = r.location + length cs + 2 })
unfolding get_argument
get_argument-next c cs m r w room =
    let (e, n, rest) = w in
    let here : (m (r.str + r.location) == 0) ≡ false = ground arith in
    let early : leb 99 r.location ≡ false = ground arith in
    let skip : skip_argument (100 - r.location) r.str r.location m ≡ r.location + length cs + 2 =
      skip_argument-length (c ∷ cs) (100 - r.location) r.str r.location m (omega arith) w
      ∙ omega arith in
    rw (here, early) (rw skip refl)
