-- ===== src/Arguments/Tests.antt =====
-- Examples for the arguments of a process.
use ece695os_lab.Prelude.{ℕ, zero, suc, ◌≡◌, Option, none, some, [], ◌∷◌, refl}
use ece695os_lab.Misc.{Bytes}
use ece695os_lab.Arguments.{Reader, pack_arguments, getxvalue}

-- The strings "a" at 0 and "bc" at 2.
abbrev memory : Bytes
memory zero = 97
memory (suc zero) = 0
memory (suc (suc zero)) = 98
memory (suc (suc (suc zero))) = 99
memory (suc (suc (suc (suc n)))) = 0

abbrev start : Reader
start = record { str = 0; location = 2 }

abbrev byte : ℕ → Option Bytes → ℕ
byte a none = 0
byte a (some m) = m a

pack_arguments_last : byte 23 (pack_arguments 9 (2 ∷ 0 ∷ []) 20 memory) ≡ 97
unfolding pack_arguments
pack_arguments_last = refl

getxvalue_lem : getxvalue 70 ≡ 15
unfolding getxvalue
getxvalue_lem = refl
