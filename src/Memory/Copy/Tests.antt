-- ===== src/Memory/Copy/Tests.antt =====
-- Examples for the copies between user and system space.
use ece695os_lab.Prelude.{
  ℕ, zero, suc, inr, ◌+◌, ◌*◌, ◌<◌, ◌≤◌, ◌≡◌, ◌⊎◌, Option, none, some, refl, arith,
}
use ece695os_lab.Memory.{page_size, translate_user_to_system}
use ece695os_lab.Misc.{Bytes, bcopy}
use ece695os_lab.Memory.Copy.{copy_system_to_user, copy_user_to_system}
use ece695os_lab.Memory.Copy.Sources.{IsAligned, IsApart, IsDistinct, IsOutside}
use ece695os_lab.Memory.Copy.Content.{copy_user_to_system-copies, copy_system_to_user-copies}

-- A byte is its address, and the page i of the process is the page i + 2.
abbrev memory : Bytes
memory a = a

abbrev pages : ℕ → ℕ
pages i = (i + 2) * page_size + 1

abbrev byte : ℕ → Option (ℕ × Bytes) → ℕ
byte a none = 0
byte a (some (c, m)) = m a

-- The byte on the second page.
copy_user_to_system_second :
    byte 101 (copy_user_to_system 2 pages (2 * page_size + 7) 100 3 memory) ≡ 4 * page_size + 8
unfolding copy_user_to_system translate_user_to_system bcopy
copy_user_to_system_second = refl

copy_system_to_user_none :
    copy_system_to_user 2 pages 100 (3 * page_size) 3 memory ≡ some (0, memory)
unfolding copy_system_to_user translate_user_to_system
copy_system_to_user_none = refl

pages-IsAligned : IsAligned 2 pages
pages-IsAligned zero h = (2, omega arith, refl)
pages-IsAligned (suc zero) h = (3, omega arith, refl)
pages-IsAligned (suc (suc zero)) h = (4, omega arith, refl)
pages-IsAligned (suc (suc (suc p))) h = absurd (omega (arith, h))

-- The bytes that are asked for.
asked : (j : ℕ) → j < 3 → translate_user_to_system 2 pages (7 + j) ≡ 2 * page_size + 7 + j
unfolding translate_user_to_system
asked zero h = refl
asked (suc zero) h = refl
asked (suc (suc zero)) h = refl
asked (suc (suc (suc j))) h = absurd (omega (arith, h))

target-IsApart : IsApart 2 pages 100 7 3
target-IsApart j h = inr (omega (arith, asked j h))

copy_user_to_system-copies_example :
    (c : ℕ) × (t : Bytes) × (copy_user_to_system 2 pages 7 100 3 memory ≡ some (c, t))
    × (c ≤ 3)
    × ((c ≡ 3) ⊎ (translate_user_to_system 2 pages (7 + c) ≡ 0))
    × ((i : ℕ) → i < c → t (100 + i) ≡ translate_user_to_system 2 pages (7 + i))
    × ((a : ℕ) → (a < 100) ⊎ (100 + c ≤ a) → t a ≡ a)
copy_user_to_system-copies_example =
    copy_user_to_system-copies 2 pages 7 100 3 memory (omega arith) pages-IsAligned target-IsApart

asked-IsDistinct : IsDistinct 2 pages 7 3
asked-IsDistinct i j l h found =
    λ e. absurd (omega (arith, l, e, asked i (omega (arith, l, h)), asked j h))

copy_system_to_user-copies_example :
    (c : ℕ) × (t : Bytes) × (copy_system_to_user 2 pages 100 7 3 memory ≡ some (c, t))
    × (c ≤ 3)
    × ((c ≡ 3) ⊎ (translate_user_to_system 2 pages (7 + c) ≡ 0))
    × ((i : ℕ) → i < c → t (translate_user_to_system 2 pages (7 + i)) ≡ 100 + i)
    × ((a : ℕ) → IsOutside 2 pages 7 c a → t a ≡ a)
copy_system_to_user-copies_example =
    copy_system_to_user-copies 2 pages 100 7 3 memory (omega arith) pages-IsAligned target-IsApart
      asked-IsDistinct
