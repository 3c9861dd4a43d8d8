-- ===== src/Memory/Copy.antt =====
-- The copies between user and system space of os/memory.c, page by page over a byte memory.
pub mod Content
mod Sources
mod Rounds
mod Tests
use ece695os_lab.Prelude.{
  ℕ, zero, suc, ◌+◌, ◌-◌, ◌%◌, ◌^◌, ◌<◌, ◌≤◌, ◌≡◌, Bool, true, false, Option, none, some, ◌==◌, ltb,
  if◌then◌else◌, refl, arith, Bool-cases, inl, inr, ◌∙◌,
}
use ece695os_lab.Kernel.{is_negative}
use ece695os_lab.Memory.{page_size, translate_user_to_system}
use ece695os_lab.Misc.{Bytes, bcopy}

-- `bytesToCopy` at the system address `at`, with `n` bytes left.
abbrev chunk : ℕ → ℕ → ℕ
chunk at n = let left = page_size - at % page_size in if ltb n left then n else left

-- The loop of `moveBetweenSpaces`, on fuel: the bytes copied, and the memory.
move_loop : ℕ → ℕ → (ℕ → ℕ) → Bool → ℕ → ℕ → ℕ → ℕ → Bytes → Option (ℕ × Bytes)
move_loop zero npages pagetable to_user s u n copied m = if n == 0 then some (copied, m) else none
move_loop (suc fuel) npages pagetable to_user s u n copied m =
    let at = translate_user_to_system npages pagetable u in
    let k = chunk at n in
    let m' = if to_user then bcopy s at k m else bcopy at s k m in
    let rest = move_loop fuel npages pagetable to_user (s + k) (u + k) (n - k) (copied + k) m' in
    if n == 0 then some (copied, m) else if at == 0 then some (copied, m) else rest

-- Each round copies a byte at least, so `n` rounds are enough.
pub move_between_spaces : ℕ → (ℕ → ℕ) → Bool → ℕ → ℕ → ℕ → Bytes → Option (ℕ × Bytes)
unfolding move_loop
move_between_spaces npages pagetable to_user s u n m =
    let count = if is_negative n then 0 else n in
    move_loop count npages pagetable to_user s u count 0 m

unfoldable pub copy_system_to_user : ℕ → (ℕ → ℕ) → ℕ → ℕ → ℕ → Bytes → Option (ℕ × Bytes)
unfolding move_between_spaces
copy_system_to_user npages pagetable from to n m =
    move_between_spaces npages pagetable true from to n m

unfoldable pub copy_user_to_system : ℕ → (ℕ → ℕ) → ℕ → ℕ → ℕ → Bytes → Option (ℕ × Bytes)
unfolding move_between_spaces
copy_user_to_system npages pagetable from to n m =
    move_between_spaces npages pagetable false to from n m
