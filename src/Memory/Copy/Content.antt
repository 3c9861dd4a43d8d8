-- ===== src/Memory/Copy/Content.antt =====
-- What the copies between user and system space of os/memory.c copy, and which bytes they change.
use ece695os_lab.Prelude.{
  ℕ, zero, suc, ◌+◌, ◌-◌, ◌^◌, ◌<◌, ◌≤◌, ◌≡◌, ◌⊎◌, Bool, true, false, some, ◌==◌, refl, arith,
  Bool-cases, inl, inr,
}
use ece695os_lab.Kernel.{is_negative}
use ece695os_lab.Memory.{translate_user_to_system}
use ece695os_lab.Misc.{Bytes}
use ece695os_lab.Memory.Copy.Sources.{IsAligned, IsApart, IsDistinct, IsOutside}
use ece695os_lab.Memory.Copy.Rounds.{chunk-bounds, Ran, stopped, moved, Ran-round}
use ece695os_lab.Memory.Copy.{
  chunk, move_loop, move_between_spaces, copy_user_to_system, copy_system_to_user,
}

module _ (npages : ℕ) (pagetable : ℕ → ℕ) (to_user : Bool) where
  move_loop-Ran :
      (fuel s u n copied : ℕ) (m : Bytes)
      → n ≤ fuel
      → (c : ℕ) × (t : Bytes) × (move_loop fuel npages pagetable to_user s u n copied m
          ≡ some (c, t))
        × Ran npages pagetable to_user s u n copied c m t
  unfolding move_loop
  move_loop-Ran zero s u n copied m enough =
      let e : n ≡ 0 = omega arith in
      (copied, m, rw e refl, stopped npages pagetable to_user s u n copied m (inl e))
  move_loop-Ran (suc fuel) s u n copied m enough = elim (Bool-cases (n == 0)) [
    | inl z ↦
        (copied, m, rw z refl, stopped npages pagetable to_user s u n copied m (inl (ground arith)))
    | inr z ↦
        let at = translate_user_to_system npages pagetable u in
        elim (Bool-cases (at == 0)) [
          | inl a ↦ (
            copied,
            m,
            rw (z, a) refl,
            stopped npages pagetable to_user s u n copied m (inr (ground arith)),
          )
          | inr a ↦
              let pos : 0 < n = ground arith in
              let k = chunk at n in
              let (more, fits) = chunk-bounds at n pos in
              let (c, t, run, r) =
                move_loop-Ran fuel (s + k) (u + k) (n - k) (copied + k)
                  (moved npages pagetable to_user s at k m) (omega arith) in
              (
                c,
                t,
                rw (z, a) run,
                Ran-round npages pagetable to_user s u n copied c k m t refl a pos fits r,
              )
        ]
  ]

  move_between_spaces-Ran :
      (s u n : ℕ) (m : Bytes)
      → n < 2 ^ 31
      → (c : ℕ) × (t : Bytes) × (move_between_spaces npages pagetable to_user s u n m ≡ some (c, t))
        × Ran npages pagetable to_user s u n 0 c m t
  unfolding move_between_spaces
  move_between_spaces-Ran s u n m small =
      let e : is_negative n ≡ false = ground arith in
      let (c, t, run, r) = move_loop-Ran n s u n 0 m (omega arith) in (c, t, rw e run, r)

module _ (npages : ℕ) (pagetable : ℕ → ℕ) where
  -- MemoryCopyUserToSystem of a count that is not negative ends, when each page starts at the start of
  -- a page of the memory and the target is apart from the bytes that are asked for: it counts all
  -- bytes, or it stops at an address that does not translate; as many bytes as it counts stand from
  -- the target on as they stand where the addresses of the process translate to; and no other byte
  -- has changed.
  pub copy_user_to_system-copies :
      (from to n : ℕ) (m : Bytes)
      → n < 2 ^ 31
      → IsAligned npages pagetable
      → IsApart npages pagetable to from n
      → (c : ℕ) × (t : Bytes) × (copy_user_to_system npages pagetable from to n m ≡ some (c, t))
        × (c ≤ n)
        × ((c ≡ n) ⊎ (translate_user_to_system npages pagetable (from + c) ≡ 0))
        × ((i : ℕ) → i < c → t (to + i) ≡ m (translate_user_to_system npages pagetable (from + i)))
        × ((a : ℕ) → (a < to) ⊎ (to + c ≤ a) → t a ≡ m a)
  unfolding copy_user_to_system
  copy_user_to_system-copies from to n m small aligned apart =
      let (c, t, run, r) = move_between_spaces-Ran npages pagetable false to from n m small in
      let none_before : c - 0 ≡ c = omega arith in
      let all : 0 + n ≡ n = omega arith in
      (
        c,
        t,
        run,
        rw all at (r.to),
        rw (all, none_before) at (r.whole),
        λ i h. r.content refl aligned apart i (omega (arith, h)),
        λ a out. r.system a refl (rw none_before out),
      )

  -- MemoryCopySystemToUser of a count that is not negative ends, when each page starts at the start of
  -- a page of the memory, no two of the bytes that are asked for are the same, and they are apart
  -- from the source: it counts all bytes, or it stops at an address that does not translate; as many
  -- bytes of the source as it counts stand where the addresses of the process translate to; and no
  -- other byte has changed.
  pub copy_system_to_user-copies :
      (from to n : ℕ) (m : Bytes)
      → n < 2 ^ 31
      → IsAligned npages pagetable
      → IsApart npages pagetable from to n
      → IsDistinct npages pagetable to n
      → (c : ℕ) × (t : Bytes) × (copy_system_to_user npages pagetable from to n m ≡ some (c, t))
        × (c ≤ n)
        × ((c ≡ n) ⊎ (translate_user_to_system npages pagetable (to + c) ≡ 0))
        × ((i : ℕ) → i < c → t (translate_user_to_system npages pagetable (to + i)) ≡ m (from + i))
        × ((a : ℕ) → IsOutside npages pagetable to c a → t a ≡ m a)
  unfolding copy_system_to_user
  copy_system_to_user-copies from to n m small aligned apart distinct =
      let (c, t, run, r) = move_between_spaces-Ran npages pagetable true from to n m small in
      let none_before : c - 0 ≡ c = omega arith in
      let all : 0 + n ≡ n = omega arith in
      (
        c,
        t,
        run,
        rw all at (r.to),
        rw (all, none_before) at (r.whole),
        λ i h. r.user_content refl aligned apart distinct i (omega (arith, h)),
        λ a out. r.user refl aligned a (rw none_before out),
      )
